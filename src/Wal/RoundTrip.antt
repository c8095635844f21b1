-- ===== src/Wal/RoundTrip.antt =====
-- DecodeWalRecord on what EncodeWalRecord wrote: in full, followed by anything, and cut short.
use mini_kv_storage_engine.Base.{
  ℕ, ◌+◌, ◌-◌, ◌≤◌, ◌<◌, ◌≡◌, refl, ◌∙◌, ap, inl, inr, [], ◌++◌, arith, length, length-append, take,
  drop, take-append, take-append_ge, length-take, drop-append, take_all, ltb, if◌then◌else◌,
  Bool-cases, tests,
}
use mini_kv_storage_engine.Bytes.{Bytes}
use mini_kv_storage_engine.Status.{incomplete}
use mini_kv_storage_engine.Result.{ok, err}
use mini_kv_storage_engine.Config.{Options}
use mini_kv_storage_engine.Wal.{
  WalRecord, header_size, decode_wal_record, encode_wal_record, decode_wal_record_header,
}
use mini_kv_storage_engine.Wal.Layout.{layout, decode_header-layout}
use mini_kv_storage_engine.Wal.Encoded.{
  IsRecord, IsAccepted, header_of, encoding, encode_lem, encode-IsAccepted, header_of-IsHeader,
}

pub length-encoding :
    (r : WalRecord) → length (encoding r) ≡ header_size + (length r.key + length r.value)
length-encoding r = omega (arith, length-append r.key r.value)

-- The payload behind the header, and the key and the value in it.
payload_region :
    (r : WalRecord) (rest : Bytes)
    → take
        (header_size + (length r.key + length r.value) - header_size)
        (drop header_size (encoding r ++ rest))
      ≡ r.key ++ r.value
payload_region r rest =
    take-append (r.key ++ r.value) rest _ (omega (arith, length-append r.key r.value))

key_region : (r : WalRecord) → take (length r.key) (r.key ++ r.value) ≡ r.key
key_region r = take-append r.key r.value (length r.key) refl

value_region :
    (r : WalRecord) → take (length r.value) (drop (length r.key) (r.key ++ r.value)) ≡ r.value
value_region r =
    ap (take (length r.value)) (drop-append r.key r.value (length r.key) refl)
    ∙ take_all r.value (length r.value) (omega arith)

pub decode-encoding :
    (r : WalRecord) (o : Options) (rest : Bytes)
    → IsRecord r
    → IsAccepted o r
    → decode_wal_record (encoding r ++ rest) o ≡ ok (length (encoding r), r)
unfolding decode_wal_record
decode-encoding r o rest w a = ground (
  arith,
  decode_header-layout o (header_of r) ((r.key ++ r.value) ++ rest) (header_of-IsHeader r o w a),
  payload_region r rest,
  key_region r,
  value_region r,
  length-encoding r,
  length-append (r.key ++ r.value) rest,
  length-append r.key r.value,
)

encoding_unique :
    (r : WalRecord) (o : Options) (bytes : Bytes)
    → IsAccepted o r
    → encode_wal_record r o ≡ ok bytes
    → bytes ≡ encoding r
encoding_unique r o bytes a e = cc (encode_lem r o a)

short_header :
    (o : Options) (input : Bytes)
    → length input < header_size
    → decode_wal_record input o ≡ err (incomplete "WAL record header is incomplete")
unfolding decode_wal_record decode_wal_record_header
short_header o input h = ground arith

short_payload :
    (r : WalRecord) (o : Options) (n : ℕ)
    → IsRecord r
    → IsAccepted o r
    → header_size ≤ n
    → n < length (encoding r)
    → decode_wal_record (take n (encoding r)) o
      ≡ err (incomplete "WAL record payload is incomplete")
unfolding decode_wal_record
short_payload r o n w a long short =
    let payload = r.key ++ r.value in
    let left = take (n - header_size) payload in
    let cut : take n (encoding r) ≡ layout (header_of r) left =
      take-append_ge (layout (header_of r) []) payload n long in
    rw cut (
      ground (
        arith,
        decode_header-layout o (header_of r) left (header_of-IsHeader r o w a),
        length-take (n - header_size) payload,
        length-encoding r,
        length-append r.key r.value,
      ))

truncated_encoding :
    (r : WalRecord) (o : Options) (n : ℕ)
    → IsRecord r
    → IsAccepted o r
    → n < length (encoding r)
    → decode_wal_record (take n (encoding r)) o
      ≡ err (
          incomplete (
            if ltb n header_size
            then "WAL record header is incomplete"
            else "WAL record payload is incomplete"))
truncated_encoding r o n w a short = elim (Bool-cases (ltb n header_size)) [
  | inl in_header ↦ rw in_header (short_header o _ (rw length-take (omega (tests, in_header))))
  | inr in_payload ↦ rw in_payload (short_payload r o n w a (ground arith) short)
]

-- Whatever bytes follow it, a record of bytes with a 64-bit sequence number that EncodeWalRecord
-- accepted decodes to itself, and the decoder consumes exactly the bytes that were written.
pub decode-encode :
    (r : WalRecord) (o : Options) (bytes rest : Bytes)
    → IsRecord r
    → encode_wal_record r o ≡ ok bytes
    → decode_wal_record (bytes ++ rest) o ≡ ok (length bytes, r)
decode-encode r o bytes rest w e =
    let a = encode-IsAccepted r o e in
    rw (encoding_unique r o bytes a e) (decode-encoding r o rest w a)

-- The encoding of a record of bytes with a 64-bit sequence number that was cut short by at least
-- one byte decodes to Incomplete, never to an error of another kind or to a record: the header is
-- reported up to 31 bytes, the payload from 32 on.
pub decode_truncated :
    (r : WalRecord) (o : Options) (bytes : Bytes) (n : ℕ)
    → IsRecord r
    → encode_wal_record r o ≡ ok bytes
    → n < length bytes
    → decode_wal_record (take n bytes) o
      ≡ err (
          incomplete (
            if ltb n header_size
            then "WAL record header is incomplete"
            else "WAL record payload is incomplete"))
decode_truncated r o bytes n w e short =
    let a = encode-IsAccepted r o e in
    rw (encoding_unique r o bytes a e)
      (truncated_encoding r o n w a (rw (encoding_unique r o bytes a e) at short))

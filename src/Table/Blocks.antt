-- ===== src/Table/Blocks.antt =====
-- One data block: the bytes that FinishBlock writes for some records, and ReadBlock on them.
use mini_kv_storage_engine.Base.{
  ℕ, ◌+◌, ◌*◌, ◌%◌, ◌^◌, ◌≤◌, ◌<◌, ◌≡◌, refl, some, List, [], ◌∷◌, ◌++◌, append-nil, append_assoc,
  arith, length, length-append, All, All-append, drop, drop-append,
}
use mini_kv_storage_engine.Bytes.{Bytes, IsByte}
use mini_kv_storage_engine.Bytes.Order.{◌≺◌, compare_bytes_refl, gt_of_lt}
use mini_kv_storage_engine.Result.{ok}
use mini_kv_storage_engine.Config.{Options}
use mini_kv_storage_engine.Coding.{put_fixed32, decode_fixed32}
use mini_kv_storage_engine.Coding.Checksum.{crc32c-lt}
use mini_kv_storage_engine.Coding.Fixed.{le_bytes, put_fixed32_lem, decode_fixed32-le_bytes}
use mini_kv_storage_engine.MemTable.{MemTableRecord}
use mini_kv_storage_engine.Wal.{header_size}
use mini_kv_storage_engine.Wal.Layout.{layout}
use mini_kv_storage_engine.Wal.Encoded.{IsRecord, IsAccepted, header_of, encoding, type_byte-IsByte}
use mini_kv_storage_engine.Wal.RoundTrip.{length-encoding, decode-encoding}
use mini_kv_storage_engine.Table.{block_header_size, block_magic, checksum_parts}
use mini_kv_storage_engine.Table.Build.{block_prefix, wal_record}
use mini_kv_storage_engine.Table.Read.{decode_records, decode_block}

-- A record that the encoder takes.
abbrev pub IsStorable : Options → MemTableRecord → Type 0
IsStorable o r = IsRecord (wal_record r) × IsAccepted o (wal_record r)

-- The keys rise strictly, from above `key` on.
abbrev pub IsRising : Bytes → List MemTableRecord → Type 0
IsRising key [] = Unit
IsRising key (r ∷ rs) = (key ≺ r.key) × IsRising r.key rs

abbrev pub payload_of : List MemTableRecord → Bytes
payload_of [] = []
payload_of (r ∷ rs) = encoding (wal_record r) ++ payload_of rs

-- The fields of a block in front of the checksum.
abbrev prefix_of : List MemTableRecord → Bytes
prefix_of rs =
    77
    ∷ 75
    ∷ 68
    ∷ 66
    ∷ (le_bytes 4 (block_header_size + length (payload_of rs))
        ++ (le_bytes 4 (length rs) ++ le_bytes 4 (length (payload_of rs))))

abbrev pub block_of : List MemTableRecord → Bytes
block_of rs =
    77
    ∷ 75
    ∷ 68
    ∷ 66
    ∷ (le_bytes 4 (block_header_size + length (payload_of rs))
        ++ (le_bytes 4 (length rs)
            ++ (le_bytes 4 (length (payload_of rs))
                ++ (le_bytes 4 (checksum_parts (prefix_of rs) (payload_of rs)) ++ payload_of rs))))

pub record IsBlock (o : Options) (rs : List MemTableRecord) : Type 0 where
  pub storable : All (IsStorable o) rs
  pub some_records : 0 < length rs
  pub size_fits : block_header_size + length (payload_of rs) < 2 ^ 32

decode_records_lem :
    (o : Options) (rs : List MemTableRecord) (record_number : ℕ) (previous_key : Bytes)
    (records : List MemTableRecord)
    → All (IsStorable o) rs
    → IsRising previous_key rs
    → decode_records o (length rs) record_number previous_key (payload_of rs) records
      ≡ ok (records ++ rs)
unfolding decode_records
decode_records_lem o [] n previous_key records s h = rw (append-nil records) refl
decode_records_lem o (r ∷ rs) n previous_key records s h =
    let decoded = decode-encoding (wal_record r) o (payload_of rs) s.0.0 s.0.1 in
    let behind =
      drop-append (encoding (wal_record r)) (payload_of rs) (length (encoding (wal_record r)))
        refl in
    let rest = decode_records_lem o rs (n + 1) r.key (records ++ r ∷ []) s.1 h.1 in
    ground (
      arith,
      decoded,
      behind,
      rest,
      gt_of_lt previous_key r.key h.0,
      append_assoc records (r ∷ []) rs,
    )

-- Every record takes a header at least.
payload_of-le : (rs : List MemTableRecord) → header_size * length rs ≤ length (payload_of rs)
payload_of-le [] = omega arith
payload_of-le (r ∷ rs) = omega (
  arith,
  payload_of-le rs,
  length-append (encoding (wal_record r)) (payload_of rs),
  length-encoding (wal_record r),
)

pub length-block_of :
    (rs : List MemTableRecord) → length (block_of rs) ≡ block_header_size + length (payload_of rs)
length-block_of rs = omega arith

payload_of-IsByte :
    (o : Options) (rs : List MemTableRecord) → All (IsStorable o) rs → All IsByte (payload_of rs)
payload_of-IsByte o [] s = tt
payload_of-IsByte o (r ∷ rs) s =
    let kind = type_byte-IsByte r.type s.0.1.known in
    let body = All-append IsByte r.key r.value s.0.0.key_bytes s.0.0.value_bytes in
    let header = layout (header_of (wal_record r)) [] in
    All-append IsByte (encoding (wal_record r)) (payload_of rs)
      (All-append IsByte header (r.key ++ r.value) (omega (arith, kind)) body)
      (payload_of-IsByte o rs s.1)

block_prefix_lem :
    (rs : List MemTableRecord)
    → block_header_size + length (payload_of rs) < 2 ^ 32
    → block_prefix (block_header_size + length (payload_of rs)) (length rs) (length (payload_of rs))
      ≡ prefix_of rs
unfolding block_prefix
block_prefix_lem rs fits =
    let size : (block_header_size + length (payload_of rs)) % 2 ^ 32
        ≡ block_header_size + length (payload_of rs) =
      omega (arith, fits) in
    let payload : length (payload_of rs) % 2 ^ 32 ≡ length (payload_of rs) = omega (arith, fits) in
    simp (put_fixed32_lem, append_assoc, size, payload)

-- What FinishBlock appends to the data.
pub finished_data :
    (rs : List MemTableRecord) (before : Bytes)
    → block_header_size + length (payload_of rs) < 2 ^ 32
    → (let prefix =
          block_prefix
            (block_header_size + length (payload_of rs))
            (length rs)
            (length (payload_of rs)) in
        put_fixed32 (before ++ prefix) (checksum_parts prefix (payload_of rs)) ++ payload_of rs)
      ≡ before ++ block_of rs
finished_data rs before fits =
    rw
      (
        block_prefix_lem rs fits,
        put_fixed32_lem,
        append_assoc (before ++ prefix_of rs) _ (payload_of rs),
        append_assoc before (prefix_of rs) _,
      )
      refl

module _ (o : Options) (rs : List MemTableRecord) (b : IsBlock o rs) where
  checksum-lt : checksum_parts (prefix_of rs) (payload_of rs) < 2 ^ 32
  checksum-lt = crc32c-lt _ (
      All-append IsByte (prefix_of rs) (payload_of rs) (omega arith)
        (payload_of-IsByte o rs b.storable))

  count-lt : length rs < 2 ^ 32
  count-lt = omega (arith, payload_of-le rs, b.size_fits)

  size_field :
      decode_fixed32 (drop 4 (block_of rs)) ≡ some (block_header_size + length (payload_of rs))
  size_field = decode_fixed32-le_bytes _ _ b.size_fits

  count_field : decode_fixed32 (drop 8 (block_of rs)) ≡ some (length rs)
  count_field = decode_fixed32-le_bytes _ _ count-lt

  payload_field : decode_fixed32 (drop 12 (block_of rs)) ≡ some (length (payload_of rs))
  payload_field = decode_fixed32-le_bytes _ _ (omega (arith, b.size_fits))

  checksum_field :
      decode_fixed32 (drop 16 (block_of rs)) ≡ some (checksum_parts (prefix_of rs) (payload_of rs))
  checksum_field = decode_fixed32-le_bytes _ _ checksum-lt

  pub decode_block-block_of :
      IsRising [] rs
      → decode_block o (block_header_size + length (payload_of rs)) (block_of rs) ≡ ok rs
  unfolding decode_block
  decode_block-block_of rising = ground (
    arith,
    size_field,
    count_field,
    payload_field,
    checksum_field,
    compare_bytes_refl block_magic,
    payload_of-le rs,
    b.some_records,
    length-block_of rs,
    decode_records_lem o rs 0 [] [] b.storable rising,
  )

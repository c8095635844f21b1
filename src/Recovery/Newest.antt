-- ===== src/Recovery/Newest.antt =====
-- What a replayed table and its counters say of the log, without the operations of the table.
use mini_kv_storage_engine.Base.{
  ℕ, ◌+◌, ◌≤◌, ◌<◌, ◌≡◌, refl, ◌∙◌, ap, Option, none, some, List, [], ◌∷◌, arith, length,
  length-append, if◌then◌else◌,
}
use mini_kv_storage_engine.Bytes.{Bytes, bytes_eq}
use mini_kv_storage_engine.Config.{Options, max_u64}
use mini_kv_storage_engine.OrderedMap.{find}
use mini_kv_storage_engine.MemTable.{Entry}
use mini_kv_storage_engine.MemTable.Lookup.{lookup-add}
use mini_kv_storage_engine.Wal.{WalRecord}
use mini_kv_storage_engine.Wal.Encoded.{IsAccepted, encoding}
use mini_kv_storage_engine.Recovery.{Recovered, apply, count_record}
use mini_kv_storage_engine.Recovery.Replay.{
  IsReplayed, advance, advance-IsReplayed, apply_lem, apply_succeeds, encodings, replay, IsLog,
  start, start-IsReplayed,
}

abbrev pub entry_of : WalRecord → Entry
entry_of r = record { sequence = r.sequence; type = r.type; value = r.value }

-- The last record of the log with this key, else `before`.
unfoldable pub newest : Bytes → List WalRecord → Option Entry → Option Entry
newest key [] before = before
newest key (r ∷ rs) before =
    newest key rs (if bytes_eq key r.key then some (entry_of r) else before)

-- The sequence number of the last record.
abbrev pub last_number : ℕ → List WalRecord → ℕ
last_number before [] = before
last_number before (r ∷ rs) = last_number r.sequence rs

-- The sequence number of the first record, 0 for an empty log.
abbrev pub first_number : List WalRecord → ℕ
first_number [] = 0
first_number (r ∷ rs) = r.sequence

find-apply :
    (o : Options) (r : WalRecord) (offset : ℕ) (x : Recovered) (key : Bytes)
    → IsReplayed o offset x
    → IsAccepted o r
    → x.1.max_sequence < r.sequence
    → offset + length (encoding r) ≤ max_u64
    → find key (apply r x.0).1.entries
      ≡ (if bytes_eq key r.key then some (entry_of r) else find key x.0.entries)
find-apply o r offset x key v a above room =
    let done = rw (apply_lem o r x.0 a) at (apply_succeeds o r offset x v (a, above, room)) in
    rw (apply_lem o r x.0 a) (lookup-add r.sequence r.type r.key r.value key x.0 done)

-- The table and the counters after the records `rs`, from any state of the loop on.
Describes : Bytes → ℕ → List WalRecord → Recovered → Recovered → Type 0
Describes key offset rs x y =
    (find key y.0.entries ≡ newest key rs (find key x.0.entries))
    × (y.1.records_recovered ≡ x.1.records_recovered + length rs)
    × (y.1.valid_bytes ≡ offset + length (encodings rs))
    × (y.1.max_sequence ≡ last_number x.1.max_sequence rs)

described :
    (o : Options) (key : Bytes) (offset : ℕ) (rs : List WalRecord) (x : Recovered)
    → IsReplayed o offset x
    → IsLog o x.1.max_sequence rs
    → offset + length (encodings rs) ≤ max_u64
    → x.1.valid_bytes ≡ offset
    → Describes key offset rs x (replay offset rs x)
unfolding Describes replay encodings newest count_record
described o key offset [] x v l room here = (refl, omega arith, omega (arith, here), refl)
described o key offset (r ∷ rs) x v (w, a, above, l) room here =
    let size = length-append (encoding r) (encodings rs) in
    let fits : offset + length (encoding r) ≤ max_u64 = omega (arith, size) in
    let (found, counted, valid, last) =
      described o key (offset + length (encoding r)) rs (advance r offset x)
        (advance-IsReplayed o r offset x v (a, above, fits)) l (omega (arith, size)) refl in
    (
      found ∙ ap (newest key rs) (find-apply o r offset x key v a above fits),
      omega (arith, counted),
      omega (arith, valid, size),
      last,
    )

min_kept :
    (offset : ℕ) (rs : List WalRecord) (x : Recovered)
    → 0 < x.1.records_recovered
    → (replay offset rs x).1.min_sequence ≡ x.1.min_sequence
unfolding replay count_record
min_kept offset [] x some_records = refl
min_kept offset (r ∷ rs) x some_records =
    min_kept (offset + length (encoding r)) rs (advance r offset x) (omega arith) ∙ ground arith

first_kept :
    (o : Options) (rs : List WalRecord) → (replay 0 rs (start o)).1.min_sequence ≡ first_number rs
unfolding replay count_record
first_kept o [] = refl
first_kept o (r ∷ rs) = min_kept (0 + length (encoding r)) rs (advance r 0 (start o)) (omega arith)

-- The replay of a valid log that fits 64-bit offsets gives a table whose entry for any key is that
-- of the last record with the key, if there is one; and it counts the records and their bytes, and
-- gives the sequence numbers of the first and of the last record (0 and 0 for an empty log).
pub replay-newest :
    (o : Options) (key : Bytes) (rs : List WalRecord)
    → IsLog o 0 rs
    → length (encodings rs) ≤ max_u64
    → (find key (replay 0 rs (start o)).0.entries ≡ newest key rs none)
      × ((replay 0 rs (start o)).1.records_recovered ≡ length rs)
      × ((replay 0 rs (start o)).1.valid_bytes ≡ length (encodings rs))
      × ((replay 0 rs (start o)).1.max_sequence ≡ last_number 0 rs)
      × ((replay 0 rs (start o)).1.min_sequence ≡ first_number rs)
unfolding Describes find
replay-newest o key rs l room =
    let (found, counted, valid, last) =
      described o key 0 rs (start o) (start-IsReplayed o) l (omega arith) refl in
    (found, omega (arith, counted), omega (arith, valid), last, first_kept o rs)

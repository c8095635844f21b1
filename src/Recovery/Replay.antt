-- ===== src/Recovery/Replay.antt =====
-- Applying the records of a log, in order, to a table.
use mini_kv_storage_engine.Base.{
  ℕ, ◌+◌, ◌≤◌, ◌<◌, ◌≡◌, refl, ◌∙◌, true, false, List, [], ◌∷◌, ◌++◌, append-nil, arith, length,
  All,
}
use mini_kv_storage_engine.Bytes.{Bytes}
use mini_kv_storage_engine.Status.{is_ok}
use mini_kv_storage_engine.Result.{ok}
use mini_kv_storage_engine.Config.{Options, ValueType, max_u64}
use mini_kv_storage_engine.OrderedMap.{find, All-insert, All-map, OrderedMap}
use mini_kv_storage_engine.MemTable.{
  new_memtable, MemTable, Entry, add, put, delete, is_stale, encoded_payload_size,
}
use mini_kv_storage_engine.MemTable.Lookup.{add-accepted, add-options}
use mini_kv_storage_engine.MemTable.Invariant.{
  new_memtable-IsValid, IsValid, add-IsValid, add-written, size-add-le,
}
use mini_kv_storage_engine.Wal.{WalRecord, validate_lengths}
use mini_kv_storage_engine.Wal.Encoded.{IsRecord, IsAccepted, encoding, validate_lengths-ok}
use mini_kv_storage_engine.Wal.RoundTrip.{length-encoding, decode-encoding}
use mini_kv_storage_engine.Recovery.{no_recovery, Recovered, apply, count_record, replay_record}

-- The tombstone of a log has no value, so both branches of `apply` are one write.
deletion-empty :
    (k : ℕ) (value : Bytes) (o : Options)
    → is_ok (validate_lengths k (length value) ValueType.deletion o) ≡ true
    → value ≡ []
unfolding validate_lengths
deletion-empty k [] o h = refl
deletion-empty k (b ∷ bs) o h = ground arith

pub apply_lem :
    (o : Options) (r : WalRecord) (t : MemTable)
    → IsAccepted o r
    → apply r t ≡ add r.sequence r.type r.key r.value t
unfolding apply put delete
apply_lem o r t a = by_type r.type refl
  where
    by_type : (type : ValueType) → r.type ≡ type → apply r t ≡ add r.sequence r.type r.key r.value t
    by_type ValueType.value e = rw e
    by_type ValueType.deletion e =
        let no_value : r.value ≡ [] = deletion-empty (length r.key) r.value o (rw e at a.lengths) in
        rw (e, no_value)
    by_type (ValueType.unknown n) e = cc (rw e at a.known)

-- What holds of the table while the loop stands at `offset`.
pub record IsReplayed (o : Options) (offset : ℕ) (s : Recovered) : Type 0 where
  pub valid : IsValid s.0
  pub options : s.0.options ≡ o
  pub frontier : All (λ e. e.1.sequence ≤ s.1.max_sequence) s.0.entries
  pub small : s.0.approximate_data_size ≤ offset
  pub few : s.1.records_recovered ≤ offset

abbrev pub start : Options → Recovered
start o = (new_memtable o, no_recovery)

pub start-IsReplayed : (o : Options) → IsReplayed o 0 (start o)
start-IsReplayed o = record {
  valid = new_memtable-IsValid o;
  options = refl;
  frontier = tt;
  small = omega arith;
  few = omega arith;
}

fresh :
    (sequence last : ℕ) (key : Bytes) (m : OrderedMap Entry)
    → All (λ e. e.1.sequence ≤ last) m
    → last < sequence
    → is_stale sequence (find key m) ≡ false
unfolding find
fresh sequence last key [] h lt = refl
fresh sequence last key ((j, e) ∷ m) h lt = ground (arith, fresh sequence last key m h.1 lt, h)

payload-le : (key value : Bytes) → encoded_payload_size key value ≤ 9 + length key + length value
unfolding encoded_payload_size
payload-le key value = omega arith

-- One more record, and the counters that go with it.
abbrev pub advance : WalRecord → ℕ → Recovered → Recovered
advance r offset s = ((apply r s.0).1, count_record r (offset + length (encoding r)) s.1)

module _ (o : Options) (r : WalRecord) (offset : ℕ) (s : Recovered) where
  -- The record fits: it is accepted, its number is above the frontier, its bytes end in 64 bits.
  abbrev pub Next : Type 0
  Next = IsAccepted o r × (s.1.max_sequence < r.sequence) × (offset + length (encoding r) ≤ max_u64)

  pub apply_succeeds : IsReplayed o offset s → Next → is_ok (apply r s.0).0 ≡ true
  apply_succeeds v (a, above, room) =
      let sizes = validate_lengths-ok (length r.key) (length r.value) r.type o a.lengths in
      rw (apply_lem o r s.0 a) (
        (add-accepted r.sequence r.type r.key r.value s.0).1 (
          a.some_sequence,
          sizes.1,
          rw v.options sizes.2,
          rw v.options sizes.3,
          fresh r.sequence s.1.max_sequence r.key s.0.entries v.frontier above,
          omega (arith, payload-le r.key r.value, length-encoding r, v.small),
        ))

  pub advance-IsReplayed :
      IsReplayed o offset s
      → Next
      → IsReplayed o (offset + length (encoding r)) (advance r offset s)
  unfolding count_record
  advance-IsReplayed v (a, above, room) =
      let e : Entry = record { sequence = r.sequence; type = r.type; value = r.value } in
      let done = rw (apply_lem o r s.0 a) at (apply_succeeds v (a, above, room)) in
      rw (apply_lem o r s.0 a) (record {
        valid = add-IsValid r.sequence r.type r.key r.value s.0 v.valid;
        options = add-options r.sequence r.type r.key r.value s.0 ∙ v.options;
        frontier = rw (add-written r.sequence r.type r.key r.value s.0 done) (
            All-insert (λ e. e.1.sequence ≤ r.sequence) r.key e s.0.entries (omega arith)
              (All-map (λ e. e.1.sequence ≤ s.1.max_sequence) (λ e. e.1.sequence ≤ r.sequence)
                (λ e h. omega (arith, h, above)) s.0.entries v.frontier));
        small = omega (
          arith,
          size-add-le r.sequence r.type r.key r.value s.0 v.valid,
          payload-le r.key r.value,
          length-encoding r,
          v.small,
        );
        few = omega (arith, v.few, length-encoding r);
      })

  pub replay_record-advance :
      IsRecord r
      → IsReplayed o offset s
      → Next
      → replay_record o offset (length (encoding r)) (encoding r) s ≡ ok (advance r offset s)
  unfolding replay_record
  replay_record-advance w v (a, above, room) =
      let decoded = rw append-nil at (decode-encoding r o [] w a) in
      ground
        (arith, decoded, apply_succeeds v (a, above, room), above, room, length-encoding r, v.few)

-- The records of a log on disk, their encodings end to end.
unfoldable pub encodings : List WalRecord → Bytes
encodings [] = []
encodings (r ∷ rs) = encoding r ++ encodings rs

-- Recovery by the definition of the log: every record applied, in order.
unfoldable pub replay : ℕ → List WalRecord → Recovered → Recovered
replay offset [] s = s
replay offset (r ∷ rs) s = replay (offset + length (encoding r)) rs (advance r offset s)

-- The records are ones that the writer accepts, with strictly rising sequence numbers above `last`.
abbrev pub IsLog : Options → ℕ → List WalRecord → Type 0
IsLog o last [] = Unit
IsLog o last (r ∷ rs) = IsRecord r × IsAccepted o r × (last < r.sequence) × IsLog o r.sequence rs

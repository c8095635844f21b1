-- ===== src/MemTable/Invariant.antt =====
-- The well-formedness of a table: ordered keys, entries within the limits, an exact size count.
use mini_kv_storage_engine.Base.{
  ℕ, ◌+◌, ◌-◌, ◌≤◌, ◌<◌, ◌^◌, ◌≡◌, true, false, arith, length, All, Option, none, some, Bool-cases,
  inl, inr,
}
use mini_kv_storage_engine.Bytes.{Bytes}
use mini_kv_storage_engine.Config.{Options, ValueType, max_u64}
use mini_kv_storage_engine.OrderedMap.{
  IsOrdered, find, insert, insert-IsOrdered, All-insert, total, counted, total-insert,
  counted-le-total,
}
use mini_kv_storage_engine.MemTable.Lookup.{add_failed, add-accepted}
use mini_kv_storage_engine.Status.{is_ok}
use mini_kv_storage_engine.MemTable.{
  MemTable, Entry, new_memtable, add, is_stale, resized, encoded_payload_size,
}

-- An entry that a write with these options can have made.
abbrev pub IsEntry : Options → Bytes × Entry → Type 0
IsEntry o e =
    (0 < length e.0)
    × (length e.0 ≤ o.max_key_size)
    × (length e.1.value ≤ o.max_value_size)
    × (0 < e.1.sequence)

abbrev pub payload : Bytes → Entry → ℕ
payload key e = encoded_payload_size key e.value

pub record IsValid (t : MemTable) : Type 0 where
  pub ordered : IsOrdered t.entries
  pub accounted : t.approximate_data_size ≡ total payload t.entries
  pub fits : t.approximate_data_size < 2 ^ 64
  pub in_limits : All (IsEntry t.options) t.entries

pub new_memtable-IsValid : (o : Options) → IsValid (new_memtable o)
new_memtable-IsValid o = omega arith

-- The count after a write that passed the overflow test, with no wrap-around.
resized_lem :
    (size new_size : ℕ) (key : Bytes) (current : Option Entry)
    → size < 2 ^ 64
    → counted payload key current ≤ size
    → new_size ≤ max_u64 - size
    → (resized size key new_size current + counted payload key current ≡ size + new_size)
      × (resized size key new_size current < 2 ^ 64)
resized_lem size new_size key none h old room = omega arith
resized_lem size new_size key (some e) h old room = omega arith

-- The table that a successful write makes.
abbrev written : ℕ → ValueType → Bytes → Bytes → MemTable → MemTable
written sequence type key value t = record t {
  entries = insert key (record { sequence = sequence; type = type; value = value }) t.entries;
  approximate_data_size =
      resized t.approximate_data_size key (encoded_payload_size key value) (find key t.entries);
}

pub add-written :
    (sequence : ℕ) (type : ValueType) (key value : Bytes) (t : MemTable)
    → is_ok (add sequence type key value t).0 ≡ true
    → (add sequence type key value t).1 ≡ written sequence type key value t
unfolding add
add-written sequence type key value t h = ground arith

written-IsValid :
    (sequence : ℕ) (type : ValueType) (key value : Bytes) (t : MemTable)
    → IsValid t
    → (0 < sequence)
      × (0 < length key)
      × (length key ≤ t.options.max_key_size)
      × (length value ≤ t.options.max_value_size)
      × (is_stale sequence (find key t.entries) ≡ false)
      × (encoded_payload_size key value ≤ max_u64 - t.approximate_data_size)
    → IsValid (written sequence type key value t)
written-IsValid sequence type key value t v (pos, some_key, short_key, short_value, fresh, room) =
    let e : Entry = record { sequence = sequence; type = type; value = value } in
    let size =
      resized_lem t.approximate_data_size (encoded_payload_size key value) key (find key t.entries)
        v.fits (rw v.accounted (counted-le-total payload key t.entries)) room in
    record {
      ordered = insert-IsOrdered key e t.entries v.ordered;
      accounted = omega (arith, size, total-insert payload key e t.entries v.ordered, v.accounted);
      fits = size.1;
      in_limits =
          All-insert (IsEntry t.options) key e t.entries (some_key, short_key, short_value, pos)
            v.in_limits;
    }

-- Whatever its arguments, a write keeps the table well formed: the keys stay in strict order,
-- every entry stays within the configured limits with a positive sequence number, and the size
-- count stays the exact sum over the entries, below 2 ^ 64.
pub add-IsValid :
    (sequence : ℕ) (type : ValueType) (key value : Bytes) (t : MemTable)
    → IsValid t
    → IsValid (add sequence type key value t).1
add-IsValid sequence type key value t v =
    elim (Bool-cases (is_ok (add sequence type key value t).0)) [
      | inl done ↦ rw (add-written sequence type key value t done) (
          written-IsValid sequence type key value t v
            ((add-accepted sequence type key value t).0 done))
      | inr failed ↦ rw (add_failed sequence type key value t failed) v
    ]

-- A write makes the size count grow by the payload at most.
pub size-add-le :
    (sequence : ℕ) (type : ValueType) (key value : Bytes) (t : MemTable)
    → IsValid t
    → (add sequence type key value t).1.approximate_data_size
      ≤ t.approximate_data_size + encoded_payload_size key value
size-add-le sequence type key value t v =
    elim (Bool-cases (is_ok (add sequence type key value t).0)) [
      | inl done ↦ rw (add-written sequence type key value t done) (
          omega (
            arith,
            resized_lem t.approximate_data_size (encoded_payload_size key value) key
                (find key t.entries) v.fits
                (rw v.accounted (counted-le-total payload key t.entries))
                ((add-accepted sequence type key value t).0 done).5,
          ))
      | inr failed ↦ rw (add_failed sequence type key value t failed) (omega arith)
    ]

-- ===== src/MemTable/Lookup.antt =====
-- What a lookup returns after a write, on every branch of the write.
use mini_kv_storage_engine.Base.{
  ℕ, ◌+◌, ◌-◌, ◌≤◌, ◌<◌, ◌≡◌, ◌↔◌, true, false, refl, Option, none, some, [], ◌∷◌, arith, length,
  if◌then◌else◌,
}
use mini_kv_storage_engine.Bytes.{Bytes, bytes_eq}
use mini_kv_storage_engine.Bytes.Order.{eq_of_compare_bytes}
use mini_kv_storage_engine.Status.{is_ok, ok_status, not_found}
use mini_kv_storage_engine.Config.{Options, ValueType, max_u64}
use mini_kv_storage_engine.OrderedMap.{find, find-insert}
use mini_kv_storage_engine.MemTable.{
  Entry, MemTable, add, put, delete, lookup, get, validate, is_stale, encoded_payload_size,
}

pub add-options :
    (sequence : ℕ) (type : ValueType) (key value : Bytes) (t : MemTable)
    → (add sequence type key value t).1.options ≡ t.options
unfolding add
add-options sequence type key value t = ground arith

-- A write that fails leaves the table as it was.
pub add_failed :
    (sequence : ℕ) (type : ValueType) (key value : Bytes) (t : MemTable)
    → is_ok (add sequence type key value t).0 ≡ false
    → (add sequence type key value t).1 ≡ t
unfolding add
add_failed sequence type key value t h = ground arith

pub lookup-add :
    (sequence : ℕ) (type : ValueType) (key value q : Bytes) (t : MemTable)
    → is_ok (add sequence type key value t).0 ≡ true
    → find q (add sequence type key value t).1.entries ≡ (
        if bytes_eq q key
        then some (record { sequence = sequence; type = type; value = value })
        else find q t.entries)
unfolding add
lookup-add sequence type key value q t h = ground (
  arith,
  find-insert key q (record { sequence = sequence; type = type; value = value }) t.entries,
)

-- The conditions of a successful write, as the code tests them.
pub add-accepted :
    (sequence : ℕ) (type : ValueType) (key value : Bytes) (t : MemTable)
    → (is_ok (add sequence type key value t).0 ≡ true) ↔ (
        (0 < sequence)
        × (0 < length key)
        × (length key ≤ t.options.max_key_size)
        × (length value ≤ t.options.max_value_size)
        × (is_stale sequence (find key t.entries) ≡ false)
        × (encoded_payload_size key value ≤ max_u64 - t.approximate_data_size))
unfolding add validate
add-accepted sequence type [] value t = ground arith
add-accepted sequence type _ value t = ground arith

-- The entry of the key, if there is one, has a lower sequence number.
abbrev pub IsNewer : ℕ → Option Entry → Type 0
IsNewer sequence none = Unit
IsNewer sequence (some current) = current.sequence < sequence

is_stale-IsNewer :
    (sequence : ℕ) (current : Option Entry)
    → (is_stale sequence current ≡ false) ↔ IsNewer sequence current
is_stale-IsNewer sequence none = ((λ h. tt), (λ h. refl))
is_stale-IsNewer sequence (some current) = ground arith

encoded_payload_size_lem :
    (key value : Bytes)
    → 9 + length key + length value ≤ max_u64
    → encoded_payload_size key value ≡ 9 + length key + length value
unfolding encoded_payload_size
encoded_payload_size_lem key value fits = omega (arith, fits)

-- On a table whose size count fits 64 bits, for a key and a value whose lengths and 9 bytes more
-- fit 64 bits as well, a write succeeds exactly if its sequence number is positive and above that
-- of the key's entry, if there is one, the key is not empty, the key and the value are within the
-- configured limits, and the size count, with both lengths and 9 bytes for the sequence number and
-- the type, fits 64 bits.
pub add-ok_iff :
    (sequence : ℕ) (type : ValueType) (key value : Bytes) (t : MemTable)
    → t.approximate_data_size ≤ max_u64
    → 9 + length key + length value ≤ max_u64
    → (is_ok (add sequence type key value t).0 ≡ true) ↔ (
        (0 < sequence)
        × (0 < length key)
        × (length key ≤ t.options.max_key_size)
        × (length value ≤ t.options.max_value_size)
        × IsNewer sequence (find key t.entries)
        × (t.approximate_data_size + (9 + length key + length value) ≤ max_u64))
add-ok_iff sequence type key value t counted fits =
    let accepted = add-accepted sequence type key value t in
    let newer = is_stale-IsNewer sequence (find key t.entries) in
    let size = encoded_payload_size_lem key value fits in
    (
      λ done.
          let h = accepted.0 done in
          (h.0, h.1, h.2, h.3, newer.0 h.4, omega (arith, h.5, size, counted)),
      λ h. accepted.1 (h.0, h.1, h.2, h.3, newer.1 h.4, omega (arith, h.5, size, counted)),
    )

-- A key that a write accepted passes the validation of a lookup.
validate_key :
    (o : Options) (key : Bytes)
    → 0 < length key
    → length key ≤ o.max_key_size
    → validate o key [] ≡ ok_status
unfolding validate
validate_key o [] p q = absurd (omega arith)
validate_key o (b ∷ bs) p q = ground arith

-- After a successful Put, a Lookup of that key finds the value with its sequence number, and a
-- Lookup of any other key returns what it returned before.
pub lookup-put :
    (sequence : ℕ) (key value q : Bytes) (t : MemTable)
    → is_ok (put sequence key value t).0 ≡ true
    → lookup q (put sequence key value t).1 ≡ (
        if bytes_eq q key
        then record {
          status = ok_status;
          sequence = sequence;
          type = ValueType.value;
          value = value;
        }
        else lookup q t)
unfolding put lookup
lookup-put sequence key value q t h = ground (
  arith,
  lookup-add sequence ValueType.value key value q t,
  add-options sequence ValueType.value key value t,
  validate_key t.options key,
  (add-accepted sequence ValueType.value key value t).0,
  eq_of_compare_bytes q key,
)

-- After a successful Delete, a Lookup of that key finds a tombstone with the new sequence number,
-- a Get of it reports a missing key, and both answer for any other key as before.
pub get-delete :
    (sequence : ℕ) (key q : Bytes) (t : MemTable)
    → is_ok (delete sequence key t).0 ≡ true
    → (lookup q (delete sequence key t).1 ≡ (
        if bytes_eq q key
        then record {
          status = ok_status;
          sequence = sequence;
          type = ValueType.deletion;
          value = [];
        }
        else lookup q t))
      × (get q (delete sequence key t).1 ≡ (
          if bytes_eq q key
          then record {
            status = not_found "key was deleted";
            sequence = sequence;
            type = ValueType.deletion;
            value = [];
          }
          else get q t))
unfolding delete lookup get
get-delete sequence key q t h = ground (
  arith,
  lookup-add sequence ValueType.deletion key [] q t,
  add-options sequence ValueType.deletion key [] t,
  validate_key t.options key,
  (add-accepted sequence ValueType.deletion key [] t).0,
  eq_of_compare_bytes q key,
)

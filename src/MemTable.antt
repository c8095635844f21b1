-- ===== src/MemTable.antt =====
-- src/memtable.cpp and include/minikv/memtable.hpp: the in-memory table, a std::map from keys to
-- entries with a running count of its data size. `size_t` is 64 bits wide.
pub mod Lookup
pub mod Invariant
use mini_kv_storage_engine.Base.{
  ℕ, ◌+◌, ◌-◌, ◌%◌, ◌^◌, Bool, true, false, not, ◌&&◌, Option, none, some, List, [], ◌∷◌, map,
  length, ltb, leb, ◌==◌, if◌then◌else◌,
}
use mini_kv_storage_engine.Bytes.{Bytes, is_empty}
use mini_kv_storage_engine.Status.{Status, ok_status, not_found, invalid_argument, is_ok}
use mini_kv_storage_engine.Config.{Options, ValueType, max_u64}
use mini_kv_storage_engine.OrderedMap.{OrderedMap, find, insert}

pub record Entry : Type 0 where
  pub sequence : ℕ
  pub type : ValueType
  pub value : Bytes

pub record MemTable : Type 0 where
  pub options : Options
  pub entries : OrderedMap Entry
  pub approximate_data_size : ℕ

pub record LookupResult : Type 0 where
  pub status : Status
  pub sequence : ℕ
  pub type : ValueType
  pub value : Bytes

pub record MemTableRecord : Type 0 where
  pub key : Bytes
  pub sequence : ℕ
  pub type : ValueType
  pub value : Bytes

abbrev pub new_memtable : Options → MemTable
new_memtable options = record { options = options; entries = []; approximate_data_size = 0 }

-- `{status, 0, ValueType::kValue, {}}`
abbrev pub no_result : Status → LookupResult
no_result status = record { status = status; sequence = 0; type = ValueType.value; value = [] }

abbrev pub is_deletion : ValueType → Bool
is_deletion ValueType.deletion = true
is_deletion _ = false

-- `LookupResult::deleted`
abbrev pub deleted : LookupResult → Bool
deleted r = is_ok r.status && is_deletion r.type

abbrev pub metadata_size : ℕ
metadata_size = 9

unfoldable pub encoded_payload_size : Bytes → Bytes → ℕ
encoded_payload_size key value = (metadata_size + length key + length value) % 2 ^ 64

unfoldable pub validate : Options → Bytes → Bytes → Status
validate options key value =
    if is_empty key
    then invalid_argument "key must not be empty"
    else if ltb options.max_key_size (length key)
    then invalid_argument "key exceeds configured maximum size"
    else if ltb options.max_value_size (length value)
    then invalid_argument "value exceeds configured maximum size"
    else ok_status

-- The test against the entry that the key has: `current != end && sequence <= current->sequence`.
abbrev pub is_stale : ℕ → Option Entry → Bool
is_stale sequence none = false
is_stale sequence (some current) = leb sequence current.sequence

-- The size after the write: an addition for a new key, else old out and new in, on 64 bits.
abbrev pub resized : ℕ → Bytes → ℕ → Option Entry → ℕ
resized size key new_size none = (size + new_size) % 2 ^ 64
resized size key new_size (some current) =
    (size + 2 ^ 64 - encoded_payload_size key current.value + new_size) % 2 ^ 64

unfoldable pub add : ℕ → ValueType → Bytes → Bytes → MemTable → Status × MemTable
add sequence type key value t =
    if sequence == 0
    then (invalid_argument "sequence number must be greater than zero", t)
    else let validation = validate t.options key value in
      if not (is_ok validation)
      then (validation, t)
      else let current = find key t.entries in
        if is_stale sequence current
        then (invalid_argument "sequence number must be greater than the existing record", t)
        else let new_size = encoded_payload_size key value in
          if ltb (max_u64 - t.approximate_data_size) new_size
          then (invalid_argument "MemTable size accounting overflow", t)
          else let new_entry : Entry = record { sequence = sequence; type = type; value = value } in
            (
              ok_status,
              record t {
                entries = insert key new_entry t.entries;
                approximate_data_size = resized t.approximate_data_size key new_size current;
              },
            )

unfoldable pub put : ℕ → Bytes → Bytes → MemTable → Status × MemTable
put sequence key value t = add sequence ValueType.value key value t

unfoldable pub delete : ℕ → Bytes → MemTable → Status × MemTable
delete sequence key t = add sequence ValueType.deletion key [] t

abbrev found : Option Entry → LookupResult
found none = no_result (not_found "key does not exist")
found (some e) = record {
  status = ok_status;
  sequence = e.sequence;
  type = e.type;
  value = e.value;
}

unfoldable pub lookup : Bytes → MemTable → LookupResult
lookup key t =
    let validation = validate t.options key [] in
    if not (is_ok validation) then no_result validation else found (find key t.entries)

unfoldable pub get : Bytes → MemTable → LookupResult
get key t =
    let result = lookup key t in
    if deleted result
    then record result { status = not_found "key was deleted"; value = [] }
    else result

unfoldable pub size : MemTable → ℕ
size t = length t.entries

unfoldable pub empty : MemTable → Bool
empty t = elim t.entries [ [] ↦ true | _ ∷ _ ↦ false ]

abbrev pub to_record : Bytes × Entry → MemTableRecord
to_record (key, e) = record { key = key; sequence = e.sequence; type = e.type; value = e.value }

unfoldable pub records : MemTable → List MemTableRecord
records t = map to_record t.entries

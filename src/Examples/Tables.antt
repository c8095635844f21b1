-- ===== src/Examples/Tables.antt =====
-- Writes and lookups in a small table.
use mini_kv_storage_engine.Base.{◌≡◌, ◌↔◌, ◌<◌, ◌≤◌, ◌+◌, arith, refl, true, [], ◌∷◌}
use mini_kv_storage_engine.Bytes.{Bytes, compare_bytes}
use mini_kv_storage_engine.Status.{is_ok, ok_status, not_found}
use mini_kv_storage_engine.Config.{ValueType, default_options, max_u64}
use mini_kv_storage_engine.OrderedMap.{find, insert}
use mini_kv_storage_engine.MemTable.{
  MemTable, new_memtable, add, put, delete, lookup, get, validate, encoded_payload_size,
}
use mini_kv_storage_engine.MemTable.Lookup.{lookup-put, get-delete, add-ok_iff}
use mini_kv_storage_engine.MemTable.Invariant.{IsValid, add-IsValid, new_memtable-IsValid}

abbrev key_a : Bytes
key_a = 97 ∷ []

abbrev start : MemTable
start = new_memtable default_options

add-IsValid_example : IsValid (add 1 ValueType.value key_a (7 ∷ []) start).1
add-IsValid_example =
    add-IsValid 1 ValueType.value key_a (7 ∷ []) start (new_memtable-IsValid default_options)

put_succeeds : is_ok (put 1 key_a (7 ∷ []) start).0 ≡ true
unfolding put add validate find encoded_payload_size
put_succeeds = refl

delete_succeeds : is_ok (delete 2 key_a start).0 ≡ true
unfolding delete add validate find encoded_payload_size
delete_succeeds = refl

lookup-put_example :
    lookup key_a (put 1 key_a (7 ∷ []) start).1
    ≡ record { status = ok_status; sequence = 1; type = ValueType.value; value = 7 ∷ [] }
unfolding compare_bytes
lookup-put_example = lookup-put 1 key_a (7 ∷ []) key_a start put_succeeds

get-delete_example :
    (lookup key_a (delete 2 key_a start).1
      ≡ record { status = ok_status; sequence = 2; type = ValueType.deletion; value = [] })
    × (get key_a (delete 2 key_a start).1 ≡ record {
      status = not_found "key was deleted";
      sequence = 2;
      type = ValueType.deletion;
      value = [];
    })
unfolding compare_bytes
get-delete_example = get-delete 2 key_a key_a start delete_succeeds

abbrev written_once : MemTable
written_once = (add 1 ValueType.value key_a (7 ∷ []) start).1

add-ok_iff_example :
    (is_ok (add 5 ValueType.value key_a [] written_once).0 ≡ true)
    ↔ ((0 < 5) × (0 < 1) × (1 ≤ 65536) × (0 ≤ 4194304) × (1 < 5) × (11 + 10 ≤ max_u64))
unfolding add validate find insert encoded_payload_size compare_bytes
add-ok_iff_example = add-ok_iff 5 ValueType.value key_a [] written_once (omega arith) (omega arith)

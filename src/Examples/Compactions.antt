-- ===== src/Examples/Compactions.antt =====
-- A compaction of the table of the Blocks examples.
use mini_kv_storage_engine.Base.{ℕ, ◌≡◌, refl, some, inl, inr, [], ◌∷◌, ◌++◌, List}
use mini_kv_storage_engine.Bytes.{Bytes, compare_bytes}
use mini_kv_storage_engine.Result.{Result, ok}
use mini_kv_storage_engine.Table.Read.{SstableReader}
use mini_kv_storage_engine.Compaction.{CompactionInput, MergeCursor, SameKey, collect}
use mini_kv_storage_engine.Compaction.Newest.{IsQueue, IsNewest, round-IsNewest}
use mini_kv_storage_engine.Config.{ValueType}
use mini_kv_storage_engine.Examples.Files.{memory_file}
use mini_kv_storage_engine.Examples.Blocks.{reader}

abbrev counted_reader : SstableReader
counted_reader = record reader { metadata = record (reader.metadata) { record_count = 2 } }

abbrev inputs : List (CompactionInput Bytes)
inputs = record { level = 0; table = some (counted_reader, memory_file) } ∷ []

abbrev cursor : ℕ → ℕ → MergeCursor
cursor byte sequence = record {
  current = record { key = byte ∷ []; sequence = sequence; type = ValueType.value; value = [] };
  behind = [];
}

abbrev cursors : List MergeCursor
cursors = cursor 97 5 ∷ cursor 98 4 ∷ []

abbrev round : SameKey
round = record {
  winner = (cursor 97 5).current;
  same_key = cursor 97 3 ∷ cursor 97 5 ∷ [];
  heap = cursor 98 4 ∷ [];
}

cursors-IsQueue : IsQueue (cursor 97 3 ∷ cursors)
unfolding compare_bytes
cursors-IsQueue = ((inr refl, (inl refl, tt)), ((inl refl, tt), (tt, tt)))

collected : collect (97 ∷ []) (cursor 97 3).current (cursor 97 3 ∷ []) cursors ≡ ok round
unfolding collect compare_bytes
collected = refl

round-IsNewest_example :
    (round.same_key ++ round.heap ≡ cursor 97 3 ∷ cursors) × IsNewest (97 ∷ []) round
round-IsNewest_example = round-IsNewest (cursor 97 3) cursors round cursors-IsQueue collected

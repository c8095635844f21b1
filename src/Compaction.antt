-- ===== src/Compaction.antt =====
-- src/compaction.cpp: the merge of table files into new tables. Each input is a reader with its file,
-- and `retries` the fuel of each ReadAllAt.
pub mod Accounted
pub mod Newest
use Prim.Native.String.{◌++◌ as concat}
use mini_kv_storage_engine.Base.{
  ℕ, zero, suc, ◌+◌, ◌-◌, ◌%◌, ◌^◌, String, Bool, true, false, not, ◌&&◌, ◌||◌, Option, none, some,
  List, [], ◌∷◌, ◌++◌, length, ltb, ◌==◌, if◌then◌else◌,
}
use mini_kv_storage_engine.Bytes.{Bytes, bytes_lt, bytes_eq}
use mini_kv_storage_engine.Status.{Status, ok_status, invalid_argument, corruption, is_ok}
use mini_kv_storage_engine.Result.{Result, ok, err}
use mini_kv_storage_engine.Config.{Options, max_u64}
use mini_kv_storage_engine.Checked.{checked_add}
use mini_kv_storage_engine.MemTable.{
  MemTable, MemTableRecord, new_memtable, put, delete, empty, is_deletion,
}
use mini_kv_storage_engine.File.{RecoveryFile}
use mini_kv_storage_engine.Table.Read.{SstableReader, read_records}

-- `table` is none for a null pointer.
pub record CompactionInput (S : Type 0) : Type 0 where
  pub level : ℕ
  pub table : Option (SstableReader × RecoveryFile S)

pub record CompactionBuildStats : Type 0 where
  pub input_records : ℕ
  pub output_records : ℕ
  pub duplicate_records_dropped : ℕ
  pub tombstones_dropped : ℕ

abbrev pub no_build_stats : CompactionBuildStats
no_build_stats = record {
  input_records = 0;
  output_records = 0;
  duplicate_records_dropped = 0;
  tombstones_dropped = 0;
}

abbrev pub compaction_corruption : String → Status
compaction_corruption message = corruption (concat "compaction: " message)

-- A cursor into a source: the record that it stands at, and those behind it.
pub record MergeCursor : Type 0 where
  pub current : MemTableRecord
  pub behind : List MemTableRecord

-- CursorLater: by key, and for one key the greater sequence number first.
unfoldable pub cursor_later : MergeCursor → MergeCursor → Bool
cursor_later left right =
    if not (bytes_eq left.current.key right.current.key)
    then bytes_lt right.current.key left.current.key
    else ltb left.current.sequence right.current.sequence

-- std::priority_queue as the list of its elements in the order in which `pop` gives them.
unfoldable pub push : MergeCursor → List MergeCursor → List MergeCursor
push cursor [] = cursor ∷ []
push cursor (top ∷ heap) =
    let rest = push cursor heap in
    if cursor_later cursor top then top ∷ rest else cursor ∷ top ∷ heap

-- A source joins the heap if it has a record at the cursor.
abbrev pub push_source : List MemTableRecord → List MergeCursor → List MergeCursor
push_source [] heap = heap
push_source (r ∷ rs) heap = push (record { current = r; behind = rs }) heap

unfoldable pub push_sources : List (List MemTableRecord) → List MergeCursor → List MergeCursor
push_sources [] heap = heap
push_sources (source ∷ sources) heap = push_sources sources (push_source source heap)

-- `for (auto cursor : same_key) { ++cursor.record; ... }`
unfoldable pub advance_all : List MergeCursor → List MergeCursor → List MergeCursor
advance_all [] heap = heap
advance_all (cursor ∷ cursors) heap = advance_all cursors (push_source cursor.behind heap)

-- What the inner loop leaves: the winner, the cursors at the key, and the heap behind them.
pub record SameKey : Type 0 where
  pub winner : MemTableRecord
  pub same_key : List MergeCursor
  pub heap : List MergeCursor

-- The inner loop behind its first round, which took the top of the heap.
unfoldable pub collect :
    Bytes → MemTableRecord → List MergeCursor → List MergeCursor → Result SameKey
collect key winner same_key [] = ok (record { winner = winner; same_key = same_key; heap = [] })
collect key winner same_key (cursor ∷ heap) =
    if not (bytes_eq cursor.current.key key)
    then ok (record { winner = winner; same_key = same_key; heap = cursor ∷ heap })
    else if ltb winner.sequence cursor.current.sequence
    then collect key cursor.current (same_key ++ cursor ∷ []) heap
    else if cursor.current.sequence == winner.sequence
    then err (compaction_corruption "two input records reuse one global Sequence number")
    else collect key winner (same_key ++ cursor ∷ []) heap

unfoldable pub approximate_record_size : MemTableRecord → ℕ
approximate_record_size r = (8 + 1 + length r.key + length r.value) % 2 ^ 64

-- The output that takes the record: the last one, or a new one behind it. The outputs stand with
-- the last one first.
unfoldable pub open_output : MemTableRecord → Options → List MemTable → MemTable × List MemTable
open_output r options [] = (new_memtable options, [])
open_output r options (current ∷ earlier) =
    let record_size = approximate_record_size r in
    if not (empty current)
      && (ltb options.compaction_output_size_limit record_size
          || ltb (options.compaction_output_size_limit - record_size) current.approximate_data_size)
    then (new_memtable options, current ∷ earlier)
    else (current, earlier)

unfoldable pub add_output_record : MemTableRecord → Options → List MemTable → Status × List MemTable
add_output_record r options outputs =
    let (current, earlier) = open_output r options outputs in
    let (status, current') =
      if is_deletion r.type
      then delete r.sequence r.key current
      else put r.sequence r.key r.value current in
    (status, current' ∷ earlier)

-- The outputs, the last one first, with the counts.
abbrev pub Built : Type 0
Built = List MemTable × CompactionBuildStats

-- A round of the merge behind its inner loop, but for the heap.
unfoldable pub emit : Options → Bool → SameKey → Built → Result Built
emit options may_drop_tombstones k (outputs, stats) =
    let stats' : CompactionBuildStats = record stats {
      duplicate_records_dropped =
          (stats.duplicate_records_dropped + (length k.same_key - 1)) % 2 ^ 64;
    } in
    if is_deletion k.winner.type && may_drop_tombstones
    then ok
        (outputs, record stats' { tombstones_dropped = (stats.tombstones_dropped + 1) % 2 ^ 64 })
    else let (status, outputs') = add_output_record k.winner options outputs in
      if not (is_ok status)
      then err status
      else ok (outputs', record stats' { output_records = (stats.output_records + 1) % 2 ^ 64 })

-- Each round takes at least one record off the heap, and one of fuel.
unfoldable pub merge : ℕ → Options → Bool → List MergeCursor → Built → Option (Result Built)
merge zero options may_drop_tombstones heap built = none
merge (suc fuel) options may_drop_tombstones [] built = some (ok built)
merge (suc fuel) options may_drop_tombstones (top ∷ heap) built =
    elim (collect top.current.key top.current (top ∷ []) heap) [
      | err status ↦ some (err status)
      | ok k ↦ elim (emit options may_drop_tombstones k built) [
        | err status ↦ some (err status)
        | ok built' ↦ merge fuel options may_drop_tombstones (advance_all k.same_key k.heap) built'
      ]
    ]

abbrev pub met_before : ℕ → List ℕ → Bool
met_before n [] = false
met_before n (m ∷ ms) = (n == m) || met_before n ms

-- The sources that were read, and the sum of their lengths.
abbrev pub Sources : Type 0
Sources = List (List MemTableRecord) × ℕ

-- A source behind its ReadRecords: `input_records` is the count so far.
unfoldable pub accept_source :
    SstableReader → List MemTableRecord → List (List MemTableRecord) → ℕ → Result Sources
accept_source reader records sources input_records =
    if not (length records == reader.metadata.record_count)
    then err (compaction_corruption "input record count changed while reading")
    else elim (checked_add input_records (length records)) [
      | none ↦ err (invalid_argument "compaction record count overflows")
      | some total ↦ ok (sources ++ records ∷ [], total)
    ]

module _ {S : Type 0} (retries : ℕ) where
  -- The loop over the inputs, with the file numbers that it has met.
  unfoldable pub read_inputs :
      List (CompactionInput S)
      → List ℕ
      → List (List MemTableRecord)
      → ℕ
      → S
      → Option (Result Sources × S)
  read_inputs [] file_numbers sources input_records s = some (ok (sources, input_records), s)
  read_inputs (input ∷ inputs) file_numbers sources input_records s = elim input.table [
    | none ↦ some (err (invalid_argument "compaction input is invalid"), s)
    | some (reader, file) ↦
        elim (ltb 1 input.level
          || met_before reader.metadata.generation file_numbers
          || ltb max_u64 reader.metadata.record_count) [
            | true ↦ some (err (invalid_argument "compaction input is invalid"), s)
            | false ↦ elim (read_records file retries reader reader.metadata.record_count s) [
              | none ↦ none
              | some (err status, s') ↦ some (err status, s')
              | some (ok records, s') ↦ elim (accept_source reader records sources input_records) [
                | err status ↦ some (err status, s')
                | ok (sources', total) ↦
                    read_inputs inputs (reader.metadata.generation ∷ file_numbers) sources' total s'
              ]
            ]
          ]
  ]

  abbrev rest_of : Options → Bool → Option (Result Sources × S) → Option (Result Built × S)
  rest_of options may_drop_tombstones none = none
  rest_of options may_drop_tombstones (some (err status, s)) = some (err status, s)
  rest_of options may_drop_tombstones (some (ok (sources, total), s)) =
      elim (merge (total + 1) options may_drop_tombstones (push_sources sources [])
        ([], record no_build_stats { input_records = total })) [
          | none ↦ none
          | some result ↦ some (result, s)
        ]

  -- The outputs stand with the last one first.
  unfoldable pub build_compaction_outputs :
      List (CompactionInput S) → Options → Bool → S → Option (Result Built × S)
  build_compaction_outputs inputs options may_drop_tombstones s =
      if (length inputs == 0) || (options.compaction_output_size_limit == 0)
      then some
          (err (invalid_argument "compaction requires inputs and a non-zero output size limit"), s)
      else rest_of options may_drop_tombstones (read_inputs inputs [] [] 0 s)

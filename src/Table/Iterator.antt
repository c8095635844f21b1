-- ===== src/Table/Iterator.antt =====
-- SSTableIterator and NewIterator of src/table.cpp: a forward walk over the records of a key range,
-- one data block in memory at a time.
use mini_kv_storage_engine.Base.{
  ℕ, zero, suc, ◌+◌, ◌-◌, Bool, true, false, not, ◌||◌, Option, none, some, List, [], length,
  get_elem?, ltb, leb, ◌==◌, if◌then◌else◌,
}
use mini_kv_storage_engine.Bytes.{Bytes, bytes_lt, bytes_le, bytes_eq, is_empty}
use mini_kv_storage_engine.Status.{Status, ok_status, invalid_argument, is_ok}
use mini_kv_storage_engine.Result.{Result, ok, err}
use mini_kv_storage_engine.MemTable.{MemTableRecord}
use mini_kv_storage_engine.File.{RecoveryFile}
use mini_kv_storage_engine.Table.Read.{
  SstableReader, SstableReadStats, new_stats, upper_bound, lower_bound, read_block,
}

-- The members of an iterator but for its reader.
pub record SstableIterator : Type 0 where
  pub begin : Bytes
  pub end : Option Bytes
  pub records : List MemTableRecord
  pub block : ℕ
  pub position : ℕ
  pub valid : Bool
  pub statistics : SstableReadStats

abbrev pub new_iterator_at : Bytes → Option Bytes → SstableIterator
new_iterator_at begin end = record {
  begin = begin;
  end = end;
  records = [];
  block = 0;
  position = 0;
  valid = false;
  statistics = new_stats;
}

-- `record()`, `none` for a null pointer
unfoldable pub current : SstableIterator → Option MemTableRecord
current i = if not i.valid then none else get_elem? i.records i.position

-- `end_.has_value() && key >= *end_`
abbrev pub at_end : Bytes → Option Bytes → Bool
at_end key none = false
at_end key (some end) = bytes_le end key

abbrev pub bounded : Option MemTableRecord → SstableIterator → SstableIterator
bounded none i = i
bounded (some r) i =
    if at_end r.key i.end then record i { valid = false; records = []; position = 0 } else i

unfoldable pub enforce_upper_bound : SstableIterator → SstableIterator
enforce_upper_bound i = bounded (current i) i

-- `end_.has_value() && begin == *end_`, and `begin > *end`
abbrev pub is_end : Bytes → Option Bytes → Bool
is_end key none = false
is_end key (some end) = bytes_eq key end

abbrev pub is_past : Bytes → Option Bytes → Bool
is_past key none = false
is_past key (some end) = bytes_lt end key

abbrev pub end_size : Option Bytes → ℕ
end_size none = 0
end_size (some end) = length end

-- The block that the search for `begin` starts from.
unfoldable pub first_block : SstableReader → Bytes → ℕ
first_block reader begin = if is_empty begin then 0 else upper_bound begin reader.index - 1

module _ {S : Type 0} (file : RecoveryFile S) (retries : ℕ) (reader : SstableReader) where
  abbrev loaded :
      ℕ
      → SstableIterator
      → Option (Result (List MemTableRecord) × (SstableReadStats × S))
      → Option (Status × (SstableIterator × S))
  loaded block i none = none
  loaded block i (some (err status, (statistics, s))) = some (
    status,
    (
      record i {
        records = [];
        position = 0;
        block = block;
        valid = false;
        statistics = statistics;
      },
      s,
    ),
  )
  loaded block i (some (ok records, (statistics, s))) = some (
    ok_status,
    (
      record i {
        records = records;
        position = 0;
        block = block;
        valid = not (length records == 0);
        statistics = statistics;
      },
      s,
    ),
  )

  unfoldable pub load_block : ℕ → SstableIterator → S → Option (Status × (SstableIterator × S))
  load_block block i s =
      if leb (length reader.index) block
      then some (ok_status, (record i { records = []; position = 0; valid = false }, s))
      else loaded block i (read_block file retries reader block i.statistics s)

  -- `while (record_ >= records_.size())`: each round takes fuel, and goes on to a block behind.
  unfoldable pub skip_blocks : ℕ → SstableIterator → S → Option (Status × (SstableIterator × S))
  skip_blocks zero i s = none
  skip_blocks (suc fuel) i s = elim (leb (length i.records) i.position) [
    | false ↦ some (ok_status, (i, s))
    | true ↦ elim (load_block (i.block + 1) i s) [
      | none ↦ none
      | some (status, (i', s')) ↦ elim (not (is_ok status) || not i'.valid) [
        | true ↦ some (status, (i', s'))
        | false ↦ skip_blocks fuel i' s'
      ]
    ]
  ]

  -- The end of Initialize and of Next: where the loop ended early, it has returned.
  abbrev pub settled :
      Option (Status × (SstableIterator × S)) → Option (Status × (SstableIterator × S))
  settled none = none
  settled (some (status, (i, s))) =
      if not (is_ok status) || not i.valid
      then some (status, (i, s))
      else some (ok_status, (enforce_upper_bound i, s))

  -- Every block is left behind once, so a round for each block and one more are enough.
  abbrev pub rounds : ℕ
  rounds = length reader.index + 2

  unfoldable pub next : SstableIterator → S → Option (Status × (SstableIterator × S))
  next i s =
      if not i.valid
      then some (ok_status, (i, s))
      else settled (skip_blocks rounds (record i { position = i.position + 1 }) s)

  -- The range test of Initialize: no key of the table lies in it.
  abbrev pub is_outside : SstableIterator → Bool
  is_outside i =
      bytes_lt reader.metadata.maximum_key i.begin
      || at_end reader.metadata.minimum_key i.end
      || is_end i.begin i.end

  -- Initialize behind its first LoadBlock: `std::lower_bound` on the keys, and the loop.
  abbrev pub positioned :
      Option (Status × (SstableIterator × S)) → Option (Status × (SstableIterator × S))
  positioned none = none
  positioned (some (status, (i, s))) =
      if not (is_ok status)
      then some (status, (i, s))
      else settled (skip_blocks rounds (record i { position = lower_bound i.begin i.records }) s)

  unfoldable pub initialize : SstableIterator → S → Option (Status × (SstableIterator × S))
  initialize i s =
      if length reader.index == 0
      then some (invalid_argument "SSTable iterator has no reader", (i, s))
      else if is_outside i
      then some (ok_status, (record i { valid = false }, s))
      else positioned (load_block (first_block reader i.begin) i s)

  abbrev pub created : Option (Status × (SstableIterator × S)) → Option (Result SstableIterator × S)
  created none = none
  created (some (status, (i, s))) = if is_ok status then some (ok i, s) else some (err status, s)

  unfoldable pub new_iterator : Bytes → Option Bytes → S → Option (Result SstableIterator × S)
  new_iterator begin end s =
      if ltb reader.options.max_key_size (length begin)
        || ltb reader.options.max_key_size (end_size end)
      then some (err (invalid_argument "SSTable iterator bound is too large"), s)
      else if is_past begin end
      then some (err (invalid_argument "SSTable iterator range is reversed"), s)
      else created (initialize (new_iterator_at begin end) s)

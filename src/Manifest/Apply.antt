-- ===== src/Manifest/Apply.antt =====
-- Version::Apply of src/manifest.cpp: the next version, from an edit.
pub mod Frontier
use mini_kv_storage_engine.Base.{
  ℕ, ◌+◌, Bool, true, false, not, ◌&&◌, ◌||◌, Option, none, some, List, [], ◌∷◌, ◌++◌, ltb, ◌==◌,
  if◌then◌else◌,
}
use mini_kv_storage_engine.Status.{Status, invalid_argument, is_ok}
use mini_kv_storage_engine.Result.{Result, ok, err, ◌>>=◌, ◌>>◌, fail_if, check}
use mini_kv_storage_engine.Config.{Options, max_u64}
use mini_kv_storage_engine.Manifest.{
  Version, VersionEdit, VersionTable, contains, sort_by, validate_version,
}

-- `file_number == 0 || !deletions.insert(file_number).second`, for any of the deletions.
unfoldable pub deletions_valid : List ℕ → List ℕ → Bool
deletions_valid deletions [] = true
deletions_valid deletions (n ∷ ns) =
    not (n == 0) && not (contains n deletions) && deletions_valid (n ∷ deletions) ns

unfoldable pub is_live : ℕ → List VersionTable → Bool
is_live file_number [] = false
is_live file_number (t ∷ ts) = (t.metadata.generation == file_number) || is_live file_number ts

unfoldable pub all_live : List ℕ → List VersionTable → Bool
all_live [] tables = true
all_live (n ∷ ns) tables = is_live n tables && all_live ns tables

-- `erase(remove_if(...))`
unfoldable pub remove_deleted : List ℕ → List VersionTable → List VersionTable
remove_deleted deletions [] = []
remove_deleted deletions (t ∷ ts) =
    let rest = remove_deleted deletions ts in
    if contains t.metadata.generation deletions then rest else t ∷ rest

-- The loop over the added tables, with the tables of the candidate so far.
unfoldable pub add_tables :
    ℕ → List ℕ → List VersionTable → List VersionTable → Result (List VersionTable)
add_tables next_file_number deletions [] tables = ok tables
add_tables next_file_number deletions (added ∷ rest) tables = do
  fail_if (ltb added.metadata.generation next_file_number)
      (invalid_argument "VersionEdit reuses an allocated file number")
  fail_if (is_live added.metadata.generation tables || contains added.metadata.generation deletions)
      (invalid_argument "VersionEdit adds a duplicate file")
  add_tables next_file_number deletions rest (tables ++ (added ∷ []))

abbrev pub value_or : Option ℕ → ℕ → ℕ
value_or none d = d
value_or (some v) d = v

abbrev pub number_less : VersionTable → VersionTable → Bool
number_less left right = ltb left.metadata.generation right.metadata.generation

-- `Status::InvalidArgument(status.message())`
abbrev pub as_invalid : Status → Result (Unit {0})
as_invalid s = if is_ok s then ok tt else err (invalid_argument s.message)

unfoldable pub apply_edit : Version → VersionEdit → Options → Result Version
apply_edit version edit options = do
  check (validate_version version options)
  fail_if (version.id == max_u64) (invalid_argument "Version id space is exhausted")
  let deletions = edit.deleted_file_numbers
  fail_if (not (deletions_valid [] deletions)) (invalid_argument "VersionEdit deletion is invalid")
  fail_if (not (all_live deletions version.tables))
      (invalid_argument "VersionEdit deletes a non-live file")
  tables ←
      add_tables version.next_file_number deletions edit.added_tables
        (remove_deleted deletions version.tables)
  let next_file_number = value_or edit.next_file_number version.next_file_number
  let last_sequence = value_or edit.last_sequence version.last_sequence
  fail_if (ltb next_file_number version.next_file_number || ltb last_sequence version.last_sequence)
      (invalid_argument "VersionEdit regresses a monotonic frontier")
  let candidate : Version = record {
    id = version.id + 1;
    next_file_number = next_file_number;
    last_sequence = last_sequence;
    tables = sort_by number_less tables;
  }
  as_invalid (validate_version candidate options)
  ok candidate

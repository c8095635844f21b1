-- ===== src/Manifest.antt =====
-- src/manifest.cpp and include/minikv/manifest.hpp: versions of the set of live tables.
-- Apply makes the next version, Format stores one, Publish replaces the stored one.
pub mod Apply
pub mod Format
pub mod Publish
pub mod Ranges
use Prim.Native.String.{◌++◌ as concat}
use mini_kv_storage_engine.Base.{
  ℕ, ◌+◌, ◌-◌, String, Bool, true, false, not, ◌&&◌, ◌||◌, Option, none, some, List, [], ◌∷◌, ◌++◌,
  max, length, ltb, leb, ◌==◌, if◌then◌else◌,
}
use mini_kv_storage_engine.Bytes.{bytes_lt, bytes_le}
use mini_kv_storage_engine.Status.{Status, ok_status, corruption}
use mini_kv_storage_engine.Config.{Options, max_u64}
use mini_kv_storage_engine.Table.{SstableMetadata}

pub record VersionTable : Type 0 where
  pub level : ℕ
  pub metadata : SstableMetadata

pub record VersionEdit : Type 0 where
  pub added_tables : List VersionTable
  pub deleted_file_numbers : List ℕ
  pub next_file_number : Option ℕ
  pub last_sequence : Option ℕ

pub record Version : Type 0 where
  pub id : ℕ
  pub next_file_number : ℕ
  pub last_sequence : ℕ
  pub tables : List VersionTable

abbrev pub new_database : Version
new_database = record { id = 1; next_file_number = 1; last_sequence = 0; tables = [] }

abbrev pub manifest_corruption : String → Status
manifest_corruption message = corruption (concat "manifest: " message)

-- Membership in a std::set of file numbers.
unfoldable pub contains : ℕ → List ℕ → Bool
contains n [] = false
contains n (m ∷ ms) = (n == m) || contains n ms

-- What ValidateVersion rejects in one table, but for a repeated file number.
abbrev pub is_malformed : Options → ℕ → VersionTable → Bool
is_malformed options next_file_number t =
    ltb 1 t.level
    || (t.metadata.generation == 0)
    || leb next_file_number t.metadata.generation
    || (t.metadata.file_size == 0)
    || (t.metadata.record_count == 0)
    || (t.metadata.minimum_sequence == 0)
    || ltb t.metadata.maximum_sequence t.metadata.minimum_sequence
    || ltb options.max_key_size (length t.metadata.minimum_key)
    || ltb options.max_key_size (length t.metadata.maximum_key)
    || bytes_lt t.metadata.maximum_key t.metadata.minimum_key

-- The loop over the tables, with the file numbers seen so far: false where it returns early.
unfoldable pub tables_valid : Options → ℕ → List ℕ → List VersionTable → Bool
tables_valid options next_file_number file_numbers [] = true
tables_valid options next_file_number file_numbers (t ∷ ts) =
    not (is_malformed options next_file_number t)
    && not (contains t.metadata.generation file_numbers)
    && tables_valid options next_file_number (t.metadata.generation ∷ file_numbers) ts

-- What the same loop collects: the tables of level one, and the highest sequence number.
unfoldable pub level_one_tables : List VersionTable → List VersionTable
level_one_tables [] = []
level_one_tables (t ∷ ts) =
    let rest = level_one_tables ts in if t.level == 1 then t ∷ rest else rest

unfoldable pub maximum_sequence : List VersionTable → ℕ
maximum_sequence [] = 0
maximum_sequence (t ∷ ts) = max t.metadata.maximum_sequence (maximum_sequence ts)

-- std::sort, by insertion; no result depends on the order of tables that compare alike.
unfoldable pub insert_by :
    (VersionTable → VersionTable → Bool) → VersionTable → List VersionTable → List VersionTable
insert_by less t [] = t ∷ []
insert_by less t (u ∷ us) =
    let rest = insert_by less t us in if less u t then u ∷ rest else t ∷ u ∷ us

unfoldable pub sort_by :
    (VersionTable → VersionTable → Bool) → List VersionTable → List VersionTable
sort_by less [] = []
sort_by less (t ∷ ts) = insert_by less t (sort_by less ts)

abbrev pub key_less : VersionTable → VersionTable → Bool
key_less left right = bytes_lt left.metadata.minimum_key right.metadata.minimum_key

-- The loop over neighbours, from the one behind `left` on.
unfoldable pub overlaps : VersionTable → List VersionTable → Bool
overlaps left [] = false
overlaps left (right ∷ rest) =
    bytes_le right.metadata.minimum_key left.metadata.maximum_key || overlaps right rest

unfoldable pub any_overlap : List VersionTable → Bool
any_overlap [] = false
any_overlap (t ∷ ts) = overlaps t ts

unfoldable pub validate_version : Version → Options → Status
validate_version version options =
    if (version.id == 0) || (version.next_file_number == 0) || (options.max_key_size == 0)
    then manifest_corruption "global Version fields are invalid"
    else if not (tables_valid options version.next_file_number [] version.tables)
    then manifest_corruption "table metadata is invalid"
    else if any_overlap (sort_by key_less (level_one_tables version.tables))
    then manifest_corruption "level-one table ranges overlap"
    else if ltb version.last_sequence (maximum_sequence version.tables)
    then manifest_corruption "sequence frontier precedes a live table"
    else ok_status

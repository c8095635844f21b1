-- ===== src/Examples/Manifests.antt =====
-- Versions and their publication over a table of files in memory.
use text.Mathlib.Text.{◌==◌ as str_eq}
use text.Mathlib.TextPositions.{eq_refl}
use text.Mathlib.TextEquality.{eq_iff}
use Prim.Native.String.{◌++◌ as concat}
use mini_kv_storage_engine.Coding.{put_fixed16, put_fixed32, put_fixed64}
use mini_kv_storage_engine.Base.{
  ◌⊎◌, sym, ◌∙◌, take_all, ℕ, ◌+◌, ◌≤◌, ◌<◌, ◌≡◌, ◌≢◌, refl, true, not, ◌&&◌, ◌||◌, some, [], ◌∷◌,
  ◌++◌, arith, String, ap, Bool-cases, inl, inr, length, if◌then◌else◌,
}
use mini_kv_storage_engine.Bytes.{Bytes, compare_bytes}
use mini_kv_storage_engine.Status.{ok_status, is_ok}
use mini_kv_storage_engine.Result.{ok, err}
use mini_kv_storage_engine.Config.{default_options}
use mini_kv_storage_engine.File.{WritableFile, WriteResultKind}
use mini_kv_storage_engine.File.Writing.{written}
use mini_kv_storage_engine.Table.{no_metadata}
use mini_kv_storage_engine.Manifest.{
  Version, VersionEdit, VersionTable, new_database, validate_version, contains, tables_valid,
  level_one_tables, maximum_sequence, insert_by, sort_by, overlaps, any_overlap,
}
use mathlib.Core.List.Memᴰ.{head, tail}
use mini_kv_storage_engine.Manifest.Ranges.{Before, ranges-disjoint}
use mini_kv_storage_engine.Manifest.Apply.{
  apply_edit, deletions_valid, is_live, all_live, remove_deleted, add_tables,
}
use mini_kv_storage_engine.Manifest.Apply.Frontier.{IsFresh, apply_edit-Frontier}
use mini_kv_storage_engine.Manifest.Format.{encode_manifest, encode_tables, manifest_header}
use mini_kv_storage_engine.Manifest.Publish.{FlushEnvironment}
use mini_kv_storage_engine.Manifest.Publish.FileSystem.{IsFileSystem}
use mini_kv_storage_engine.Manifest.Publish.Atomic.{IsAtomic, publish_manifest-IsAtomic}

abbrev first_table : VersionTable
first_table = record {
  level = 0;
  metadata = record no_metadata {
    generation = 1;
    record_count = 2;
    minimum_sequence = 1;
    maximum_sequence = 2;
    file_size = 500;
    minimum_key = 97 ∷ [];
    maximum_key = 98 ∷ [];
  };
}

abbrev first_edit : VersionEdit
first_edit = record {
  added_tables = first_table ∷ [];
  deleted_file_numbers = [];
  next_file_number = some 2;
  last_sequence = some 2;
}

abbrev first_version : Version
first_version = record {
  id = 2;
  next_file_number = 2;
  last_sequence = 2;
  tables = first_table ∷ [];
}

apply_edit-Frontier_example :
    (is_ok (validate_version first_version default_options) ≡ true)
    × (first_version.id ≡ new_database.id + 1)
    × (new_database.next_file_number ≤ first_version.next_file_number)
    × (new_database.last_sequence ≤ first_version.last_sequence)
    × IsFresh new_database (first_table ∷ [])
    × ((n : ℕ)
        → is_live n (first_table ∷ [])
          ≡ ((is_live n [] && not (contains n [])) || is_live n (first_table ∷ [])))
unfolding apply_edit validate_version tables_valid contains any_overlap overlaps sort_by insert_by
    level_one_tables maximum_sequence deletions_valid all_live remove_deleted add_tables is_live
    compare_bytes
apply_edit-Frontier_example =
    apply_edit-Frontier new_database first_version first_edit default_options refl

-- Files by name; a write takes the whole input.
abbrev Files : Type 0
Files = String → Bytes

abbrev store : String → Bytes → Files → Files
store path bytes files q = if str_eq q path then bytes else files q

abbrev named_file : String → WritableFile Files
named_file path = record {
  write_some = λ input files. (
    record { kind = WriteResultKind.written; bytes_written = length input; status = ok_status },
    store path (files path ++ input) files,
  );
  sync = λ files. (ok_status, files);
  name = path;
}

abbrev environment : FlushEnvironment Files
environment = record {
  create_truncated = λ path files. (ok_status, store path [] files);
  file = named_file;
  rename = λ source q files. (ok_status, store q (files source) files);
  remove_file = λ path files. (ok_status, store path [] files);
  sync_directory = λ directory files. (ok_status, files);
}

store_there : (path : String) (bytes : Bytes) (files : Files) → store path bytes files path ≡ bytes
store_there path bytes files = rw (eq_refl path) refl

store_elsewhere :
    (path q : String) (bytes : Bytes) (files : Files)
    → q ≢ path
    → store path bytes files q ≡ files q
store_elsewhere path q bytes files apart = elim (Bool-cases (str_eq q path)) [
  | inl same ↦ absurd (apart ((eq_iff q path).0 same))
  | inr other ↦ rw other refl
]

abbrev file_system : IsFileSystem environment
file_system = record {
  contents = λ files. files;
  bound = 0;
  appending = λ path. record {
    content = λ files. files path;
    patience = λ _. 0;
    writes = λ input files some_bytes.
        written refl some_bytes (omega arith)
          (store_there path (files path ++ input) files
            ∙ ap (λ (x : Bytes). files path ++ x)
                (sym (take_all input (length input) (omega arith))))
          (omega arith);
  };
  same_content = λ path files. refl;
  calm = λ path files. omega arith;
  writes_alone =
      λ path q input files apart. store_elsewhere path q (files path ++ input) files apart;
  creates_alone = λ path q files apart. store_elsewhere path q [] files apart;
  creates = λ path files _. store_there path [] files;
  syncs = λ path q files. refl;
  removes_alone = λ path q files apart. store_elsewhere path q [] files apart;
  renames = λ source q files _. store_there q (files source) files;
  renames_not = λ source q files bad. cc;
  syncs_directory = λ directory q files. refl;
}

abbrev in_directory : String → String → String
in_directory directory name = concat (concat directory "/") name

abbrev no_files : Files
no_files path = []

encoded_length :
    (bytes : Bytes)
    → encode_manifest new_database default_options ≡ ok bytes
    → length bytes + 0 < 100
unfolding encode_manifest validate_version tables_valid any_overlap sort_by level_one_tables
    maximum_sequence encode_tables manifest_header put_fixed16 put_fixed32 put_fixed64
encoded_length bytes e =
    let size : 64 ≡ length bytes = ap (λ r. elim r [ ok b ↦ length b | err _ ↦ 0 ]) e in omega arith

publish_manifest-IsAtomic_example :
    IsAtomic environment file_system in_directory 100 "db" new_database default_options no_files
publish_manifest-IsAtomic_example =
    publish_manifest-IsAtomic environment file_system in_directory 100 "db" new_database
      default_options no_files (λ e. cc (ap (λ x. str_eq x "db/MANIFEST") e)) encoded_length

abbrev table_of : ℕ → Bytes → Bytes → VersionTable
table_of generation minimum_key maximum_key = record {
  level = 1;
  metadata = record no_metadata {
    generation = generation;
    record_count = 2;
    minimum_sequence = 1;
    maximum_sequence = 2;
    file_size = 500;
    minimum_key = minimum_key;
    maximum_key = maximum_key;
  };
}

abbrev left_table : VersionTable
left_table = table_of 1 (97 ∷ []) (98 ∷ [])

abbrev right_table : VersionTable
right_table = table_of 2 (99 ∷ []) (100 ∷ [])

abbrev two_tables : Version
two_tables = record {
  id = 3;
  next_file_number = 3;
  last_sequence = 2;
  tables = right_table ∷ left_table ∷ [];
}

two_tables_valid : is_ok (validate_version two_tables default_options) ≡ true
unfolding validate_version tables_valid contains any_overlap overlaps sort_by insert_by
    level_one_tables maximum_sequence compare_bytes
two_tables_valid = refl

ranges-disjoint_example :
    (left_table ≡ right_table) ⊎ (Before left_table right_table ⊎ Before right_table left_table)
ranges-disjoint_example =
    ranges-disjoint two_tables default_options left_table right_table two_tables_valid
      (tail (head refl)) (head refl) refl refl

-- ===== src/Manifest/Publish.antt =====
-- LoadManifest and PublishManifest of src/manifest.cpp, over the environment of
-- include/minikv/flush.hpp, which is a parameter, as is the join of a directory and a name.
pub mod FileSystem
pub mod Rejected
pub mod Atomic
use Prim.Native.String.{◌++◌ as concat}
use text.Mathlib.Text.{◌==◌ as str_eq}
use mini_kv_storage_engine.Base.{
  ℕ, String, Bool, not, Option, none, some, [], ltb, ◌||◌, if◌then◌else◌,
}
use mini_kv_storage_engine.Status.{Status, invalid_argument, is_ok, is_incomplete}
use mini_kv_storage_engine.Result.{Result, ok, err}
use mini_kv_storage_engine.Config.{Options, max_u64}
use mini_kv_storage_engine.Io.{Io}
use mini_kv_storage_engine.File.{WritableFile, RecoveryFile, write_all, read_all_at}
use mini_kv_storage_engine.Manifest.{Version, manifest_corruption}
use mini_kv_storage_engine.Manifest.Format.{maximum_manifest_size, encode_manifest, decode_manifest}

-- The environment's calls; `file path` is the file that `create_truncated path` hands out.
pub record FlushEnvironment (S : Type 0) : Type 0 where
  pub create_truncated : String → S → Status × S
  pub file : String → WritableFile S
  pub rename : String → String → S → Status × S
  pub remove_file : String → S → Status × S
  pub sync_directory : String → S → Status × S

abbrev pub manifest_file_name : String
manifest_file_name = "MANIFEST"

-- `final_path + ".tmp"`
abbrev pub temporary : String → String
temporary final_path = concat final_path ".tmp"

-- The end of LoadManifest, on a file that was opened; `retries` is the fuel of ReadAllAt.
unfoldable pub load_opened : {S : Type 0} → RecoveryFile S → ℕ → Options → Io S Version
load_opened file retries options s =
    let ((status, file_size), s1) = file.size s in
    if not (is_ok status)
    then some (err status, s1)
    else if ltb maximum_manifest_size file_size || ltb max_u64 file_size
    then some (err (manifest_corruption "file exceeds the format size limit"), s1)
    else elim (read_all_at file retries 0 file_size [] 0 s1) [
      | none ↦ none
      | some (err e, s2) ↦
          if is_incomplete e
          then some (err (manifest_corruption "file was truncated while reading"), s2)
          else some (err e, s2)
      | some (ok encoded, s2) ↦ some (decode_manifest encoded options, s2)
    ]

module _ {S : Type 0} (env : FlushEnvironment S) (join : String → String → String) where
  -- The removal of the temporary file, whose own status is ignored.
  abbrev abandon : String → Status → S → Option (Status × S)
  abandon path status s = some (status, (env.remove_file path s).1)

  -- PublishManifest from its call of Rename on.
  unfoldable pub replace_final : String → String → S → Option (Status × S)
  replace_final directory final_path s =
      let (status, s') = env.rename (temporary final_path) final_path s in
      if not (is_ok status)
      then abandon (temporary final_path) status s'
      else some (env.sync_directory directory s')

  unfoldable pub publish_manifest : ℕ → String → Version → Options → S → Option (Status × S)
  publish_manifest fuel directory version options s =
      if str_eq directory ""
      then some (invalid_argument "Manifest directory must not be empty", s)
      else elim (encode_manifest version options) [
        | err status ↦ some (status, s)
        | ok encoded ↦
            let final_path = join directory manifest_file_name in
            let path = temporary final_path in
            let (created, s1) = env.create_truncated path s in
            if not (is_ok created)
            then some (created, s1)
            else elim (write_all (env.file path) fuel encoded 0 s1) [
              | none ↦ none
              | some (status, s2) ↦
                  if not (is_ok status)
                  then abandon path status s2
                  else (let (synced, s3) = (env.file path).sync s2 in
                      if not (is_ok synced)
                      then abandon path synced s3
                      else replace_final directory final_path s3)
            ]
      ]

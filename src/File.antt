-- ===== src/File.antt =====
-- The file interfaces of include/minikv/file.hpp, and WriteAll and ReadAllAt of src/file.cpp.
-- An implementation of an interface is a parameter; `S` is the state of the file behind it.
pub mod Reading
pub mod Writing
use Prim.Native.String.{◌++◌ as concat}
use mini_kv_storage_engine.Base.{
  ℕ, zero, suc, ◌+◌, ◌-◌, ◌<◌, String, Bool, true, false, Option, none, some, List, [], ◌++◌,
  length, take, drop, ltb, ◌==◌, if◌then◌else◌,
}
use mini_kv_storage_engine.Bytes.{Bytes}
use mini_kv_storage_engine.Status.{Status, ok_status, io_error, incomplete, is_ok}
use mini_kv_storage_engine.Result.{Result, ok, err}
use mini_kv_storage_engine.Config.{max_u64}

pub data WriteResultKind : Type 0 where
  written interrupted error : WriteResultKind

pub data ReadResultKind : Type 0 where
  read end_of_file interrupted error : ReadResultKind

pub record WriteResult : Type 0 where
  pub kind : WriteResultKind
  pub bytes_written : ℕ
  pub status : Status

pub record ReadResult : Type 0 where
  pub kind : ReadResultKind
  pub bytes_read : ℕ
  pub status : Status

pub record WritableFile (S : Type 0) : Type 0 where
  pub write_some : Bytes → S → WriteResult × S
  pub sync : S → Status × S
  pub name : String

-- `read_some offset size` also returns what it stored at the destination.
pub record RecoveryFile (S : Type 0) : Type 0 where
  pub size : S → (Status × ℕ) × S
  pub read_some : ℕ → ℕ → S → (ReadResult × Bytes) × S
  pub truncate : ℕ → S → Status × S
  pub sync : S → Status × S
  pub name : String

abbrev quoted : String → String → String → String
quoted before name after = concat (concat (concat before "'") name) (concat "'" after)

abbrev pub reported : String → Status → Status
reported message status = if is_ok status then io_error message else status

module _ {S : Type 0} (file : WritableFile S) where
  -- Each round of the loop over `offset` takes fuel; `none` says that it ran out.
  unfoldable pub write_all : ℕ → Bytes → ℕ → S → Option (Status × S)
  write_all zero input offset s = none
  write_all (suc fuel) input offset s = elim (ltb offset (length input)) [
    | false ↦ some (ok_status, s)
    | true ↦
        let (result, s') = file.write_some (drop offset input) s in
        elim result.kind [
          | WriteResultKind.interrupted ↦ write_all fuel input offset s'
          | WriteResultKind.error ↦ some (
            reported (quoted "write failed for " file.name " without an error") result.status,
            s',
          )
          | WriteResultKind.written ↦ elim (result.bytes_written == 0) [
            | true ↦ some (io_error (quoted "write made no progress for " file.name ""), s')
            | false ↦ elim (ltb (length input - offset) result.bytes_written) [
              | true ↦
                  some (io_error (quoted "write reported too many bytes for " file.name ""), s')
              | false ↦ write_all fuel input (offset + result.bytes_written) s'
            ]
          ]
        ]
  ]

module _ {S : Type 0} (file : RecoveryFile S) where
  -- `input` holds the bytes that the earlier rounds stored, `bytes_read` of the `size` wanted.
  unfoldable pub read_all_at : ℕ → ℕ → ℕ → Bytes → ℕ → S → Option (Result Bytes × S)
  read_all_at zero offset size input bytes_read s = none
  read_all_at (suc fuel) offset size input bytes_read s = elim (ltb bytes_read size) [
    | false ↦ some (ok input, s)
    | true ↦ elim (ltb (max_u64 - bytes_read) offset) [
      | true ↦ some (err (io_error (quoted "read offset overflows for " file.name "")), s)
      | false ↦
          let ((result, bytes), s') = file.read_some (offset + bytes_read) (size - bytes_read) s in
          elim result.kind [
            | ReadResultKind.interrupted ↦ read_all_at fuel offset size input bytes_read s'
            | ReadResultKind.end_of_file ↦
                some (err (incomplete (quoted "unexpected EOF while reading " file.name "")), s')
            | ReadResultKind.error ↦ some (
              err (
                  reported (quoted "read failed for " file.name " without an error") result.status),
              s',
            )
            | ReadResultKind.read ↦ elim (result.bytes_read == 0) [
              | true ↦ some (err (io_error (quoted "read made no progress for " file.name "")), s')
              | false ↦ elim (ltb (size - bytes_read) result.bytes_read) [
                | true ↦
                    some
                      (err (io_error (quoted "read reported too many bytes for " file.name "")), s')
                | false ↦
                    read_all_at fuel offset size (input ++ take result.bytes_read bytes)
                      (bytes_read + result.bytes_read) s'
              ]
            ]
          ]
    ]
  ]

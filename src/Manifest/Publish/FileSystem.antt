-- ===== src/Manifest/Publish/FileSystem.antt =====
-- The files behind the environment of a publication.
use mini_kv_storage_engine.Base.{
  ℕ, zero, suc, ◌+◌, ◌≤◌, ◌≡◌, ◌≢◌, true, false, some, [], String, arith, drop,
}
use mini_kv_storage_engine.Bytes.{Bytes}
use mini_kv_storage_engine.Status.{Status, is_ok}
use mini_kv_storage_engine.File.{WritableFile, write_all}
use mini_kv_storage_engine.File.Writing.{IsAppending}
use mini_kv_storage_engine.Manifest.Publish.{FlushEnvironment}

-- What the write loop's calls all keep, the loop keeps.
pub write_all_keeps :
    {S B : Type 0} (file : WritableFile S) (view : S → B)
    → ((input : Bytes) → (s : S) → view (file.write_some input s).1 ≡ view s)
    → (fuel offset : ℕ) (input : Bytes) (s s' : S) (status : Status)
    → write_all file fuel input offset s ≡ some (status, s')
    → view s' ≡ view s
unfolding write_all
write_all_keeps file view keeps zero offset input s s' status e = cc
write_all_keeps file view keeps (suc fuel) offset input s s' status e =
    let answer = file.write_some (drop offset input) s in
    ground (
      arith,
      e,
      keeps (drop offset input) s,
      write_all_keeps file view keeps fuel offset input answer.1 s' status,
      write_all_keeps file view keeps fuel (offset + answer.0.bytes_written) input answer.1 s'
          status,
    )

-- The documented behaviour of the calls behind the environment: open(2) with O_TRUNC, write(2),
-- fsync(2), rename(2) and unlink(2). `contents s q` are the bytes under the name `q`, none if there
-- is no such file; `bound` is for the interruptions that one file can still have.
pub record IsFileSystem {S : Type 0} (env : FlushEnvironment S) : Type 0 where
  pub contents : S → String → Bytes
  pub bound : ℕ
  pub appending : (path : String) → IsAppending (env.file path)
  pub same_content : (path : String) (s : S) → (appending path).content s ≡ contents s path
  pub calm : (path : String) (s : S) → (appending path).patience s ≤ bound
  pub writes_alone :
      (path q : String) (input : Bytes) (s : S)
      → q ≢ path
      → contents ((env.file path).write_some input s).1 q ≡ contents s q
  pub creates_alone :
      (path q : String) (s : S)
      → q ≢ path
      → contents (env.create_truncated path s).1 q ≡ contents s q
  pub creates :
      (path : String) (s : S)
      → is_ok (env.create_truncated path s).0 ≡ true
      → contents (env.create_truncated path s).1 path ≡ []
  pub syncs : (path q : String) (s : S) → contents ((env.file path).sync s).1 q ≡ contents s q
  pub removes_alone :
      (path q : String) (s : S) → q ≢ path → contents (env.remove_file path s).1 q ≡ contents s q
  pub renames :
      (source q : String) (s : S)
      → is_ok (env.rename source q s).0 ≡ true
      → contents (env.rename source q s).1 q ≡ contents s source
  pub renames_not :
      (source q : String) (s : S)
      → is_ok (env.rename source q s).0 ≡ false
      → contents (env.rename source q s).1 q ≡ contents s q
  pub syncs_directory :
      (directory q : String) (s : S) → contents (env.sync_directory directory s).1 q ≡ contents s q

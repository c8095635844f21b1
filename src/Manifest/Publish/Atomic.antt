-- ===== src/Manifest/Publish/Atomic.antt =====
-- Publishing a manifest replaces the stored one as a whole, or leaves it alone.
use mini_kv_storage_engine.Base.{
  ℕ, ◌+◌, ◌<◌, ◌≡◌, ◌≢◌, refl, sym, ap, ◌∙◌, true, false, some, ◌++◌, ◌⊎◌, inl, inr, String, arith,
  length, take, take_all, Bool-cases,
}
use text.Mathlib.Text.{◌==◌ as str_eq}
use mini_kv_storage_engine.Bytes.{Bytes}
use mini_kv_storage_engine.Status.{Status, invalid_argument, is_ok}
use mini_kv_storage_engine.Result.{ok, Result-cases}
use mini_kv_storage_engine.Config.{Options}
use mini_kv_storage_engine.File.{write_all}
use mini_kv_storage_engine.File.Writing.{write_all_total}
use mini_kv_storage_engine.Manifest.{Version}
use mini_kv_storage_engine.Manifest.Format.{encode_manifest}
use mini_kv_storage_engine.Manifest.Publish.{
  FlushEnvironment, manifest_file_name, temporary, replace_final, publish_manifest,
}
use mini_kv_storage_engine.Manifest.Publish.FileSystem.{IsFileSystem, write_all_keeps}
use mini_kv_storage_engine.Manifest.Publish.Rejected.{encode_manifest-err}

module _ {S : Type 0} (env : FlushEnvironment S) (f : IsFileSystem env)
    (join : String → String → String) where
  -- The final name holds what it held, or all of `bytes`; the latter if the status is OK.
  abbrev Replaced : String → Bytes → S → Status → S → Type 0
  Replaced path bytes s status s' =
      ((f.contents s' path ≡ f.contents s path) ⊎ (bytes ≡ f.contents s' path))
      × (is_ok status ≡ true → bytes ≡ f.contents s' path)

  replaced :
      (directory final_path : String) (bytes : Bytes) (s : S)
      → final_path ≢ temporary final_path
      → f.contents s (temporary final_path) ≡ bytes
      → (status : Status) × (s' : S) × (replace_final env join directory final_path s
          ≡ some (status, s'))
        × Replaced final_path bytes s status s'
  unfolding replace_final
  replaced directory final_path bytes s apart full =
      let path = temporary final_path in
      let s1 = (env.rename path final_path s).1 in
      elim (Bool-cases (is_ok (env.rename path final_path s).0)) [
        | inr bad ↦ (
          (env.rename path final_path s).0,
          (env.remove_file path s1).1,
          ground (arith, bad),
          (
            inl (f.removes_alone path final_path s1 apart ∙ f.renames_not path final_path s bad),
            λ good. cc,
          ),
        )
        | inl good ↦
            let moved : bytes ≡ f.contents (env.sync_directory directory s1).1 final_path = sym (
              f.syncs_directory directory final_path s1
              ∙ f.renames path final_path s good
              ∙ full) in
            (
              (env.sync_directory directory s1).0,
              (env.sync_directory directory s1).1,
              ground (arith, good),
              (inr moved, λ _. moved),
            )
      ]

  -- The temporary file after it was created and written, with the final one untouched.
  abbrev Filled : String → String → Bytes → ℕ → S → Type 0
  Filled path final_path bytes fuel s =
      (status : Status) × (s' : S) × (write_all (env.file path) fuel bytes 0
          (env.create_truncated path s).1
        ≡ some (status, s'))
      × (f.contents s' final_path ≡ f.contents s final_path)
      × (is_ok status ≡ true → f.contents s' path ≡ bytes)

  filled :
      (path final_path : String) (bytes : Bytes) (fuel : ℕ) (s : S)
      → final_path ≢ path
      → is_ok (env.create_truncated path s).0 ≡ true
      → length bytes + f.bound < fuel
      → Filled path final_path bytes fuel s
  filled path final_path bytes fuel s apart created enough =
      let s1 = (env.create_truncated path s).1 in
      let (status, s', e, done) =
        write_all_total (env.file path) (f.appending path) bytes fuel 0 s1 (omega arith)
          (omega (arith, f.calm path s1)) in
      (
        status,
        s',
        e,
        write_all_keeps (env.file path) (λ x. f.contents x final_path)
              (λ input x. f.writes_alone path final_path input x apart) fuel 0 bytes s1 s' status e
            ∙ f.creates_alone path final_path s apart,
        λ good.
            sym (f.same_content path s')
            ∙ done.grown
            ∙ ap (λ (x : Bytes). x ++ take done.appended bytes)
                (f.same_content path s1 ∙ f.creates path s created)
            ∙ take_all bytes done.appended (omega (arith, done.complete good)),
      )

  -- The outcomes of PublishManifest, whichever way it returned.
  abbrev pub IsAtomic : ℕ → String → Version → Options → S → Type 0
  IsAtomic fuel directory version options s =
      (status : Status) × (s' : S) × (publish_manifest env join fuel directory version options s
        ≡ some (status, s'))
      × ((f.contents s' (join directory manifest_file_name)
            ≡ f.contents s (join directory manifest_file_name))
          ⊎ (encode_manifest version options
              ≡ ok (f.contents s' (join directory manifest_file_name))))
      × (is_ok status ≡ true
          → encode_manifest version options
            ≡ ok (f.contents s' (join directory manifest_file_name)))

  stored :
      (fuel : ℕ) (directory : String) (version : Version) (options : Options) (s : S)
      (bytes : Bytes)
      → join directory manifest_file_name ≢ temporary (join directory manifest_file_name)
      → str_eq directory "" ≡ false
      → encode_manifest version options ≡ ok bytes
      → is_ok (env.create_truncated (temporary (join directory manifest_file_name)) s).0 ≡ true
      → Filled
          (temporary (join directory manifest_file_name))
          (join directory manifest_file_name)
          bytes
          fuel
          s
      → IsAtomic fuel directory version options s
  unfolding publish_manifest
  stored fuel directory version options s bytes apart given e created
        (status, s2, wrote, kept, full) =
      let final_path = join directory manifest_file_name in
      let path = temporary final_path in
      let s3 = ((env.file path).sync s2).1 in
      let kept3 : f.contents s3 final_path ≡ f.contents s final_path =
        f.syncs path final_path s2 ∙ kept in
      elim (Bool-cases (is_ok status)) [
        | inr bad ↦ (
          status,
          (env.remove_file path s2).1,
          ground (arith, given, e, created, wrote, bad),
          inl (f.removes_alone path final_path s2 apart ∙ kept),
          λ good. cc,
        )
        | inl good ↦ elim (Bool-cases (is_ok ((env.file path).sync s2).0)) [
          | inr bad ↦ (
            ((env.file path).sync s2).0,
            (env.remove_file path s3).1,
            ground (arith, given, e, created, wrote, good, bad),
            inl (f.removes_alone path final_path s3 apart ∙ kept3),
            λ ok_sync. cc,
          )
          | inl synced ↦
              let (last, s4, ends, (either, done)) =
                replaced directory final_path bytes s3 apart (f.syncs path path s2 ∙ full good) in
              (
                last,
                s4,
                ground (arith, given, e, created, wrote, good, synced, ends),
                elim either [ inl same ↦ inl (same ∙ kept3) | inr whole ↦ inr (e ∙ ap ok whole) ],
                λ fine. e ∙ ap ok (done fine),
              )
        ]
      ]

  -- PublishManifest on a file system of documented behaviour, with fuel for the encoded version,
  -- returns. Whatever its status, the manifest's name holds what it held before or all of the
  -- encoding of the new version, and the latter if the status is OK.
  pub publish_manifest-IsAtomic :
      (fuel : ℕ) (directory : String) (version : Version) (options : Options) (s : S)
      → join directory manifest_file_name ≢ temporary (join directory manifest_file_name)
      → ((bytes : Bytes)
          → encode_manifest version options ≡ ok bytes
          → length bytes + f.bound < fuel)
      → IsAtomic fuel directory version options s
  unfolding publish_manifest
  publish_manifest-IsAtomic fuel directory version options s apart enough =
      let final_path = join directory manifest_file_name in
      let path = temporary final_path in
      elim (Bool-cases (str_eq directory "")) [
        | inl none_given ↦ (
          invalid_argument "Manifest directory must not be empty",
          s,
          ground (arith, none_given),
          inl refl,
          λ good. cc,
        )
        | inr given ↦ elim (Result-cases (encode_manifest version options)) [
          | inr (status, e) ↦ (
            status,
            s,
            ground (arith, given, e),
            inl refl,
            λ good. cc (encode_manifest-err version options status e),
          )
          | inl (bytes, e) ↦ elim (Bool-cases (is_ok (env.create_truncated path s).0)) [
            | inr uncreated ↦ (
              (env.create_truncated path s).0,
              (env.create_truncated path s).1,
              ground (arith, given, e, uncreated),
              inl (f.creates_alone path final_path s apart),
              λ good. cc,
            )
            | inl created ↦
                stored fuel directory version options s bytes apart given e created
                  (filled path final_path bytes fuel s apart created (enough bytes e))
          ]
        ]
      ]

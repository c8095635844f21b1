-- ===== src/Manifest/Publish/Rejected.antt =====
-- A refusal of EncodeManifest is never an OK status.
use mini_kv_storage_engine.Base.{◌≡◌, false, List, [], ◌∷◌, inl, inr, arith}
use mini_kv_storage_engine.Bytes.{Bytes}
use mini_kv_storage_engine.Status.{Status, is_ok}
use mini_kv_storage_engine.Result.{err, Result-cases}
use mini_kv_storage_engine.Config.{Options}
use mini_kv_storage_engine.Manifest.{Version, VersionTable}
use mini_kv_storage_engine.Manifest.Format.{encode_manifest, encode_tables, checked_size, put_table}
use mini_kv_storage_engine.Table.{SstableMetadata}

checked_size-err : (m : SstableMetadata) (e : Status) → checked_size m ≡ err e → is_ok e ≡ false
unfolding checked_size
checked_size-err m e h = ground (arith, h)

encode_tables-err :
    (ts : List VersionTable) (payload : Bytes) (e : Status)
    → encode_tables ts payload ≡ err e
    → is_ok e ≡ false
unfolding encode_tables
encode_tables-err [] payload e h = cc
encode_tables-err (t ∷ ts) payload e h = elim (Result-cases (checked_size t.metadata)) [
  | inr (status, bad) ↦ ground (arith, h, bad, checked_size-err t.metadata status bad)
  | inl (size, good) ↦ ground (arith, h, good, encode_tables-err ts (put_table payload t size) e)
]

pub encode_manifest-err :
    (version : Version) (options : Options) (e : Status)
    → encode_manifest version options ≡ err e
    → is_ok e ≡ false
unfolding encode_manifest
encode_manifest-err version options e h = elim (Result-cases (encode_tables version.tables [])) [
  | inr (status, bad) ↦ ground (arith, h, bad, encode_tables-err version.tables [] status bad)
  | inl (payload, good) ↦ ground (arith, h, good)
]

-- ===== src/Table/Walk.antt =====
-- A caller's walk over an iterator.
use mini_kv_storage_engine.Base.{
  ℕ, zero, suc, ◌+◌, ◌≤◌, ◌<◌, ◌≡◌, refl, ap, ◌∙◌, true, false, none, some, Option, List, [], ◌∷◌,
  arith, length, All,
}
use mini_kv_storage_engine.Status.{is_ok}
use mini_kv_storage_engine.Result.{Result, ok, err}
use mini_kv_storage_engine.Config.{max_u64}
use mini_kv_storage_engine.MemTable.{MemTableRecord}
use mini_kv_storage_engine.File.{RecoveryFile}
use mini_kv_storage_engine.File.Reading.{IsReadable}
use mini_kv_storage_engine.Table.Read.{SstableReader}
use mini_kv_storage_engine.Table.Search.{Blocks, entries, IsNamed}
use mini_kv_storage_engine.Table.Lookup.{IsStored}
use mini_kv_storage_engine.Table.Iterator.{SstableIterator, current, next}
use mini_kv_storage_engine.Table.Steps.{Yields, next-Settles}

Yields-current :
    (blocks : Blocks) (i : SstableIterator) (r : MemTableRecord) (rs : List MemTableRecord)
    → Yields blocks i (r ∷ rs)
    → current i ≡ some r
unfolding current
Yields-current blocks i r rs v = ground (arith, v.valid, v.here)

module _ {S : Type 0} (file : RecoveryFile S) (retries : ℕ) (reader : SstableReader) where
  -- A caller's loop over an iterator, with its fuel: it collects the records.
  unfoldable pub walk : ℕ → SstableIterator → S → Option (Result (List MemTableRecord) × S)
  walk zero i s = none
  walk (suc fuel) i s = elim (current i) [
    | none ↦ some (ok [], s)
    | some r ↦ elim (next file retries reader i s) [
      | none ↦ none
      | some (status, (i', s')) ↦ elim (is_ok status) [
        | false ↦ some (err status, s')
        | true ↦ elim (walk fuel i' s') [
          | none ↦ none
          | some (err status', s'') ↦ some (err status', s'')
          | some (ok rs, s'') ↦ some (ok (r ∷ rs), s'')
        ]
      ]
    ]
  ]

-- The walk collects what the iterator has before it.
module _ {S : Type 0} (file : RecoveryFile S) (a : IsReadable file) (retries : ℕ)
    (reader : SstableReader) (blocks : Blocks) (index : reader.index ≡ entries blocks)
    (named : All IsNamed blocks) where
  pub walk-Yields :
      (rs : List MemTableRecord) (fuel : ℕ) (i : SstableIterator) (s : S)
      → All (IsStored reader.options (a.content s)) blocks
      → length (a.content s) ≤ max_u64
      → length (a.content s) + a.patience s < retries
      → length rs < fuel
      → Yields blocks i rs
      → (s' : S) × (walk file retries reader fuel i s ≡ some (ok rs, s'))
        × (a.content s' ≡ a.content s)
  unfolding walk current
  walk-Yields rs zero i s stored fits m enough v = absurd (omega (arith, enough))
  walk-Yields [] (suc fuel) i s stored fits m enough v = (s, ground (arith, v), refl)
  walk-Yields (r ∷ rs) (suc fuel) i s stored fits m enough v =
      let (i', s1, steps, yields, kept, patient) =
        next-Settles file a retries reader blocks s index named stored fits m i r rs v in
      let (s', walks, kept') =
        walk-Yields rs fuel i' s1 (rw kept stored) (rw kept fits)
          (omega (arith, m, patient, ap length kept)) (omega (arith, enough)) yields in
      (s', ground (arith, v.valid, v.here, steps, walks), kept' ∙ kept)

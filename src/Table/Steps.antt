-- ===== src/Table/Steps.antt =====
-- The steps of an iterator: it settles on the records behind its position.
use mini_kv_storage_engine.Base.{
  ℕ, zero, suc, ◌+◌, ◌≤◌, ◌<◌, ◌≡◌, refl, sym, ap, ◌∙◌, true, false, some, Option, List, [], ◌∷◌,
  ◌++◌, append_assoc, arith, length, length-append, drop, All, Bool-cases, inl, inr, subst, leb,
  get_elem?,
}
use mini_kv_storage_engine.Status.{Status, ok_status}
use mini_kv_storage_engine.Config.{max_u64}
use mini_kv_storage_engine.MemTable.{MemTableRecord}
use mini_kv_storage_engine.File.{RecoveryFile}
use mini_kv_storage_engine.File.Reading.{IsReadable}
use mini_kv_storage_engine.Table.{IndexEntry}
use mini_kv_storage_engine.Table.Read.{SstableReader, count_block}
use mini_kv_storage_engine.Table.Search.{Blocks, entries, block_records, IsNamed}
use mini_kv_storage_engine.Table.Lookup.{IsStored}
use mini_kv_storage_engine.Table.Iterator.{
  SstableIterator, current, at_end, enforce_upper_bound, skip_blocks, next, settled, rounds,
}
use mini_kv_storage_engine.Table.Loaded.{
  until, drop-suc, drop_all, IsLoaded, All-right, load_block-next, load_block-end,
}

-- The iterator stands at `r`, and `rs` are the records behind it that lie in the range.
pub record IsLive (blocks : Blocks) (i : SstableIterator) (r : MemTableRecord)
    (rs : List MemTableRecord) : Type 0 where
  pub loaded : IsLoaded blocks i
  pub valid : i.valid ≡ true
  pub here : get_elem? i.records i.position ≡ some r
  pub before_end : at_end r.key i.end ≡ false
  pub behind : until i.end (drop (i.position + 1) i.records ++ block_records loaded.later) ≡ rs

-- The iterator has these records before it.
abbrev pub Yields : Blocks → SstableIterator → List MemTableRecord → Type 0
Yields blocks i [] = i.valid ≡ false
Yields blocks i (r ∷ rs) = IsLive blocks i r rs

get_elem?-lt :
    (rs : List MemTableRecord) (n : ℕ) (r : MemTableRecord)
    → get_elem? rs n ≡ some r
    → n < length rs
get_elem?-lt [] n r h = absurd (ground (arith, h))
get_elem?-lt (s ∷ rs) zero r h = omega arith
get_elem?-lt (s ∷ rs) (suc n) r h = omega (arith, get_elem?-lt rs n r h)

-- A call that settled on an iterator, with the records that it has before it.
abbrev pub Settles :
    {S : Type 0} (file : RecoveryFile S)
    → IsReadable file
    → Blocks
    → List MemTableRecord
    → S
    → Option (Status × (SstableIterator × S))
    → Type 0
Settles {S} file a blocks rs s call =
    (i : SstableIterator) × (s' : S) × (call ≡ some (ok_status, (i, s')))
    × Yields blocks i rs
    × (a.content s' ≡ a.content s)
    × (a.patience s' ≤ a.patience s)

enforced :
    (blocks : Blocks) (i : SstableIterator) (r : MemTableRecord) (l : IsLoaded blocks i)
    → i.valid ≡ true
    → get_elem? i.records i.position ≡ some r
    → Yields blocks
        (enforce_upper_bound i)
        (until i.end (r ∷ (drop (i.position + 1) i.records ++ block_records l.later)))
unfolding enforce_upper_bound current
enforced blocks i r l valid here = elim (Bool-cases (at_end r.key i.end)) [
  | inl past ↦ rw past (ground (arith, past, valid, here))
  | inr inside ↦ rw inside (
      subst
        (λ j.
          IsLive blocks j r
            (until i.end (drop (i.position + 1) i.records ++ block_records l.later)))
        (ground (arith, inside, valid, here))
        (record { loaded = l; valid = valid; here = here; before_end = inside; behind = refl }))
]

module _ {S : Type 0} (file : RecoveryFile S) (a : IsReadable file) (retries : ℕ)
    (reader : SstableReader) (blocks : Blocks) (s : S) where
  -- The position lies in the block in memory.
  settled_here :
      (fuel : ℕ) (i : SstableIterator) (l : IsLoaded blocks i)
      → 0 < fuel
      → i.valid ≡ true
      → i.position < length i.records
      → Settles file a blocks
          (until i.end (drop i.position i.records ++ block_records l.later))
          s
          (settled file retries reader (skip_blocks file retries reader fuel i s))
  unfolding skip_blocks
  settled_here zero i l some_fuel valid inside = absurd (omega (arith, some_fuel))
  settled_here (suc fuel) i l some_fuel valid inside =
      let (r, cut, here) = drop-suc i.position i.records inside in
      (
        enforce_upper_bound i,
        s,
        ground (arith, inside, valid),
        rw cut (enforced blocks i r l valid here),
        refl,
        omega arith,
      )

module _ {S : Type 0} (file : RecoveryFile S) (a : IsReadable file) (retries : ℕ)
    (reader : SstableReader) (blocks : Blocks) (s : S) (index : reader.index ≡ entries blocks)
    (named : All IsNamed blocks) (stored : All (IsStored reader.options (a.content s)) blocks)
    (fits : length (a.content s) ≤ max_u64)
    (m : length (a.content s) + a.patience s < retries) where
  -- The position lies behind the block in memory, and there is a next block.
  settled_next :
      (fuel : ℕ) (i : SstableIterator) (read_blocks later : Blocks) (e : IndexEntry)
      (g : List MemTableRecord)
      → 1 < fuel
      → length i.records ≤ i.position
      → blocks ≡ read_blocks ++ (e, g) ∷ later
      → length read_blocks ≡ i.block + 1
      → Settles file a blocks
          (until i.end (g ++ block_records later))
          s
          (settled file retries reader (skip_blocks file retries reader fuel i s))
  unfolding skip_blocks
  settled_next zero i read_blocks later e g some_fuel past split count =
      absurd (omega (arith, some_fuel))
  settled_next (suc fuel) i read_blocks later e g some_fuel past split count =
      let (s1, loads, kept, patient) =
        load_block-next file a retries reader blocks s index named stored fits m read_blocks later e
          g (i.block + 1) i split count in
      let some_records =
        (All-right IsNamed read_blocks ((e, g) ∷ later) (subst (All IsNamed) split named)).0.0 in
      let i1 : SstableIterator = record i {
        records = g;
        position = 0;
        block = i.block + 1;
        valid = true;
        statistics = count_block e.block_size i.statistics;
      } in
      let l : IsLoaded blocks i1 = record {
        read_blocks = read_blocks ++ (e, g) ∷ [];
        later = later;
        split = split ∙ sym (append_assoc read_blocks ((e, g) ∷ []) later);
        count = length-append read_blocks ((e, g) ∷ []) ∙ ap (λ n. n + 1) count;
      } in
      let (i2, s2, settles, yields, kept', patient') =
        settled_here file a retries reader blocks s1 fuel i1 l (omega (arith, some_fuel)) refl
          some_records in
      (
        i2,
        s2,
        ground (arith, past, loads) ∙ settles,
        yields,
        kept' ∙ kept,
        omega (arith, patient, patient'),
      )

  settled_end :
      (fuel : ℕ) (i : SstableIterator)
      → 0 < fuel
      → length i.records ≤ i.position
      → length blocks ≡ i.block + 1
      → Settles file a blocks [] s
          (settled file retries reader (skip_blocks file retries reader fuel i s))
  unfolding skip_blocks
  settled_end zero i some_fuel past count = absurd (omega (arith, some_fuel))
  settled_end (suc fuel) i some_fuel past count =
      let ends =
        load_block-end file a retries reader blocks s index named stored fits m (i.block + 1) i
          count in
      (
        record i { records = []; position = 0; valid = false },
        s,
        ground (arith, past, ends),
        refl,
        refl,
        omega arith,
      )

  settled_past :
      (fuel : ℕ) (i : SstableIterator) (read_blocks later : Blocks)
      → 1 < fuel
      → length i.records ≤ i.position
      → blocks ≡ read_blocks ++ later
      → length read_blocks ≡ i.block + 1
      → Settles file a blocks
          (until i.end (drop i.position i.records ++ block_records later))
          s
          (settled file retries reader (skip_blocks file retries reader fuel i s))
  settled_past fuel i read_blocks [] some_fuel past split count =
      rw (drop_all i.position i.records past) (
        settled_end fuel i (omega (arith, some_fuel)) past
          (omega (arith, count, ap length split, length-append read_blocks [])))
  settled_past fuel i read_blocks ((e, g) ∷ later) some_fuel past split count =
      rw (drop_all i.position i.records past)
        (settled_next fuel i read_blocks later e g some_fuel past split count)

  -- From any position, the loop and the test of the upper bound settle on the records behind it.
  pub settled_lem :
      (fuel : ℕ) (i : SstableIterator) (l : IsLoaded blocks i)
      → 1 < fuel
      → (i.position < length i.records → i.valid ≡ true)
      → Settles file a blocks
          (until i.end (drop i.position i.records ++ block_records l.later))
          s
          (settled file retries reader (skip_blocks file retries reader fuel i s))
  settled_lem fuel i l some_fuel valid = elim (Bool-cases (leb (length i.records) i.position)) [
    | inr inside ↦
        let within : i.position < length i.records = ground (arith, inside) in
        settled_here file a retries reader blocks s fuel i l (omega (arith, some_fuel))
          (valid within) within
    | inl past ↦
        settled_past fuel i l.read_blocks l.later some_fuel (ground (arith, past)) l.split l.count
  ]

  -- Next leaves the record behind.
  pub next-Settles :
      (i : SstableIterator) (r : MemTableRecord) (rs : List MemTableRecord)
      → Yields blocks i (r ∷ rs)
      → Settles file a blocks rs s (next file retries reader i s)
  unfolding next
  next-Settles i r rs v =
      let i1 : SstableIterator = record i { position = i.position + 1 } in
      let l : IsLoaded blocks i1 = record {
        read_blocks = v.loaded.read_blocks;
        later = v.loaded.later;
        split = v.loaded.split;
        count = v.loaded.count;
      } in
      let (i2, s2, settles, yields, kept, patient) =
        settled_lem (rounds file retries reader) i1 l (omega arith) (λ _. v.valid) in
      (
        i2,
        s2,
        ground (arith, settles, v.valid),
        subst (Yields blocks i2) v.behind yields,
        kept,
        patient,
      )

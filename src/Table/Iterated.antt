-- ===== src/Table/Iterated.antt =====
-- NewIterator and a walk from it: the records of a range of keys, in order.
use mini_kv_storage_engine.Base.{
  ℕ, ◌+◌, ◌-◌, ◌≤◌, ◌<◌, ◌≡◌, refl, sym, ap, ◌∙◌, true, false, none, some, Option, List, [], ◌∷◌,
  ◌++◌, append_assoc, arith, length, length-append, drop, Bool-cases, inl, inr, subst, ◌==◌,
}
use mini_kv_storage_engine.Bytes.{Bytes, bytes_lt}
use mini_kv_storage_engine.Bytes.Order.{eq_of_compare_bytes}
use mini_kv_storage_engine.Result.{ok}
use mini_kv_storage_engine.MemTable.{MemTableRecord}
use mini_kv_storage_engine.File.{RecoveryFile}
use mini_kv_storage_engine.File.Reading.{IsReadable}
use mini_kv_storage_engine.Table.Read.{
  SstableReader, upper_bound, lower_bound, new_stats, count_block,
}
use mini_kv_storage_engine.Table.Search.{Blocks, block_records}
use mini_kv_storage_engine.Table.Lookup.{IsReader}
use mini_kv_storage_engine.Table.Iterator.{
  SstableIterator, new_iterator_at, at_end, is_end, is_past, end_size, first_block, load_block,
  is_outside, rounds, positioned, initialize, new_iterator,
}
use mini_kv_storage_engine.Table.Loaded.{until, IsLoaded, load_block-next, length-entries}
use mini_kv_storage_engine.Table.Steps.{Yields, Settles, settled_lem}
use mini_kv_storage_engine.Table.Walk.{walk, walk-Yields}
use mini_kv_storage_engine.Table.Ranges.{
  length-until-le, length-from-le, from, drop-lower_bound, from-append, IsFirst,
  upper_bound-IsFirst, from-past, until-from_same, until-from_first, upper_bound-nil,
}

-- The records whose keys lie from `begin` on and in front of `end`.
abbrev pub range : Bytes → Option Bytes → List MemTableRecord → List MemTableRecord
range begin end records = until end (from begin records)

module _ {S : Type 0} (file : RecoveryFile S) (a : IsReadable file) (retries : ℕ)
    (reader : SstableReader) (blocks : Blocks) (s : S) (v : IsReader reader blocks (a.content s))
    (m : length (a.content s) + a.patience s < retries) where
  -- The first block is loaded, and the position is that of the first key of the range.
  started :
      (begin : Bytes) (end : Option Bytes)
      → IsFirst begin blocks
      → Settles file a blocks (range begin end (block_records blocks)) s (
          positioned file retries reader (
            load_block file retries reader
              (upper_bound begin reader.index - 1)
              (new_iterator_at begin end)
              s))
  started begin end c =
      let block = upper_bound begin reader.index - 1 in
      let count : length c.read_blocks ≡ block = rw v.index c.count in
      let (s1, loads, kept, patient) =
        load_block-next file a retries reader blocks s v.index v.named v.stored v.size_fits m
          c.read_blocks c.later c.entry c.group block (new_iterator_at begin end) c.split count in
      let i1 : SstableIterator = record (new_iterator_at begin end) {
        records = c.group;
        position = lower_bound begin c.group;
        block = block;
        valid = true;
        statistics = count_block c.entry.block_size new_stats;
      } in
      let l : IsLoaded blocks i1 = record {
        read_blocks = c.read_blocks ++ (c.entry, c.group) ∷ [];
        later = c.later;
        split = c.split ∙ sym (append_assoc c.read_blocks ((c.entry, c.group) ∷ []) c.later);
        count = length-append c.read_blocks ((c.entry, c.group) ∷ []) ∙ ap (λ n. n + 1) count;
      } in
      let (i2, s2, settles, yields, kept', patient') =
        settled_lem file a retries reader blocks s1 v.index v.named (rw kept v.stored)
          (rw kept v.size_fits) (omega (arith, m, patient, ap length kept))
          (rounds file retries reader) i1 l (omega arith) (λ _. refl) in
      let same_records : drop (lower_bound begin c.group) c.group ++ block_records c.later
          ≡ from begin (block_records blocks) =
        ap (λ l. l ++ block_records c.later) (drop-lower_bound begin c.group)
        ∙ sym (from-append begin c.group (block_records c.later) c.behind)
        ∙ sym c.starts in
      (
        i2,
        s2,
        rw loads settles,
        subst (λ l. Yields blocks i2 (until end l)) same_records yields,
        kept' ∙ kept,
        omega (arith, patient, patient'),
      )

  first_block_lem : (begin : Bytes) → first_block reader begin ≡ upper_bound begin reader.index - 1
  unfolding first_block
  first_block_lem [] = rw v.index (ground (arith, upper_bound-nil blocks v.named v.rising))
  first_block_lem (byte ∷ begin) = refl

  -- No record lies in a range that Initialize finds to be outside of the table.
  outside-range :
      (begin : Bytes) (end : Option Bytes)
      → is_outside file retries reader (new_iterator_at begin end) ≡ true
      → range begin end (block_records blocks) ≡ []
  outside-range begin end out = elim (Bool-cases (bytes_lt reader.metadata.maximum_key begin)) [
    | inl past ↦
        ap (until end)
          (from-past begin [] (block_records blocks) v.rising (ground (arith, past, v.maximum_key)))
    | inr before ↦ elim (Bool-cases (at_end reader.metadata.minimum_key end)) [
      | inl ended ↦
          until-from_first begin end [] (block_records blocks) v.rising (rw (← v.minimum_key) ended)
      | inr not_ended ↦ same begin end (ground (arith, out, before, not_ended))
    ]
  ]
    where
      same :
          (begin : Bytes) (end : Option Bytes)
          → is_end begin end ≡ true
          → range begin end (block_records blocks) ≡ []
      same begin none h = absurd (ground (arith, h))
      same begin (some end) h =
          let e : begin ≡ end = ground (arith, h, eq_of_compare_bytes begin end) in
          subst (λ k. range begin (some k) (block_records blocks) ≡ []) e
            (until-from_same begin (block_records blocks))

  initialized :
      (begin : Bytes) (end : Option Bytes)
      → 0 < length blocks
      → Settles file a blocks
          (range begin end (block_records blocks))
          s
          (initialize file retries reader (new_iterator_at begin end) s)
  unfolding initialize
  initialized begin end some_blocks =
      let size : (length reader.index == 0) ≡ false =
        ground (arith, some_blocks, ap length v.index, length-entries blocks) in
      elim (Bool-cases (is_outside file retries reader (new_iterator_at begin end))) [
        | inl out ↦ (
          new_iterator_at begin end,
          s,
          ground (arith, size, out),
          subst (Yields blocks (new_iterator_at begin end)) (sym (outside-range begin end out))
              refl,
          refl,
          omega arith,
        )
        | inr inside ↦
            let (i, s1, starts, yields, kept, patient) =
              started begin end
                (upper_bound-IsFirst begin [] blocks some_blocks v.named v.rising) in
            (
              i,
              s1,
              ground (arith, size, inside, first_block_lem begin, starts),
              yields,
              kept,
              patient,
            )
      ]

  -- An iterator over a range, and the records that a caller's walk collects with it.
  pub record IsIterated (begin : Bytes) (end : Option Bytes) (fuel : ℕ) : Type 0 where
    pub iterator : SstableIterator
    pub created_in : S
    pub left_in : S
    pub creates : new_iterator file retries reader begin end s ≡ some (ok iterator, created_in)
    pub walks :
        walk file retries reader fuel iterator created_in
        ≡ some (ok (range begin end (block_records blocks)), left_in)
    pub unchanged : a.content left_in ≡ a.content s

  pub new_iterator-IsIterated :
      (begin : Bytes) (end : Option Bytes) (fuel : ℕ)
      → 0 < length blocks
      → length begin ≤ reader.options.max_key_size
      → end_size end ≤ reader.options.max_key_size
      → is_past begin end ≡ false
      → length (block_records blocks) < fuel
      → IsIterated begin end fuel
  unfolding new_iterator
  new_iterator-IsIterated begin end fuel some_blocks begin_fits end_fits forward enough =
      let (i, s1, starts, yields, kept, patient) = initialized begin end some_blocks in
      let (s2, walks, kept') =
        walk-Yields file a retries reader blocks v.index v.named
          (range begin end (block_records blocks)) fuel i s1 (rw kept v.stored)
          (rw kept v.size_fits) (omega (arith, m, patient, ap length kept))
          (omega (
            arith,
            enough,
            length-until-le end (from begin (block_records blocks)),
            length-from-le begin (block_records blocks),
          ))
          yields in
      record {
        iterator = i;
        created_in = s1;
        left_in = s2;
        creates = ground (arith, begin_fits, end_fits, forward, starts);
        walks = walks;
        unchanged = kept' ∙ kept;
      }

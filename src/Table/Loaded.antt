-- ===== src/Table/Loaded.antt =====
-- LoadBlock of an iterator whose reader describes the blocks of its file.
use mini_kv_storage_engine.Base.{
  ℕ, zero, suc, ◌+◌, ◌≤◌, ◌<◌, ◌≡◌, refl, ap, ◌∙◌, true, false, some, Option, List, [], ◌∷◌, ◌++◌,
  arith, length, length-append, drop, All, subst, leb, get_elem?, if◌then◌else◌,
}
use mini_kv_storage_engine.Bytes.{Bytes}
use mini_kv_storage_engine.Status.{ok_status}
use mini_kv_storage_engine.Config.{max_u64}
use mini_kv_storage_engine.MemTable.{MemTableRecord}
use mini_kv_storage_engine.File.{RecoveryFile}
use mini_kv_storage_engine.File.Reading.{IsReadable}
use mini_kv_storage_engine.Table.{IndexEntry}
use mini_kv_storage_engine.Table.Read.{SstableReader, count_block}
use mini_kv_storage_engine.Table.Search.{Blocks, entries, IsNamed}
use mini_kv_storage_engine.Table.Reading.{read_block_lem}
use mini_kv_storage_engine.Table.Lookup.{IsStored}
use mini_kv_storage_engine.Table.Iterator.{SstableIterator, at_end, load_block}

-- The records in front of the end of a range.
abbrev pub until : Option Bytes → List MemTableRecord → List MemTableRecord
until end [] = []
until end (r ∷ rs) = if at_end r.key end then [] else r ∷ until end rs

pub length-entries : (blocks : Blocks) → length (entries blocks) ≡ length blocks
length-entries [] = refl
length-entries ((e, g) ∷ blocks) = ap suc (length-entries blocks)

entries-append : (xs ys : Blocks) → entries (xs ++ ys) ≡ entries xs ++ entries ys
entries-append [] ys = refl
entries-append ((e, g) ∷ xs) ys = ap (λ l. e ∷ l) (entries-append xs ys)

get_elem?-next :
    (read later : Blocks) (e : IndexEntry) (g : List MemTableRecord)
    → get_elem? (entries (read ++ (e, g) ∷ later)) (length read) ≡ some e
get_elem?-next [] later e g = refl
get_elem?-next ((d, h) ∷ read) later e g = get_elem?-next read later e g

pub drop-suc :
    (n : ℕ) (rs : List MemTableRecord)
    → n < length rs
    → (r : MemTableRecord) × (drop n rs ≡ r ∷ drop (n + 1) rs) × (get_elem? rs n ≡ some r)
drop-suc n [] h = absurd (omega (arith, h))
drop-suc zero (r ∷ rs) h = (r, ground arith, refl)
drop-suc (suc n) (s ∷ rs) h =
    let (r, e, f) = drop-suc n rs (omega (arith, h)) in
    let g : suc n + 1 ≡ suc (n + 1) = omega arith in (r, rw g e, f)

pub drop_all : (n : ℕ) (rs : List MemTableRecord) → length rs ≤ n → drop n rs ≡ []
drop_all zero [] h = refl
drop_all (suc n) [] h = refl
drop_all zero (r ∷ rs) h = absurd (omega (arith, h))
drop_all (suc n) (r ∷ rs) h = drop_all n rs (omega (arith, h))

-- The blocks that were read, the last of them in memory, and those behind them.
pub record IsLoaded (blocks : Blocks) (i : SstableIterator) : Type 0 where
  pub read_blocks : Blocks
  pub later : Blocks
  pub split : blocks ≡ read_blocks ++ later
  pub count : length read_blocks ≡ i.block + 1

pub All-right {κ} :
    (P : IndexEntry × List MemTableRecord → Type κ) (xs ys : Blocks) → All P (xs ++ ys) → All P ys
All-right P [] ys h = h
All-right P (x ∷ xs) ys h = All-right P xs ys h.1

module _ {S : Type 0} (file : RecoveryFile S) (a : IsReadable file) (retries : ℕ)
    (reader : SstableReader) (blocks : Blocks) (s : S) (index : reader.index ≡ entries blocks)
    (named : All IsNamed blocks) (stored : All (IsStored reader.options (a.content s)) blocks)
    (fits : length (a.content s) ≤ max_u64)
    (m : length (a.content s) + a.patience s < retries) where
  -- A block is loaded.
  pub load_block-next :
      (read_blocks later : Blocks) (e : IndexEntry) (g : List MemTableRecord) (block : ℕ)
      (i : SstableIterator)
      → blocks ≡ read_blocks ++ (e, g) ∷ later
      → length read_blocks ≡ block
      → (s' : S) × (load_block file retries reader block i s
          ≡ some (
            ok_status,
            (
              record i {
                records = g;
                position = 0;
                block = block;
                valid = true;
                statistics = count_block e.block_size i.statistics;
              },
              s',
            ),
          ))
        × (a.content s' ≡ a.content s)
        × (a.patience s' ≤ a.patience s)
  unfolding load_block
  load_block-next read_blocks later e g block i split count =
      let here : get_elem? reader.index block ≡ some e =
        rw (index, split, ← count) (get_elem?-next read_blocks later e g) in
      let at =
        All-right (IsStored reader.options (a.content s)) read_blocks ((e, g) ∷ later)
          (subst (All (IsStored reader.options (a.content s))) split stored) in
      let named_at =
        All-right IsNamed read_blocks ((e, g) ∷ later) (subst (All IsNamed) split named) in
      let (s', reads, kept, patient) =
        read_block_lem file a retries reader block e i.statistics s here at.0.0 fits m in
      let size : length reader.index ≡ length (read_blocks ++ (e, g) ∷ later) =
        ap length index ∙ length-entries blocks ∙ ap length split in
      let more : leb (length reader.index) block ≡ false =
        ground (arith, size, count, length-append read_blocks ((e, g) ∷ later)) in
      (s', ground (arith, more, reads, at.0.1, named_at.0.0), kept, patient)

  -- There is no block behind the last one.
  pub load_block-end :
      (block : ℕ) (i : SstableIterator)
      → length blocks ≡ block
      → load_block file retries reader block i s
        ≡ some (ok_status, (record i { records = []; position = 0; valid = false }, s))
  unfolding load_block
  load_block-end block i count =
      let size : length reader.index ≡ length blocks = ap length index ∙ length-entries blocks in
      ground (arith, size, count)

-- ===== src/Table/Groups.antt =====
-- The data blocks of a table as groups of records: the bytes of the data region and the index
-- that belong to them.
use mini_kv_storage_engine.Base.{
  ℕ, suc, ◌≤◌, ◌+◌, ◌%◌, ◌^◌, ◌≡◌, refl, sym, ap, ◌∙◌, List, [], ◌∷◌, ◌++◌, append-nil,
  append_assoc, arith, length, length-append, min, max,
}
use mini_kv_storage_engine.Bytes.{Bytes}
use mini_kv_storage_engine.Config.{max_u64}
use mini_kv_storage_engine.MemTable.{MemTableRecord}
use mini_kv_storage_engine.Table.{IndexEntry}
use mini_kv_storage_engine.Table.Blocks.{block_of}

abbrev pub Groups : Type 0
Groups = List (List MemTableRecord)

abbrev pub all_records : Groups → List MemTableRecord
all_records [] = []
all_records (g ∷ gs) = g ++ all_records gs

abbrev pub first_key_of : List MemTableRecord → Bytes
first_key_of [] = []
first_key_of (r ∷ rs) = r.key

abbrev pub data_of : Groups → Bytes
data_of [] = []
data_of (g ∷ gs) = block_of g ++ data_of gs

-- The index of blocks that stand one behind the other from `offset` on.
abbrev pub index_of : ℕ → Groups → List IndexEntry
index_of offset [] = []
index_of offset (g ∷ gs) =
    record {
      first_key = first_key_of g;
      block_offset = offset % 2 ^ 64;
      block_size = length (block_of g);
    }
    ∷ index_of (offset + length (block_of g)) gs

abbrev pub lowest : List MemTableRecord → ℕ
lowest [] = max_u64
lowest (r ∷ rs) = min r.sequence (lowest rs)

abbrev pub highest : List MemTableRecord → ℕ
highest [] = 0
highest (r ∷ rs) = max r.sequence (highest rs)

pub all_records_snoc :
    (gs : Groups) (g : List MemTableRecord) → all_records (gs ++ g ∷ []) ≡ all_records gs ++ g
all_records_snoc [] g = append-nil g
all_records_snoc (h ∷ gs) g =
    ap (λ l. h ++ l) (all_records_snoc gs g) ∙ sym (append_assoc h (all_records gs) g)

pub data_of_snoc :
    (gs : Groups) (g : List MemTableRecord) → data_of (gs ++ g ∷ []) ≡ data_of gs ++ block_of g
data_of_snoc [] g = append-nil (block_of g)
data_of_snoc (h ∷ gs) g =
    ap (λ l. block_of h ++ l) (data_of_snoc gs g)
    ∙ sym (append_assoc (block_of h) (data_of gs) (block_of g))

pub index_of_snoc :
    (gs : Groups) (offset : ℕ) (g : List MemTableRecord)
    → index_of offset (gs ++ g ∷ [])
      ≡ index_of offset gs ++ index_of (offset + length (data_of gs)) (g ∷ [])
index_of_snoc [] offset g = let e : offset + 0 ≡ offset = omega arith in rw e refl
index_of_snoc (h ∷ gs) offset g =
    let e : offset + length (block_of h) + length (data_of gs)
        ≡ offset + length (data_of (h ∷ gs)) =
      omega (arith, length-append (block_of h) (data_of gs)) in
    rw (index_of_snoc gs (offset + length (block_of h)) g, e) refl

pub length-index_of : (gs : Groups) (offset : ℕ) → length (index_of offset gs) ≡ length gs
length-index_of [] offset = refl
length-index_of (g ∷ gs) offset = ap suc (length-index_of gs (offset + length (block_of g)))

pub lowest_snoc :
    (rs : List MemTableRecord) (r : MemTableRecord)
    → r.sequence ≤ max_u64
    → lowest (rs ++ r ∷ []) ≡ min (lowest rs) r.sequence
lowest_snoc [] r fits = omega arith
lowest_snoc (s ∷ rs) r fits = omega (arith, lowest_snoc rs r fits)

pub highest_snoc :
    (rs : List MemTableRecord) (r : MemTableRecord)
    → highest (rs ++ r ∷ []) ≡ max (highest rs) r.sequence
highest_snoc [] r = omega arith
highest_snoc (s ∷ rs) r = omega (arith, highest_snoc rs r)

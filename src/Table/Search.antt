-- ===== src/Table/Search.antt =====
-- The two searches of Get: the sparse index names the only block that can hold a key, and in the
-- block the key is found where it stands.
use mathlib.Core.List.{Memᴰ}
use mathlib.Core.List.Memᴰ.{head, tail}
use mini_kv_storage_engine.Base.{
  ◌⊎◌, subst, ℕ, zero, suc, ◌-◌, ◌<◌, ◌≡◌, refl, sym, ◌∙◌, true, false, Option, none, some, List,
  [], ◌∷◌, ◌++◌, arith, length, All, get_elem?, inl, inr, Bool-cases, if◌then◌else◌,
}
use mini_kv_storage_engine.Bytes.{Bytes, bytes_eq, bytes_lt}
use mini_kv_storage_engine.Bytes.Order.{◌≺◌, eq_of_compare_bytes, lt_of_gt, gt_of_lt, ≺_trans}
use mini_kv_storage_engine.MemTable.{MemTableRecord}
use mini_kv_storage_engine.Table.{IndexEntry}
use mini_kv_storage_engine.Table.Read.{upper_bound, lower_bound}
use mini_kv_storage_engine.Table.Verify.{last_key}
use mini_kv_storage_engine.Table.Blocks.{IsRising}
use mini_kv_storage_engine.Table.Groups.{first_key_of}

-- The first record of that key.
unfoldable pub find_record : Bytes → List MemTableRecord → Option MemTableRecord
find_record key [] = none
find_record key (r ∷ rs) = if bytes_eq r.key key then some r else find_record key rs

abbrev pub with_key : Bytes → Option MemTableRecord → Option MemTableRecord
with_key key none = none
with_key key (some r) = if bytes_eq r.key key then some r else none

-- Where the keys rise, a key below the first of them is not there.
pub find_record-below :
    (key low : Bytes) (rs : List MemTableRecord)
    → (key ≺ low) ⊎ (key ≡ low)
    → IsRising low rs
    → find_record key rs ≡ none
unfolding find_record
find_record-below key low [] below h = refl
find_record-below key low (r ∷ rs) below h =
    let under : key ≺ r.key = elim below [
      | inl less ↦ ≺_trans key low r.key less h.0
      | inr same_key ↦ subst (λ k. k ≺ r.key) (sym same_key) h.0
    ] in
    let rest = find_record-below key r.key rs (inl under) h.1 in
    ground (arith, rest, gt_of_lt key r.key under)

-- What std::lower_bound finds is the record of the key, if there is one.
pub lower_bound-find :
    (key low : Bytes) (rs : List MemTableRecord)
    → IsRising low rs
    → with_key key (get_elem? rs (lower_bound key rs)) ≡ find_record key rs
unfolding find_record lower_bound
lower_bound-find key low [] h = refl
lower_bound-find key low (r ∷ rs) h =
    let rest = lower_bound-find key r.key rs h.1 in
    ground (
      arith,
      rest,
      find_record-below key r.key rs,
      lt_of_gt r.key key,
      eq_of_compare_bytes r.key key,
    )

find_record-append :
    (key : Bytes) (rs ss : List MemTableRecord)
    → find_record key rs ≡ none
    → find_record key (rs ++ ss) ≡ find_record key ss
unfolding find_record
find_record-append key [] ss h = refl
find_record-append key (r ∷ rs) ss h = ground (arith, find_record-append key rs ss, h)

find_record-append_none :
    (key : Bytes) (rs ss : List MemTableRecord)
    → find_record key ss ≡ none
    → find_record key (rs ++ ss) ≡ find_record key rs
unfolding find_record
find_record-append_none key [] ss h = h
find_record-append_none key (r ∷ rs) ss h = ground (arith, find_record-append_none key rs ss h)

pub IsRising-left :
    (low : Bytes) (rs ss : List MemTableRecord) → IsRising low (rs ++ ss) → IsRising low rs
IsRising-left low [] ss h = tt
IsRising-left low (r ∷ rs) ss h = (h.0, IsRising-left r.key rs ss h.1)

pub IsRising-right :
    (low : Bytes) (rs ss : List MemTableRecord)
    → IsRising low (rs ++ ss)
    → IsRising (last_key low rs) ss
IsRising-right low [] ss h = h
IsRising-right low (r ∷ rs) ss h = IsRising-right r.key rs ss h.1

pub IsRising-lt :
    (low : Bytes) (rs ss : List MemTableRecord) (r : MemTableRecord)
    → IsRising low (rs ++ r ∷ ss)
    → low ≺ r.key
IsRising-lt low [] ss r h = h.0
IsRising-lt low (s ∷ rs) ss r h = ≺_trans low s.key r.key h.0 (IsRising-lt s.key rs ss r h.1)

-- A key that is not below a later record is not in front of it.
find_record-above :
    (key low : Bytes) (rs ss : List MemTableRecord) (r : MemTableRecord)
    → IsRising low (rs ++ r ∷ ss)
    → bytes_lt key r.key ≡ false
    → find_record key rs ≡ none
unfolding find_record
find_record-above key low [] ss r h above = refl
find_record-above key low (s ∷ rs) ss r h above =
    let less = IsRising-lt s.key rs ss r h.1 in
    let rest = find_record-above key s.key rs ss r h.1 above in
    ground (arith, less, rest, above, eq_of_compare_bytes s.key key)

-- The data blocks of a file, each with its entry of the sparse index.
abbrev pub Blocks : Type 0
Blocks = List (IndexEntry × List MemTableRecord)

abbrev pub entries : Blocks → List IndexEntry
entries [] = []
entries ((entry, group) ∷ blocks) = entry ∷ entries blocks

abbrev pub block_records : Blocks → List MemTableRecord
block_records [] = []
block_records ((entry, group) ∷ blocks) = group ++ block_records blocks

-- A block has records, and its entry the key of the first one.
abbrev pub IsNamed : IndexEntry × List MemTableRecord → Type 0
IsNamed (entry, group) = (0 < length group) × (entry.first_key ≡ first_key_of group)

-- The block that the index names for a key.
pub record IsCandidate (key : Bytes) (blocks : Blocks) : Type 0 where
  pub entry : IndexEntry
  pub group : List MemTableRecord
  pub low : Bytes
  pub member : Memᴰ (entry, group) blocks
  pub some_blocks : 0 < upper_bound key (entries blocks)
  pub named : get_elem? (entries blocks) (upper_bound key (entries blocks) - 1) ≡ some entry
  pub rising : IsRising low group
  pub finds : find_record key (block_records blocks) ≡ find_record key group

get_elem?_cons :
    (x : IndexEntry) (xs : List IndexEntry) (i : ℕ)
    → 0 < i
    → get_elem? (x ∷ xs) i ≡ get_elem? xs (i - 1)
get_elem?_cons x xs zero h = absurd (omega (arith, h))
get_elem?_cons x xs (suc i) h = let e : suc i - 1 ≡ i = omega arith in rw e refl

-- A block in front of one whose first key is at most `key` does not hold the key.
find_record-before :
    (key low : Bytes) (g : List MemTableRecord) (blocks : Blocks)
    → All IsNamed blocks
    → 0 < upper_bound key (entries blocks)
    → IsRising low (g ++ block_records blocks)
    → find_record key g ≡ none
unfolding upper_bound
find_record-before key low g [] n found h = absurd (omega (arith, found))
find_record-before key low g ((e, []) ∷ blocks) n found h = absurd (omega (arith, n.0.0))
find_record-before key low g ((e, r ∷ rs) ∷ blocks) n found h =
    find_record-above key low g (rs ++ block_records blocks) r h (ground (arith, found, n.0.1))

module _ (key low : Bytes) (e : IndexEntry) (r : MemTableRecord) (rs : List MemTableRecord)
    (blocks : Blocks) (named : e.first_key ≡ r.key)
    (h : IsRising low ((r ∷ rs) ++ block_records blocks)) where
  -- The key is below the first record.
  absent :
      bytes_lt key r.key ≡ true
      → (upper_bound key (entries ((e, r ∷ rs) ∷ blocks)) ≡ 0)
        × (find_record key ((r ∷ rs) ++ block_records blocks) ≡ none)
  unfolding upper_bound
  absent less = (
    ground (arith, less, named),
    find_record-below key key ((r ∷ rs) ++ block_records blocks) (inr refl)
        (ground (arith, less), h.1),
  )

  -- The first block is the last one whose first key is at most `key`.
  here :
      bytes_lt key r.key ≡ false
      → upper_bound key (entries blocks) ≡ 0
      → find_record key (block_records blocks) ≡ none
      → IsCandidate key ((e, r ∷ rs) ∷ blocks)
  unfolding upper_bound
  here above last absent_behind = record {
    entry = e;
    group = r ∷ rs;
    low = low;
    member = head refl;
    some_blocks = ground (arith, above, named);
    named = ground (arith, above, last, named);
    rising = IsRising-left low (r ∷ rs) (block_records blocks) h;
    finds = find_record-append_none key (r ∷ rs) (block_records blocks) absent_behind;
  }

  there :
      bytes_lt key r.key ≡ false
      → All IsNamed blocks
      → IsCandidate key blocks
      → IsCandidate key ((e, r ∷ rs) ∷ blocks)
  unfolding upper_bound
  there above all_named c =
      let counted : upper_bound key (entries ((e, r ∷ rs) ∷ blocks)) - 1
          ≡ upper_bound key (entries blocks) =
        ground (arith, above, named) in
      record {
        entry = c.entry;
        group = c.group;
        low = c.low;
        member = tail c.member;
        some_blocks = ground (arith, above, named);
        named = rw (counted, get_elem?_cons e (entries blocks) _ c.some_blocks) c.named;
        rising = c.rising;
        finds =
            find_record-append key (r ∷ rs) (block_records blocks)
              (find_record-before key low (r ∷ rs) blocks all_named c.some_blocks h)
            ∙ c.finds;
      }

-- Either the key is below all blocks and in none of them, or the index names the block to search.
pub upper_bound-IsCandidate :
    (key low : Bytes) (blocks : Blocks)
    → All IsNamed blocks
    → IsRising low (block_records blocks)
    → ((upper_bound key (entries blocks) ≡ 0) × (find_record key (block_records blocks) ≡ none))
      ⊎ IsCandidate key blocks
unfolding upper_bound find_record
upper_bound-IsCandidate key low [] n h = inl (refl, refl)
upper_bound-IsCandidate key low ((e, []) ∷ blocks) n h = absurd (omega (arith, n.0.0))
upper_bound-IsCandidate key low ((e, r ∷ rs) ∷ blocks) n h =
    elim (Bool-cases (bytes_lt key r.key)) [
      | inl less ↦ inl (absent key low e r rs blocks n.0.1 h less)
      | inr above ↦
          elim (upper_bound-IsCandidate key (last_key low (r ∷ rs)) blocks n.1
            (IsRising-right low (r ∷ rs) (block_records blocks) h)) [
              | inl (last, absent_behind) ↦
                  inr (here key low e r rs blocks n.0.1 h above last absent_behind)
              | inr c ↦ inr (there key low e r rs blocks n.0.1 h above n.1 c)
            ]
    ]

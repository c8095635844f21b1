-- ===== src/Table/Ranges.antt =====
-- The records of a range of keys, and the block that a walk over the range starts from.
use mini_kv_storage_engine.Base.{
  suc, ◌+◌, ◌-◌, ◌≤◌, ◌<◌, ◌≡◌, refl, sym, ap, ◌∙◌, true, false, none, some, Option, List, [], ◌∷◌,
  ◌++◌, arith, length, drop, All, Bool-cases, inl, inr, subst, if◌then◌else◌, ◌==◌,
}
use mini_kv_storage_engine.Bytes.{Bytes, bytes_lt}
use mini_kv_storage_engine.Bytes.Order.{◌≺◌, eq_of_compare_bytes, lt_of_gt, gt_of_lt, ≺_trans}
use mini_kv_storage_engine.MemTable.{MemTableRecord}
use mini_kv_storage_engine.Table.{IndexEntry}
use mini_kv_storage_engine.Table.Read.{upper_bound, lower_bound}
use mini_kv_storage_engine.Table.Verify.{last_key}
use mini_kv_storage_engine.Table.Blocks.{IsRising}
use mini_kv_storage_engine.Table.Groups.{first_key_of}
use mini_kv_storage_engine.Table.Search.{
  Blocks, entries, block_records, IsNamed, IsRising-lt, IsRising-left, IsRising-right,
}
use mini_kv_storage_engine.Table.Lookup.{last_key-le}
use mini_kv_storage_engine.Table.Iterator.{at_end}
use mini_kv_storage_engine.Table.Loaded.{until}

-- The records from a key on.
abbrev pub from : Bytes → List MemTableRecord → List MemTableRecord
from key [] = []
from key (r ∷ rs) = if bytes_lt r.key key then from key rs else r ∷ rs

pub drop-lower_bound :
    (key : Bytes) (rs : List MemTableRecord) → drop (lower_bound key rs) rs ≡ from key rs
unfolding lower_bound
drop-lower_bound key [] = refl
drop-lower_bound key (r ∷ rs) = elim (Bool-cases (bytes_lt r.key key)) [
  | inl below ↦
      let e : lower_bound key rs + 1 ≡ suc (lower_bound key rs) = omega arith in
      rw (below, e) (drop-lower_bound key rs)
  | inr above ↦ rw above refl
]

-- Records that all lie behind the start are all in front of nothing.
from-above :
    (key low : Bytes) (rs : List MemTableRecord) → key ≺ low → IsRising low rs → from key rs ≡ rs
from-above key low [] less h = refl
from-above key low (r ∷ rs) less h =
    ground (arith, gt_of_lt key r.key (≺_trans key low r.key less h.0))

pub from-append :
    (key : Bytes) (rs ss : List MemTableRecord)
    → from key ss ≡ ss
    → from key (rs ++ ss) ≡ from key rs ++ ss
from-append key [] ss h = h
from-append key (r ∷ rs) ss h = ground (arith, from-append key rs ss h)

-- Records in front of one whose key is at most `key` are below it.
from-before :
    (key low : Bytes) (rs ss : List MemTableRecord) (r : MemTableRecord)
    → IsRising low (rs ++ r ∷ ss)
    → bytes_lt key r.key ≡ false
    → from key (rs ++ r ∷ ss) ≡ from key (r ∷ ss)
from-before key low [] ss r h above = refl
from-before key low (s ∷ rs) ss r h above =
    let less = IsRising-lt s.key rs ss r h.1 in
    let below : s.key ≺ key = ground (
      arith,
      above,
      lt_of_gt key r.key,
      eq_of_compare_bytes key r.key,
      ≺_trans s.key r.key key less,
      less,
    ) in
    ground (arith, below, from-before key s.key rs ss r h.1 above)

later_above :
    (key : Bytes) (blocks : Blocks)
    → All IsNamed blocks
    → upper_bound key (entries blocks) ≡ 0
    → from key (block_records blocks) ≡ block_records blocks
unfolding upper_bound
later_above key [] n h = refl
later_above key ((e, []) ∷ blocks) n h = absurd (omega (arith, n.0.0))
later_above key ((e, r ∷ rs) ∷ blocks) n h = ground (arith, h, n.0.1, gt_of_lt key r.key)

-- The block that the search for the start of a range names.
pub record IsFirst (key : Bytes) (blocks : Blocks) : Type 0 where
  pub read_blocks : Blocks
  pub entry : IndexEntry
  pub group : List MemTableRecord
  pub later : Blocks
  pub split : blocks ≡ read_blocks ++ (entry, group) ∷ later
  pub count : length read_blocks ≡ upper_bound key (entries blocks) - 1
  pub behind : from key (block_records later) ≡ block_records later
  pub starts : from key (block_records blocks) ≡ from key (group ++ block_records later)

module _ (key low : Bytes) (e : IndexEntry) (r : MemTableRecord) (rs : List MemTableRecord)
    (blocks : Blocks) (named : e.first_key ≡ r.key)
    (h : IsRising low ((r ∷ rs) ++ block_records blocks)) where
  IsFirst-here :
      upper_bound key (entries ((e, r ∷ rs) ∷ blocks)) ≤ 1
      → from key (block_records blocks) ≡ block_records blocks
      → IsFirst key ((e, r ∷ rs) ∷ blocks)
  IsFirst-here few behind = record {
    read_blocks = [];
    entry = e;
    group = r ∷ rs;
    later = blocks;
    split = refl;
    count = omega (arith, few);
    behind = behind;
    starts = refl;
  }

  IsFirst-there :
      (s : MemTableRecord) (ss : List MemTableRecord)
      → block_records blocks ≡ s ∷ ss
      → bytes_lt key s.key ≡ false
      → bytes_lt key r.key ≡ false
      → 0 < upper_bound key (entries blocks)
      → IsFirst key blocks
      → IsFirst key ((e, r ∷ rs) ∷ blocks)
  unfolding upper_bound
  IsFirst-there s ss next above above' more c =
      let skipped : from key ((r ∷ rs) ++ block_records blocks) ≡ from key (block_records blocks) =
        rw next (
          from-before key low (r ∷ rs) ss s (subst (λ l. IsRising low ((r ∷ rs) ++ l)) next h)
            above) in
      record {
        read_blocks = (e, r ∷ rs) ∷ c.read_blocks;
        entry = c.entry;
        group = c.group;
        later = c.later;
        split = ap (λ l. (e, r ∷ rs) ∷ l) c.split;
        count = ground (arith, named, above', more, c.count);
        behind = c.behind;
        starts = skipped ∙ c.starts;
      }

-- A block with a first key that is at most `key` is counted by the search.
head_above :
    (key : Bytes) (blocks : Blocks)
    → All IsNamed blocks
    → 0 < upper_bound key (entries blocks)
    → (s : MemTableRecord) × (ss : List MemTableRecord) × (block_records blocks ≡ s ∷ ss)
      × (bytes_lt key s.key ≡ false)
unfolding upper_bound
head_above key [] n h = absurd (omega (arith, h))
head_above key ((e, []) ∷ blocks) n h = absurd (omega (arith, n.0.0))
head_above key ((e, r ∷ rs) ∷ blocks) n h =
    (r, rs ++ block_records blocks, refl, ground (arith, h, n.0.1))

last_key-gt :
    (key : Bytes) (r : MemTableRecord) (rs : List MemTableRecord)
    → key ≺ r.key
    → IsRising r.key rs
    → key ≺ last_key r.key rs
last_key-gt key r rs less h = elim (last_key-le r.key rs h) [
  | inl e ↦ subst (λ k. key ≺ k) e less
  | inr below ↦ ≺_trans key r.key (last_key r.key rs) less below
]

pub upper_bound-IsFirst :
    (key low : Bytes) (blocks : Blocks)
    → 0 < length blocks
    → All IsNamed blocks
    → IsRising low (block_records blocks)
    → IsFirst key blocks
unfolding upper_bound
upper_bound-IsFirst key low [] some_blocks n h = absurd (omega (arith, some_blocks))
upper_bound-IsFirst key low ((e, []) ∷ blocks) some_blocks n h = absurd (omega (arith, n.0.0))
upper_bound-IsFirst key low ((e, r ∷ rs) ∷ []) some_blocks n h =
    IsFirst-here key low e r rs [] n.0.1 h (ground (arith, n.0.1)) refl
upper_bound-IsFirst key low ((e, r ∷ rs) ∷ (b ∷ blocks)) some_blocks n h =
    let after = b ∷ blocks in
    let h' = IsRising-right low (r ∷ rs) (block_records after) h in
    elim (Bool-cases (bytes_lt key r.key)) [
      | inl less ↦ IsFirst-here key low e r rs after n.0.1 h (ground (arith, less, n.0.1)) (
          from-above key (last_key low (r ∷ rs)) (block_records after)
            (last_key-gt key r rs (ground (arith, less))
              (IsRising-left low (r ∷ rs) (block_records after) h).1)
            h')
      | inr above ↦ elim (Bool-cases (upper_bound key (entries after) == 0)) [
        | inl none_ ↦
            IsFirst-here key low e r rs after n.0.1 h (ground (arith, none_, n.0.1))
              (later_above key after n.1 (ground (arith, none_)))
        | inr some_ ↦
            let more : 0 < upper_bound key (entries after) = ground (arith, some_) in
            let (s, ss, next, above') = head_above key after n.1 more in
            IsFirst-there key low e r rs after n.0.1 h s ss next above' above more
              (upper_bound-IsFirst key (last_key low (r ∷ rs)) (b ∷ blocks) (omega arith) n.1 h')
      ]
    ]

-- Where all keys are below the start, no record lies in the range.
pub from-past :
    (key low : Bytes) (rs : List MemTableRecord)
    → IsRising low rs
    → last_key low rs ≺ key
    → from key rs ≡ []
from-past key low [] h past = refl
from-past key low (r ∷ rs) h past =
    let less : r.key ≺ key = elim (last_key-le r.key rs h.1) [
      | inl e ↦ subst (λ k. k ≺ key) (sym e) past
      | inr below ↦ ≺_trans r.key (last_key r.key rs) key below past
    ] in
    ground (arith, less, from-past key r.key rs h.1 past)

at_end_mono :
    (k k' : Bytes) (end : Option Bytes) → k ≺ k' → at_end k end ≡ true → at_end k' end ≡ true
at_end_mono k k' none less h = h
at_end_mono k k' (some end) less h = ground (
  arith,
  h,
  less,
  lt_of_gt end k',
  lt_of_gt end k,
  eq_of_compare_bytes end k,
  ≺_trans k k' end,
  ≺_trans end k k',
  gt_of_lt k k',
)

pub until-from_end :
    (key low : Bytes) (end : Option Bytes) (rs : List MemTableRecord)
    → IsRising low rs
    → at_end low end ≡ true
    → until end (from key rs) ≡ []
until-from_end key low end [] h past = refl
until-from_end key low end (r ∷ rs) h past =
    let past' = at_end_mono low r.key end h.0 past in
    ground (arith, past', until-from_end key r.key end rs h.1 past')

pub until-from_same : (key : Bytes) (rs : List MemTableRecord) → until (some key) (from key rs) ≡ []
until-from_same key [] = refl
until-from_same key (r ∷ rs) = ground (
  arith,
  until-from_same key rs,
  lt_of_gt r.key key,
  gt_of_lt r.key key,
  lt_of_gt key r.key,
  eq_of_compare_bytes r.key key,
)

pub until-from_first :
    (key : Bytes) (end : Option Bytes) (low : Bytes) (rs : List MemTableRecord)
    → IsRising low rs
    → at_end (first_key_of rs) end ≡ true
    → until end (from key rs) ≡ []
until-from_first key end low [] h past = refl
until-from_first key end low (r ∷ rs) h past =
    ground (arith, past, until-from_end key r.key end rs h.1 past)

pub upper_bound-nil :
    (blocks : Blocks)
    → All IsNamed blocks
    → IsRising [] (block_records blocks)
    → upper_bound [] (entries blocks) ≡ 0
unfolding upper_bound
upper_bound-nil [] n h = refl
upper_bound-nil ((e, []) ∷ blocks) n h = absurd (omega (arith, n.0.0))
upper_bound-nil ((e, r ∷ rs) ∷ blocks) n h = ground (arith, n.0.1, h.0)

pub length-until-le :
    (end : Option Bytes) (rs : List MemTableRecord) → length (until end rs) ≤ length rs
length-until-le end [] = omega arith
length-until-le end (r ∷ rs) = ground (arith, length-until-le end rs)

pub length-from-le : (key : Bytes) (rs : List MemTableRecord) → length (from key rs) ≤ length rs
length-from-le key [] = omega arith
length-from-le key (r ∷ rs) = ground (arith, length-from-le key rs)

-- ===== src/Manifest/Ranges.antt =====
-- What ValidateVersion establishes: the key ranges of level one do not overlap.
use mathlib.Core.List.{Memᴰ}
use mathlib.Core.List.Memᴰ.{head, tail}
use mini_kv_storage_engine.Base.{
  ℕ, All-in, ◌≡◌, sym, ap, subst, ◌∙◌, Bool, true, false, List, [], ◌∷◌, ◌⊎◌, inl, inr, arith, All,
  ◌==◌, Bool-cases,
}
use mini_kv_storage_engine.Bytes.{bytes_lt}
use mini_kv_storage_engine.Bytes.Order.{◌≺◌, ≺_trans, lt_of_gt, eq_of_compare_bytes}
use mini_kv_storage_engine.Status.{is_ok}
use mini_kv_storage_engine.Config.{Options}
use mini_kv_storage_engine.Manifest.{
  Version, VersionTable, tables_valid, level_one_tables, insert_by, sort_by, key_less, overlaps,
  any_overlap, validate_version,
}

-- All of the first table's keys lie below all of the second one's.
abbrev pub Before : VersionTable → VersionTable → Type 0
Before t u = t.metadata.maximum_key ≺ u.metadata.minimum_key

-- `minimum_key <= maximum_key`
abbrev IsRange : VersionTable → Type 0
IsRange t = bytes_lt t.metadata.maximum_key t.metadata.minimum_key ≡ false

-- Each table lies below all that follow it.
abbrev IsChain : List VersionTable → Type 0
IsChain [] = Unit
IsChain (t ∷ ts) = All (Before t) ts × IsChain ts

Before-trans : (t u v : VersionTable) → Before t u → IsRange u → Before u v → Before t v
Before-trans t u v p r q = ground (
  arith,
  r,
  ≺_trans t.metadata.maximum_key u.metadata.minimum_key u.metadata.maximum_key p,
  ≺_trans t.metadata.maximum_key u.metadata.maximum_key v.metadata.minimum_key,
  lt_of_gt u.metadata.maximum_key u.metadata.minimum_key,
  eq_of_compare_bytes u.metadata.maximum_key u.metadata.minimum_key,
  p,
  q,
)

overlaps-All :
    (t : VersionTable) (u : VersionTable) (us : List VersionTable)
    → Before t u
    → IsRange u
    → All (Before u) us
    → All (Before t) us
overlaps-All t u [] p r a = tt
overlaps-All t u (v ∷ us) p r a = (Before-trans t u v p r a.0, overlaps-All t u us p r a.1)

-- Neighbours that do not overlap, with keys in order within each, make a chain.
overlaps-IsChain :
    (t : VersionTable) (ts : List VersionTable)
    → overlaps t ts ≡ false
    → All IsRange ts
    → IsChain (t ∷ ts)
unfolding overlaps
overlaps-IsChain t [] e r = (tt, tt)
overlaps-IsChain t (u ∷ us) e r =
    let (above, later) = overlaps-IsChain u us (ground (arith, e)) r.1 in
    let next : Before t u =
      ground (arith, e, lt_of_gt u.metadata.minimum_key t.metadata.maximum_key) in
    ((next, overlaps-All t u us next r.0 above), (above, later))

any_overlap-IsChain :
    (ts : List VersionTable) → any_overlap ts ≡ false → All IsRange ts → IsChain ts
unfolding any_overlap
any_overlap-IsChain [] e r = tt
any_overlap-IsChain (t ∷ ts) e r = overlaps-IsChain t ts e r.1

-- Any two tables of a chain are the same, or one lies below the other.
apart :
    {t u : VersionTable} (ts : List VersionTable)
    → IsChain ts
    → Memᴰ t ts
    → Memᴰ u ts
    → (t ≡ u) ⊎ (Before t u ⊎ Before u t)
apart [] c m m' = elim m [ ]
apart (v ∷ vs) c (head e) (head e') = inl (e ∙ sym e')
apart {t} {u} (v ∷ vs) c (head e) (tail m) =
    inr (inl (subst (λ x. Before x u) (sym e) (All-in (Before v) vs c.0 m)))
apart {t} {u} (v ∷ vs) c (tail m) (head e) =
    inr (inr (subst (λ x. Before x t) (sym e) (All-in (Before v) vs c.0 m)))
apart (v ∷ vs) c (tail m) (tail m') = apart vs c.1 m m'

module _ (less : VersionTable → VersionTable → Bool) where
  in-insert :
      {x : VersionTable} (t : VersionTable) (ts : List VersionTable)
      → Memᴰ x (t ∷ ts)
      → Memᴰ x (insert_by less t ts)
  unfolding insert_by
  in-insert t [] m = m
  in-insert t (u ∷ us) m = elim (Bool-cases (less u t)) [
    | inr before ↦ rw before m
    | inl after ↦ rw after (elim m [
      | head e ↦ tail (in-insert t us (head e))
      | tail m' ↦ elim m' [ head e ↦ head e | tail m'' ↦ tail (in-insert t us (tail m'')) ]
    ])
  ]

  in-sort : {x : VersionTable} (ts : List VersionTable) → Memᴰ x ts → Memᴰ x (sort_by less ts)
  unfolding sort_by
  in-sort [] m = elim m [ ]
  in-sort (t ∷ ts) (head e) = in-insert t (sort_by less ts) (head e)
  in-sort (t ∷ ts) (tail m) = in-insert t (sort_by less ts) (tail (in-sort ts m))

  ranges-insert :
      (t : VersionTable) (ts : List VersionTable)
      → IsRange t
      → All IsRange ts
      → All IsRange (insert_by less t ts)
  unfolding insert_by
  ranges-insert t [] r a = (r, tt)
  ranges-insert t (u ∷ us) r a = ground (arith, ranges-insert t us r a.1, r, a)

  ranges-sort : (ts : List VersionTable) → All IsRange ts → All IsRange (sort_by less ts)
  unfolding sort_by
  ranges-sort [] a = tt
  ranges-sort (t ∷ ts) a = ranges-insert t (sort_by less ts) a.0 (ranges-sort ts a.1)

in-level_one :
    {x : VersionTable} (ts : List VersionTable)
    → Memᴰ x ts
    → x.level ≡ 1
    → Memᴰ x (level_one_tables ts)
unfolding level_one_tables
in-level_one [] m one = elim m [ ]
in-level_one {x} (t ∷ ts) (head e) one =
    let here : t.level ≡ 1 = ap (λ y. y.level) (sym e) ∙ one in
    let test : (t.level == 1) ≡ true = ground (arith, here) in rw test (head e)
in-level_one (t ∷ ts) (tail m) one = elim (Bool-cases (t.level == 1)) [
  | inl keeps ↦ rw keeps (tail (in-level_one ts m one))
  | inr drops ↦ rw drops (in-level_one ts m one)
]

ranges-level_one :
    (o : Options) (next : ℕ) (seen : List ℕ) (ts : List VersionTable)
    → tables_valid o next seen ts ≡ true
    → All IsRange (level_one_tables ts)
unfolding tables_valid level_one_tables
ranges-level_one o next seen [] e = tt
ranges-level_one o next seen (t ∷ ts) e =
    let rest = ranges-level_one o next (t.metadata.generation ∷ seen) ts (ground (arith, e)) in
    ground (arith, e, rest)

-- Any two level-one tables of a version that ValidateVersion accepts are the same, or all keys of
-- one of them lie below all keys of the other.
pub ranges-disjoint :
    (version : Version) (options : Options) (t u : VersionTable)
    → is_ok (validate_version version options) ≡ true
    → Memᴰ t version.tables
    → Memᴰ u version.tables
    → t.level ≡ 1
    → u.level ≡ 1
    → (t ≡ u) ⊎ (Before t u ⊎ Before u t)
unfolding validate_version
ranges-disjoint version options t u e m m' one one' =
    let sorted = sort_by key_less (level_one_tables version.tables) in
    let ranges =
      ranges-sort key_less (level_one_tables version.tables)
        (ranges-level_one options version.next_file_number [] version.tables (ground (arith, e))) in
    apart sorted (any_overlap-IsChain sorted (ground (arith, e)) ranges)
      (in-sort key_less (level_one_tables version.tables) (in-level_one version.tables m one))
      (in-sort key_less (level_one_tables version.tables) (in-level_one version.tables m' one'))

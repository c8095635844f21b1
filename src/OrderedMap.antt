-- ===== src/OrderedMap.antt =====
-- What memtable.cpp uses of std::map<std::string, Entry, std::less<>>: the entries in key order.
use Prim.Native.Nat.{Ordering}
use mini_kv_storage_engine.Base.{
  ℕ, ◌+◌, ◌≤◌, ◌≡◌, refl, Option, none, some, List, [], ◌∷◌, arith, if◌then◌else◌, All,
}
use mini_kv_storage_engine.Bytes.{Bytes, compare_bytes, bytes_eq}
use mini_kv_storage_engine.Bytes.Order.{
  ◌≺◌, compare_bytes_refl, eq_of_compare_bytes, lt_of_gt, ≺_trans,
}

abbrev pub OrderedMap {ℓ} : Type ℓ → Type ℓ
OrderedMap V = List (Bytes × V)

module _ {ℓ} {V : Type ℓ} where
  -- `find(key)`, `none` for `end()`
  unfoldable pub find : Bytes → OrderedMap V → Option V
  find k [] = none
  find k ((j, v) ∷ m) = if bytes_eq k j then some v else find k m

  -- `emplace` where the key is new, assignment through the iterator where it is there
  unfoldable pub insert : Bytes → V → OrderedMap V → OrderedMap V
  insert k v [] = (k, v) ∷ []
  insert k v ((j, w) ∷ m) =
      let rest = insert k v m in
      elim (compare_bytes k j) [
        | Ordering.lt ↦ (k, v) ∷ (j, w) ∷ m
        | Ordering.eq ↦ (k, v) ∷ m
        | Ordering.gt ↦ (j, w) ∷ rest
      ]

  -- Every key lies above `k`.
  abbrev pub Above : Bytes → OrderedMap V → Type 0
  Above k [] = Unit
  Above k ((j, v) ∷ m) = (k ≺ j) × Above k m

  -- The keys rise strictly.
  abbrev pub IsOrdered : OrderedMap V → Type 0
  IsOrdered [] = Unit
  IsOrdered ((k, v) ∷ m) = Above k m × IsOrdered m

  pub find-insert :
      (k q : Bytes) (v : V) (m : OrderedMap V)
      → find q (insert k v m) ≡ (if bytes_eq q k then some v else find q m)
  unfolding find insert
  find-insert k q v [] = refl
  find-insert k q v ((j, w) ∷ m) = ground (
    arith,
    find-insert k q v m,
    eq_of_compare_bytes k j,
    eq_of_compare_bytes q j,
    eq_of_compare_bytes q k,
    compare_bytes_refl k,
  )

  Above-trans : (k j : Bytes) (m : OrderedMap V) → k ≺ j → Above j m → Above k m
  Above-trans k j [] h a = tt
  Above-trans k j ((i, v) ∷ m) h a = (≺_trans k j i h a.0, Above-trans k j m h a.1)

  Above-insert :
      (k j : Bytes) (v : V) (m : OrderedMap V) → j ≺ k → Above j m → Above j (insert k v m)
  unfolding insert
  Above-insert k j v [] h a = (h, tt)
  Above-insert k j v ((i, w) ∷ m) h a = ground (arith, Above-insert k j v m h a.1, a)

  pub insert-IsOrdered :
      (k : Bytes) (v : V) (m : OrderedMap V) → IsOrdered m → IsOrdered (insert k v m)
  unfolding insert
  insert-IsOrdered k v [] h = (tt, tt)
  insert-IsOrdered k v ((j, w) ∷ m) h = ground (
    arith,
    insert-IsOrdered k v m h.1,
    Above-trans k j m,
    Above-insert k j v m,
    lt_of_gt k j,
    eq_of_compare_bytes k j,
    h,
  )

  pub All-insert {κ} :
      (P : Bytes × V → Type κ) (k : Bytes) (v : V) (m : OrderedMap V)
      → P (k, v)
      → All P m
      → All P (insert k v m)
  unfolding insert
  All-insert P k v [] p h = (p, h)
  All-insert P k v ((j, w) ∷ m) p h = ground (arith, All-insert P k v m p h.1, p, h)

  -- What an insertion adds to a sum over the entries, with what the replaced entry counted.
  abbrev pub total : (Bytes → V → ℕ) → OrderedMap V → ℕ
  total f [] = 0
  total f ((k, v) ∷ m) = f k v + total f m

  abbrev pub counted : (Bytes → V → ℕ) → Bytes → Option V → ℕ
  counted f k none = 0
  counted f k (some v) = f k v

  -- In an ordered map the key of an insertion is met before any greater key.
  find-Above : (k : Bytes) (m : OrderedMap V) → Above k m → find k m ≡ none
  unfolding find
  find-Above k [] a = refl
  find-Above k ((j, w) ∷ m) a = ground (arith, find-Above k m, a)

  Above-find-lt : (k j : Bytes) (m : OrderedMap V) → k ≺ j → Above j m → find k m ≡ none
  Above-find-lt k j m h a = find-Above k m (Above-trans k j m h a)

  pub total-insert :
      (f : Bytes → V → ℕ) (k : Bytes) (v : V) (m : OrderedMap V)
      → IsOrdered m
      → total f (insert k v m) + counted f k (find k m) ≡ total f m + f k v
  unfolding find insert
  total-insert f k v [] h = omega arith
  total-insert f k v ((j, w) ∷ m) h =
      ground (arith, total-insert f k v m h.1, Above-find-lt k j m, eq_of_compare_bytes k j, h)

  pub counted-le-total :
      (f : Bytes → V → ℕ) (k : Bytes) (m : OrderedMap V) → counted f k (find k m) ≤ total f m
  unfolding find
  counted-le-total f k [] = omega arith
  counted-le-total f k ((j, w) ∷ m) =
      ground (arith, counted-le-total f k m, eq_of_compare_bytes k j)

  pub All-map {κ κ'} :
      (P : Bytes × V → Type κ) (Q : Bytes × V → Type κ')
      → ((e : Bytes × V) → P e → Q e)
      → (m : OrderedMap V) → All P m
      → All Q m
  All-map P Q f [] h = tt
  All-map P Q f (e ∷ m) h = (f e h.0, All-map P Q f m h.1)

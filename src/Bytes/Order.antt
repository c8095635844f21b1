-- ===== src/Bytes/Order.antt =====
-- The order of byte strings is a strict total order.
use Prim.Native.Nat.{Ordering}
use mini_kv_storage_engine.Base.{◌≡◌, refl, [], ◌∷◌, arith}
use mini_kv_storage_engine.Bytes.{Bytes, compare_bytes}

infix 50 ◌≺◌
abbrev pub ◌≺◌ : Bytes → Bytes → Type 0
a ≺ b = compare_bytes a b ≡ Ordering.lt

pub compare_bytes_refl : (a : Bytes) → compare_bytes a a ≡ Ordering.eq
unfolding compare_bytes
compare_bytes_refl [] = refl
compare_bytes_refl (a ∷ as') = ground (arith, compare_bytes_refl as')

pub eq_of_compare_bytes : (a b : Bytes) → compare_bytes a b ≡ Ordering.eq → a ≡ b
unfolding compare_bytes
eq_of_compare_bytes [] [] h = refl
eq_of_compare_bytes [] (b ∷ bs) h = cc
eq_of_compare_bytes (a ∷ as') [] h = cc
eq_of_compare_bytes (a ∷ as') (b ∷ bs) h = ground (arith, eq_of_compare_bytes as' bs)

pub lt_of_gt : (a b : Bytes) → compare_bytes a b ≡ Ordering.gt → b ≺ a
unfolding compare_bytes
lt_of_gt [] [] h = cc
lt_of_gt [] (b ∷ bs) h = cc
lt_of_gt (a ∷ as') [] h = refl
lt_of_gt (a ∷ as') (b ∷ bs) h = ground (arith, lt_of_gt as' bs)

pub gt_of_lt : (a b : Bytes) → a ≺ b → compare_bytes b a ≡ Ordering.gt
unfolding compare_bytes
gt_of_lt [] [] h = cc
gt_of_lt [] (b ∷ bs) h = refl
gt_of_lt (a ∷ as') [] h = cc
gt_of_lt (a ∷ as') (b ∷ bs) h = ground (arith, gt_of_lt as' bs)

pub ≺_trans : (a b c : Bytes) → a ≺ b → b ≺ c → a ≺ c
unfolding compare_bytes
≺_trans [] [] c p q = cc
≺_trans [] (b ∷ bs) [] p q = cc
≺_trans [] (b ∷ bs) (c ∷ cs) p q = refl
≺_trans (a ∷ as') [] c p q = cc
≺_trans (a ∷ as') (b ∷ bs) [] p q = cc
≺_trans (a ∷ as') (b ∷ bs) (c ∷ cs) p q = ground (arith, ≺_trans as' bs cs)

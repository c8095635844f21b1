-- ===== src/Bytes.antt =====
-- std::string and std::string_view as lists of bytes, with the order of std::string::compare.
pub mod Order
use Prim.Native.Nat.{compare, Ordering}
use mini_kv_storage_engine.Base.{
  ℕ, zero, suc, ◌<◌, Bool, true, false, List, [], ◌∷◌, length, All, drop, take,
}

abbrev pub Bytes : Type 0
Bytes = List ℕ

abbrev pub IsByte : ℕ → Type 0
IsByte b = b < 256

-- Bytes compare as unsigned characters, and a proper prefix comes first.
unfoldable pub compare_bytes : Bytes → Bytes → Ordering
compare_bytes [] [] = Ordering.eq
compare_bytes [] (b ∷ bs) = Ordering.lt
compare_bytes (a ∷ as') [] = Ordering.gt
compare_bytes (a ∷ as') (b ∷ bs) =
    let rest = compare_bytes as' bs in
    elim (compare a b) [
      | Ordering.lt ↦ Ordering.lt
      | Ordering.eq ↦ rest
      | Ordering.gt ↦ Ordering.gt
    ]

abbrev pub bytes_lt : Bytes → Bytes → Bool
bytes_lt a b = elim (compare_bytes a b) [ Ordering.lt ↦ true | _ ↦ false ]

abbrev pub bytes_le : Bytes → Bytes → Bool
bytes_le a b = elim (compare_bytes a b) [ Ordering.gt ↦ false | _ ↦ true ]

abbrev pub bytes_eq : Bytes → Bytes → Bool
bytes_eq a b = elim (compare_bytes a b) [ Ordering.eq ↦ true | _ ↦ false ]

abbrev pub is_empty : Bytes → Bool
is_empty [] = true
is_empty (b ∷ bs) = false

-- `substr(offset, size)`
abbrev pub substr : Bytes → ℕ → ℕ → Bytes
substr s offset size = take size (drop offset s)

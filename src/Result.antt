-- ===== src/Result.antt =====
-- A fallible operation: its outputs, or the status that is not OK which it returned.
-- `do` blocks are the code's chains of `if (!status.ok()) return status;`.
use mini_kv_storage_engine.Base.{◌≡◌, refl, ◌⊎◌, inl, inr, Bool, true, false, if◌then◌else◌}
use mini_kv_storage_engine.Status.{Status, is_ok}

pub data Result {ℓ} (A : Type ℓ) : Type ℓ where
  ok : A → Result A
  err : Status → Result A

infixl 5 ◌>>=◌ ◌>>◌
-- The next call runs only where the one before it succeeded.
abbrev pub ◌>>=◌ {ℓ κ} :
    {Out : Type ℓ} {Next : Type κ} → Result Out → (Out → Result Next) → Result Next
err status >>= next = err status
ok output >>= next = next output

abbrev pub ◌>>◌ {ℓ} : {Next : Type ℓ} → Result (Unit {0}) → Result Next → Result Next
checked >> next = checked >>= λ _. next

-- `if (bad) return status;`
abbrev pub fail_if : Bool → Status → Result (Unit {0})
fail_if true e = err e
fail_if false e = ok tt

-- `if (!status.ok()) return status;`
abbrev pub check : Status → Result (Unit {0})
check s = if is_ok s then ok tt else err s

pub Result-cases {ℓ} :
    {Out : Type ℓ} (call : Result Out)
    → ((output : Out) × (call ≡ ok output)) ⊎ ((status : Status) × (call ≡ err status))
Result-cases (ok output) = inl (output, refl)
Result-cases (err status) = inr (status, refl)

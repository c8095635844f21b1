-- ===== src/Io.antt =====
-- Operations on the outside world `S` (a file, a directory). `none` says that the fuel of a loop
-- ran out; otherwise the operation returned, with an error status or its outputs.
use mini_kv_storage_engine.Base.{Option, none, some}
use mini_kv_storage_engine.Status.{Status}
use mini_kv_storage_engine.Result.{Result, ok, err, check}

abbrev pub Io {ℓ} : Type ℓ → Type ℓ → Type ℓ
Io S A = S → Option (Result A × S)

module _ {ℓ} {S A : Type ℓ} where
  abbrev pub pure : A → Io S A
  pure a s = some (ok a, s)

  abbrev pub fail : Status → Io S A
  fail e s = some (err e, s)

  abbrev pub lift : Result A → Io S A
  lift r s = some (r, s)

module _ {ℓ} {S A B : Type ℓ} where
  abbrev continue : Result A → (A → Io S B) → Io S B
  continue (ok a) f s = f a s
  continue (err e) f s = some (err e, s)

  abbrev outcome : Option (Result A × S) → (A → Io S B) → Option (Result B × S)
  outcome none f = none
  outcome (some (r, s)) f = continue r f s

  infixl 5 ◌>>=◌ ◌>>◌
  abbrev pub ◌>>=◌ : Io S A → (A → Io S B) → Io S B
  ◌>>=◌ m f s = outcome (m s) f

  abbrev pub ◌>>◌ : Io S A → Io S B → Io S B
  m >> n = m >>= λ _. n

-- A call that reports a status: `if (!status.ok()) return status;`
abbrev pub checked : {S : Type 0} → (S → Status × S) → Io S (Unit {0})
checked call s = let (status, s') = call s in some (check status, s')

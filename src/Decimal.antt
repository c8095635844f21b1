-- ===== src/Decimal.antt =====
-- `std::to_string` of an unsigned 64-bit number, which has at most twenty digits.
use Prim.Native.String.{◌++◌ as concat}
use mini_kv_storage_engine.Base.{ℕ, zero, suc, ◌/◌, ◌%◌, String, ltb, if◌then◌else◌, ◌≡◌, refl}

digit : ℕ → String
digit zero = "0"
digit (suc zero) = "1"
digit (suc (suc zero)) = "2"
digit (suc (suc (suc zero))) = "3"
digit (suc (suc (suc (suc zero)))) = "4"
digit (suc (suc (suc (suc (suc zero))))) = "5"
digit (suc (suc (suc (suc (suc (suc zero)))))) = "6"
digit (suc (suc (suc (suc (suc (suc (suc zero))))))) = "7"
digit (suc (suc (suc (suc (suc (suc (suc (suc zero)))))))) = "8"
digit _ = "9"

digits : ℕ → ℕ → String
digits zero n = ""
digits (suc left) n =
    let front = digits left (n / 10) in if ltb n 10 then digit n else concat front (digit (n % 10))

unfoldable pub decimal : ℕ → String
unfolding digits digit
decimal n = digits 20 n

decimal_runs : decimal 18446744073709551615 ≡ "18446744073709551615"
unfolding decimal
decimal_runs = refl

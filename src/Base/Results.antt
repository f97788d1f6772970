-- ===== src/Base/Results.antt =====
-- `std::runtime_error` as a value: a function that may throw returns a `Result`.
use mathlib.Core.Bool.{Bool, true, false}
use mtdd_server.Base.Text.{Bytes}

pub data Result {ℓ} (A : Type ℓ) : Type ℓ where
  ok : A → Result A
  throw : Bytes → Result A

module _ {ℓ κ} {A : Type ℓ} {B : Type κ} where
  infixl 5 ◌>>=◌
  abbrev pub ◌>>=◌ : Result A → (A → Result B) → Result B
  (throw message) >>= next = throw message
  (ok value) >>= next = next value

module _ {κ} {B : Type κ} where
  infixl 5 ◌>>◌
  abbrev pub ◌>>◌ : Result (Unit {0}) → Result B → Result B
  check >> rest = check >>= λ done. rest

-- if (b) throw std::runtime_error(e);
abbrev pub throw_if : Bool → Bytes → Result (Unit {0})
throw_if true e = throw e
throw_if false e = ok tt

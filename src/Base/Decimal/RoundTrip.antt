-- ===== src/Base/Decimal/RoundTrip.antt =====
-- std::strtol reads back what std::to_string writes.
use mtdd_server.Base.Tests.{ltb, Bool-cases}
use mtdd_server.Base.Text.{Bytes}
use mtdd_server.Base.Lists.{All}
use mtdd_server.Base.Int.{pos}
use mtdd_server.Base.Decimal.{digits, to_string, scan, strtol}
use Prim.Native.Nat.{ℕ, zero, suc, ◌+◌, ◌-◌, ◌*◌, ◌/◌, ◌%◌, ◌^◌, ◌≤◌, ◌<◌}
use mathlib.Core.Path.{◌≡◌, refl, ◌∙◌}
use mathlib.Core.Logic.{inl, inr}
use mathlib.Core.Option.{some}
use mathlib.Core.List.{[], ◌∷◌}
use native.Mathlib.Omega.{arith}

abbrev pub IsDigit : ℕ → Type 0
IsDigit c = (b'0' ≤ c) × (c ≤ b'9')

-- The digits of `n`, read from 0, leave `n` for what stands behind them.
scan-digits : (fuel n : ℕ) (out : Bytes) → n < fuel → scan 10 0 (digits fuel n out) ≡ scan 10 n out
unfolding digits scan
scan-digits zero n out h = absurd (omega arith)
scan-digits (suc fuel) n out h = elim (Bool-cases (ltb n 10)) [
  | inl small ↦ ground arith
  | inr large ↦ rw large (scan-digits fuel (n / 10) ((b'0' + n % 10) ∷ out) (ground arith) ∙ step)
]
  where
    step : scan 10 (n / 10) ((b'0' + n % 10) ∷ out) ≡ scan 10 n out
    step = let v : n / 10 * 10 + (b'0' + n % 10 - b'0') ≡ n = omega arith in ground (arith, v)

digits-IsDigit :
    (fuel n : ℕ) (out : Bytes) → n < fuel → All IsDigit out → All IsDigit (digits fuel n out)
unfolding digits
digits-IsDigit zero n out h d = absurd (omega arith)
digits-IsDigit (suc fuel) n out h d = elim (Bool-cases (ltb n 10)) [
  | inl small ↦ rw small ((ground arith, d))
  | inr large ↦
      rw large
        (digits-IsDigit fuel (n / 10) ((b'0' + n % 10) ∷ out) (ground arith) (omega arith, d))
]

pub to_string-IsDigit : (n : ℕ) → All IsDigit (to_string n)
unfolding to_string
to_string-IsDigit n = digits-IsDigit (suc n) n [] (omega arith) tt

digits_nonempty :
    (fuel n c : ℕ) (s : Bytes) → (d : ℕ) × (t : Bytes) × (digits fuel n (c ∷ s) ≡ d ∷ t)
unfolding digits
digits_nonempty zero n c s = (c, s, refl)
digits_nonempty (suc fuel) n c s = elim (Bool-cases (ltb n 10)) [
  | inl small ↦ (b'0' + n, c ∷ s, rw small)
  | inr large ↦ rw large (digits_nonempty fuel (n / 10) (b'0' + n % 10) (c ∷ s))
]

pub to_string_nonempty : (n : ℕ) → (d : ℕ) × (t : Bytes) × (to_string n ≡ d ∷ t)
unfolding to_string digits
to_string_nonempty n = elim (Bool-cases (ltb n 10)) [
  | inl small ↦ (b'0' + n, [], rw small)
  | inr large ↦ rw large (digits_nonempty n (n / 10) (b'0' + n % 10) [])
]

-- A text of digits is scanned from its first byte: no space and no sign stands in front.
strtol_digits :
    (c : ℕ) (s : Bytes) (n : ℕ)
    → IsDigit c
    → scan 10 0 (c ∷ s) ≡ (n, [])
    → n < 2 ^ 63
    → strtol 10 (c ∷ s) ≡ some (pos n, [])
unfolding strtol
strtol_digits c s n d e h = ground arith

pub strtol-to_string : (n : ℕ) → n < 2 ^ 63 → strtol 10 (to_string n) ≡ some (pos n, [])
strtol-to_string n h =
    let (c, s, e) = to_string_nonempty n in
    rw e (
      strtol_digits c s n (rw e at (to_string-IsDigit n)).0
        (rw (← e) (unfold to_string scan in scan-digits (suc n) n [] (omega arith))) h)

-- ===== src/Base/Decimal.antt =====
-- std::to_string of a non-negative integer, and std::strtol.
pub mod RoundTrip
use Prim.Native.Nat.{ℕ, zero, suc, ◌+◌, ◌-◌, ◌*◌, ◌/◌, ◌%◌, ◌^◌, ◌≤◌, ◌<◌}
use mathlib.Core.Path.{◌≡◌, refl, ◌∙◌, ap, sym}
use mathlib.Core.Bool.{Bool, true, false, ◌&&◌, ◌||◌}
use mathlib.Core.Option.{Option, none, some}
use mathlib.Core.List.{List, [], ◌∷◌, ◌++◌}
use native.Mathlib.Omega.{arith}
use mtdd_server.Base.Tests.{ltb, leb, ◌==◌, if◌then◌else◌}
use mtdd_server.Base.Text.{Bytes, codes}
use mtdd_server.Base.Int.{ℤ, pos, negsuc, neg}

-- The decimal digits of `n`, with the value that the digits in front have to reach: `fuel` bounds
-- the number of digits.
unfoldable pub digits : ℕ → ℕ → Bytes → Bytes
digits zero n out = out
digits (suc fuel) n out =
    let more = digits fuel (n / 10) ((b'0' + n % 10) ∷ out) in
    if ltb n 10 then (b'0' + n) ∷ out else more

-- std::to_string(n). A number is at least as large as it has digits, less one.
unfoldable pub to_string : ℕ → Bytes
unfolding digits
to_string n = digits (suc n) n []

-- std::isspace in the "C" locale.
abbrev pub is_space : ℕ → Bool
is_space c = c == b' ' || leb 9 c && leb c 13

unfoldable pub skip_spaces : Bytes → Bytes
skip_spaces [] = []
skip_spaces (c ∷ s) = let rest = skip_spaces s in if is_space c then rest else c ∷ s

-- The digits of the base at the head of `s`, read behind the value `acc`: the value and the rest.
unfoldable pub scan : ℕ → ℕ → Bytes → ℕ × Bytes
scan base acc [] = (acc, [])
scan base acc (c ∷ s) =
    let rest = scan base (acc * base + (c - b'0')) s in
    if leb b'0' c && ltb c (b'0' + base) then rest else (acc, c ∷ s)

-- The digits behind a sign: at least one, and saturation at the ends of `long`.
unfoldable pub scan_signed : Bool → ℕ → Bytes → Option (ℤ × Bytes)
scan_signed negative base [] = none
scan_signed negative base (c ∷ s) =
    if leb b'0' c && ltb c (b'0' + base)
    then (let (n, rest) = scan base 0 (c ∷ s) in
        some (
          (if negative
              then (if ltb (2 ^ 63) n then neg (2 ^ 63) else neg n)
              else (if ltb (2 ^ 63 - 1) n then pos (2 ^ 63 - 1) else pos n)),
          rest,
        ))
    else none

unfoldable pub strtol_sign : ℕ → Bytes → Option (ℤ × Bytes)
unfolding scan_signed
strtol_sign base [] = none
strtol_sign base (c ∷ s) =
    if c == b'-'
    then scan_signed true base s
    else if c == b'+'
    then scan_signed false base s
    else scan_signed false base (c ∷ s)

-- std::strtol(s, &end, base) for a base of at most ten: the value and what `end` points to, or
-- `none` where no conversion is made and `end` is `s`.
unfoldable pub strtol : ℕ → Bytes → Option (ℤ × Bytes)
unfolding strtol_sign skip_spaces
strtol base s = strtol_sign base (skip_spaces s)

test_strtol : strtol 10 (codes " -12x") ≡ some (negsuc 11, codes "x")
unfolding strtol scan
test_strtol = refl

test_to_string : to_string 5432 ≡ codes "5432"
unfolding to_string
test_to_string = refl

-- std::to_string of a signed integer.
abbrev pub to_string_ℤ : ℤ → Bytes
to_string_ℤ (pos n) = to_string n
to_string_ℤ (negsuc n) = b'-' ∷ to_string (suc n)

-- ===== src/Text/Decimal.antt =====
-- Decimal integers of math/big: `SetString(s, 10)` and `String()`.
pub mod RoundTrip
use ganc_sys.Prelude.{
  ℕ, zero, suc, ◌+◌, ◌-◌, ◌*◌, ◌/◌, ◌%◌, ◌≡◌, refl, Bool, ◌&&◌, Option, none, some, List, [], ◌∷◌,
  leb, eqb, if◌then◌else◌,
}
use mathlib.Core.Option
use ganc_sys.Text.{Text, codes}

-- `big.Int`; `negsuc n` is -(n + 1).
pub data ℤ : Type 0 where
  pos : ℕ → ℤ
  negsuc : ℕ → ℤ

unfoldable pub negate : ℕ → ℤ
negate zero = pos 0
negate (suc n) = negsuc n

unfoldable pub is_digit : ℕ → Bool
is_digit c = leb b'0' c && leb c b'9'

-- The digits that are left, behind a number read so far.
unfoldable pub scan : ℕ → Text → Option ℕ
unfolding is_digit
scan n [] = some n
scan n (c ∷ s) = let rest = scan (n * 10 + (c - b'0')) s in if is_digit c then rest else none

unfoldable pub scan_digits : Text → Option ℕ
unfolding scan
scan_digits [] = none
scan_digits (c ∷ s) = scan 0 (c ∷ s)

-- `new(big.Int).SetString(s, 10)`: an optional sign and at least one digit, nothing behind them.
unfoldable pub set_string : Text → Option ℤ
unfolding scan_digits negate
set_string [] = none
set_string (c ∷ s) =
    if eqb c b'-'
    then Option.map negate (scan_digits s)
    else if eqb c b'+'
    then Option.map pos (scan_digits s)
    else Option.map pos (scan_digits (c ∷ s))

-- The digits of n before `out`. A round divides n by ten, so n rounds are enough.
unfoldable pub emit : ℕ → ℕ → Text → Text
emit zero n out = out
emit (suc fuel) n out =
    let rest = emit fuel (n / 10) ((b'0' + n % 10) ∷ out) in if eqb n 0 then out else rest

-- `v.String()` of an integer that is not negative
unfoldable pub format : ℕ → Text
unfolding emit
format n = if eqb n 0 then b'0' ∷ [] else emit n n []

format_1050 : format 1050 ≡ codes "1050"
unfolding format
format_1050 = refl

set_string_signs :
    (set_string (codes "-0") ≡ some (pos 0))
    × (set_string (codes "+07") ≡ some (pos 7))
    × (set_string (codes "-12") ≡ some (negsuc 11))
    × (set_string (codes "1_0") ≡ none)
    × (set_string (codes "-") ≡ none)
unfolding set_string
set_string_signs = (refl, refl, refl, refl, refl)

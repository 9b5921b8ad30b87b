-- ===== src/Text/Int64.antt =====
-- Go's int and int64 as the program uses them: `strconv.ParseInt(s, 10, 64)` and
-- `strconv.FormatInt(v, 10)`. A value is its 64-bit word in two's complement, a number below 2 ^ 64.
use ganc_sys.Prelude.{
  ℕ, suc, ◌+◌, ◌-◌, ◌%◌, ◌^◌, ◌≤◌, ◌<◌, ◌≡◌, ◌≢◌, refl, Option, none, some, [], ◌∷◌, inl, inr,
  arith, ltb, if◌then◌else◌, Bool-cases, Bool, Option-cases,
}
use ganc_sys.Text.{Text, codes}
use ganc_sys.Text.Decimal.{ℤ, pos, negsuc, negate, set_string, scan, scan_digits, format}
use ganc_sys.Text.Decimal.RoundTrip.{set_string-format, scan-format, format-ne-nil}

-- The word of an integer in range; `strconv.ErrRange` otherwise.
unfoldable pub word_of : ℤ → Option ℕ
word_of (pos n) = if ltb n (2 ^ 63) then some n else none
word_of (negsuc n) = if ltb n (2 ^ 63) then some (2 ^ 64 - 1 - n) else none

-- `ErrSyntax` when there is no integer to read
abbrev in_range : Option ℤ → Option ℕ
in_range none = none
in_range (some v) = word_of v

-- `strconv.ParseInt(s, 10, 64)`
unfoldable pub parse_int : Text → Option ℕ
parse_int s = in_range (set_string s)

-- The value that `ParseInt` returns beside an error: 0, or the bound that was passed.
unfoldable pub parse_int_clamped : Text → ℕ
parse_int_clamped s = clamped (set_string s)
  where
    clamped : Option ℤ → ℕ
    clamped none = 0
    clamped (some (pos n)) = if ltb n (2 ^ 63) then n else 2 ^ 63 - 1
    clamped (some (negsuc n)) = if ltb n (2 ^ 63) then 2 ^ 64 - 1 - n else 2 ^ 63

-- `strconv.FormatInt(v, 10)`, `strconv.Itoa` and the verb `%d`
unfoldable pub format_int : ℕ → Text
format_int w = if ltb w (2 ^ 63) then format w else b'-' ∷ format (2 ^ 64 - w)

-- `a + b` and `a - b`
abbrev pub add64 : ℕ → ℕ → ℕ
add64 a b = (a + b) % 2 ^ 64

abbrev pub sub64 : ℕ → ℕ → ℕ
sub64 a b = (a + (2 ^ 64 - b)) % 2 ^ 64

-- `a > b` on signed words: the sign bit is turned over.
abbrev pub greater64 : ℕ → ℕ → Bool
greater64 a b = ltb ((b + 2 ^ 63) % 2 ^ 64) ((a + 2 ^ 63) % 2 ^ 64)

pub word_of-lt : (v : ℤ) (w : ℕ) → word_of v ≡ some w → w < 2 ^ 64
unfolding word_of
word_of-lt (pos n) w h = ground arith
word_of-lt (negsuc n) w h = ground arith

pub parse_int-lt : (s : Text) (w : ℕ) → parse_int s ≡ some w → w < 2 ^ 64
unfolding parse_int
parse_int-lt s w h = elim (Option-cases (set_string s)) [
  | inl bad ↦ absurd (ground arith)
  | inr (v, read) ↦ word_of-lt v w (rw read at h)
]

scan_digits-format : (s : Text) → s ≢ [] → scan_digits s ≡ scan 0 s
unfolding scan_digits
scan_digits-format [] h = absurd (h refl)
scan_digits-format (c ∷ s) h = refl

minus_format : (n : ℕ) → set_string (b'-' ∷ format n) ≡ some (negate n)
unfolding set_string
minus_format n = rw (scan_digits-format (format n) (format-ne-nil n)) (rw (scan-format n) refl)

negate_word : (w : ℕ) → 2 ^ 63 ≤ w → w < 2 ^ 64 → word_of (negate (2 ^ 64 - w)) ≡ some w
unfolding word_of negate
negate_word w low high =
    let (m, e) : (m : ℕ) × (2 ^ 64 - w ≡ suc m) = (2 ^ 64 - w - 1, omega arith) in
    rw e (ground arith)

-- `ParseInt` reads back what `FormatInt` prints.
pub parse_int-format_int : (w : ℕ) → w < 2 ^ 64 → parse_int (format_int w) ≡ some w
unfolding parse_int format_int word_of
parse_int-format_int w h = elim (Bool-cases (ltb w (2 ^ 63))) [
  | inl small ↦ rw small (rw (set_string-format w) (ground arith))
  | inr big ↦ rw big (rw (minus_format (2 ^ 64 - w)) (negate_word w (ground arith) h))
]

parses :
    (parse_int (codes "9223372036854775807") ≡ some (2 ^ 63 - 1))
    × (parse_int (codes "9223372036854775808") ≡ none)
    × (parse_int (codes "-9223372036854775808") ≡ some (2 ^ 63))
    × (format_int (2 ^ 64 - 12) ≡ codes "-12")
unfolding parse_int format_int set_string format word_of
parses = (refl, refl, refl, refl)

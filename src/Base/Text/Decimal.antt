-- ===== src/Base/Text/Decimal.antt =====
-- `strconv.Atoi`, `strconv.ParseInt(_, 10, 64)` and the verb `%d`, on 64-bit integers.
pub mod Digits
use Prim.Native.Nat.{ℕ, zero, suc, ◌+◌, ◌-◌, ◌*◌, ◌/◌, ◌%◌, ◌^◌, ◌<◌}
use mathlib.Core.Path.{◌≡◌, refl}
use mathlib.Core.Logic.{inl, inr}
use mathlib.Core.Bool.{Bool, true, ◌&&◌}
use mathlib.Core.List.{[], ◌∷◌}
use mathlib.Core.Option.{Option, none, some}
use native.Mathlib.Omega.{arith}
use zerofs_csi_driver.Base.Tests.{leb, ltb, ◌==◌, Bool-cases, if◌then◌else◌}
use zerofs_csi_driver.Base.Text.{Str}

-- `negsuc n` is -(n + 1).
pub data ℤ : Type 0 where
  pos : ℕ → ℤ
  negsuc : ℕ → ℤ

abbrev pub is_digit : ℕ → Bool
is_digit c = leb b'0' c && leb c b'9'

unfoldable pub scan : Str → ℕ → Option ℕ
scan [] n = some n
scan (c ∷ s) n = if is_digit c then scan s (n * 10 + (c - b'0')) else none

-- digits only, at least one
parse_digits : Str → Option ℕ
unfolding scan
parse_digits [] = none
parse_digits (c ∷ s) = scan (c ∷ s) 0

at_most : ℕ → Option ℕ → Option ℤ
at_most bound none = none
at_most bound (some n) = if leb n bound then some (pos n) else none

negated : Option ℕ → Option ℤ
negated none = none
negated (some zero) = some (pos 0)
negated (some (suc n)) = if ltb n (2 ^ 63) then some (negsuc n) else none

-- An optional sign, then digits; a value outside int64 is an error.
unfoldable pub parse_int : Str → Option ℤ
unfolding parse_digits at_most negated
parse_int [] = none
parse_int (c ∷ s) =
    if c == b'-'
    then negated (parse_digits s)
    else if c == b'+'
    then at_most (2 ^ 63 - 1) (parse_digits s)
    else at_most (2 ^ 63 - 1) (parse_digits (c ∷ s))

digits : ℕ → ℕ → Str → Str
digits zero n out = out
digits (suc fuel) n out =
    let more = digits fuel (n / 10) ((b'0' + n % 10) ∷ out) in
    if ltb n 10 then (b'0' + n) ∷ out else more

unfoldable pub format_nat : ℕ → Str
unfolding digits
format_nat n = digits (suc n) n []

-- `%d`
unfoldable pub format_int : ℤ → Str
unfolding format_nat
format_int (pos n) = format_nat n
format_int (negsuc n) = b'-' ∷ format_nat (n + 1)

scan-digits : (fuel n : ℕ) (out : Str) → n < fuel → scan (digits fuel n out) 0 ≡ scan out n
unfolding scan digits
scan-digits zero n out h = absurd (omega arith)
scan-digits (suc fuel) n out h = ground (arith, scan-digits fuel (n / 10) ((b'0' + n % 10) ∷ out))

digits-head :
    (fuel n : ℕ) (out : Str)
    → n < fuel
    → (c : ℕ) × (s : Str) × (digits fuel n out ≡ c ∷ s) × (is_digit c ≡ true)
unfolding digits
digits-head zero n out h = absurd (omega arith)
digits-head (suc fuel) n out h = elim (Bool-cases (ltb n 10)) [
  | inl small ↦ rw small (b'0' + n, out, refl, ground arith)
  | inr large ↦ rw large (digits-head fuel (n / 10) ((b'0' + n % 10) ∷ out) (ground arith))
]

pub scan-format_nat : (n : ℕ) → scan (format_nat n) 0 ≡ some n
unfolding format_nat scan
scan-format_nat n = scan-digits (suc n) n [] (omega arith)

parse_digits-format_nat : (n : ℕ) → parse_digits (format_nat n) ≡ some n
unfolding parse_digits format_nat
parse_digits-format_nat n =
    let (c, s, e, d) = digits-head (suc n) n [] (omega arith) in
    rw e (ground (arith, scan-digits (suc n) n [] (omega arith)))

-- Reading a number that is printed without a sign goes to the plain case.
parse_int-format_nat : (n : ℕ) → parse_int (format_nat n) ≡ at_most (2 ^ 63 - 1) (some n)
unfolding parse_int format_nat
parse_int-format_nat n =
    let (c, s, e, d) = digits-head (suc n) n [] (omega arith) in
    let back = parse_digits-format_nat n in rw e (ground (arith, back))

-- The values that fit in an int64.
abbrev pub IsInt64 : ℤ → Type 0
IsInt64 (pos n) = n < 2 ^ 63
IsInt64 (negsuc n) = n < 2 ^ 63

pub parse_int-format_int : (z : ℤ) → IsInt64 z → parse_int (format_int z) ≡ some z
unfolding format_int at_most
parse_int-format_int (pos n) h = rw parse_int-format_nat (ground arith)
parse_int-format_int (negsuc n) h =
    unfold parse_int in ground (arith, parse_digits-format_nat (n + 1))

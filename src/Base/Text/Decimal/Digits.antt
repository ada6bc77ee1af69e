-- ===== src/Base/Text/Decimal/Digits.antt =====
-- A number that is printed is a word: not empty, and without white space.
use Prim.Native.Nat.{ℕ, zero, suc, ◌+◌, ◌/◌, ◌%◌, ◌<◌}
use mathlib.Core.Path.{◌≡◌}
use mathlib.Core.Logic.{inl, inr}
use mathlib.Core.Bool.{true, false}
use mathlib.Core.List.{[], ◌∷◌}
use native.Mathlib.Omega.{arith}
use zerofs_csi_driver.Base.Tests.{ltb, Bool-cases}
use zerofs_csi_driver.Base.Lists.{All}
use zerofs_csi_driver.Base.Text.{Str, is_space}
use zerofs_csi_driver.Base.Text.Fields.{IsWord}
use zerofs_csi_driver.Base.Text.Decimal.{is_digit, digits, digits-head, format_nat}

digit-solid : (n : ℕ) → n < 10 → is_space (b'0' + n) ≡ false
unfolding is_space
digit-solid n h = ground arith

digits-solid :
    (fuel n : ℕ) (out : Str)
    → All (λ c. is_space c ≡ false) out
    → All (λ c. is_space c ≡ false) (digits fuel n out)
unfolding digits
digits-solid zero n out h = h
digits-solid (suc fuel) n out h = elim (Bool-cases (ltb n 10)) [
  | inl small ↦ rw small (digit-solid n (ground arith), h)
  | inr large ↦ rw large (digits-solid fuel (n / 10) _ (digit-solid (n % 10) (omega arith), h))
]

cons-nil : (c : ℕ) (s t : Str) → t ≡ c ∷ s → t ≡ [] → ⊥
cons-nil c s t e k = absurd (cc)

pub format_nat-IsWord : (n : ℕ) → IsWord (format_nat n)
unfolding format_nat
format_nat-IsWord n =
    let (c, s, e, d) = digits-head (suc n) n [] (omega arith) in
    record { given = cons-nil c s _ e; solid = digits-solid (suc n) n [] tt }

digits-All :
    (fuel n : ℕ) (out : Str)
    → All (λ c. is_digit c ≡ true) out
    → All (λ c. is_digit c ≡ true) (digits fuel n out)
unfolding digits
digits-All zero n out h = h
digits-All (suc fuel) n out h =
    let front : is_digit (b'0' + n % 10) ≡ true = ground arith in
    elim (Bool-cases (ltb n 10)) [
      | inl small ↦ rw small (ground arith, h)
      | inr large ↦ rw large (digits-All fuel (n / 10) _ (front, h))
    ]

pub format_nat-All : (n : ℕ) → All (λ c. is_digit c ≡ true) (format_nat n)
unfolding format_nat
format_nat-All n = digits-All (suc n) n [] tt

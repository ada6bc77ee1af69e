-- ===== src/Base/Text/Trim.antt =====
-- Trimming text that has nothing to trim.
use Prim.Native.Nat.{ℕ}
use mathlib.Core.Path.{◌≡◌, refl, ap, ◌∙◌}
use mathlib.Core.Bool.{Bool, false}
use mathlib.Core.List.{List, [], ◌∷◌, reverse_aux, reverse, reverse-reverse}
use zerofs_csi_driver.Base.Lists.{All}
use zerofs_csi_driver.Base.Text.{Str, is_space, trim_left_by, trim_by, trim_space}

pub All-reverse_aux {ℓ κ} :
    {A : Type ℓ} (P : A → Type κ) (xs ys : List A) → All P xs → All P ys → All P (reverse_aux xs ys)
All-reverse_aux P [] ys h k = k
All-reverse_aux P (x ∷ xs) ys (p, h) k = All-reverse_aux P xs (x ∷ ys) h (p, k)

module _ (p : ℕ → Bool) where
  trim_left_by-none : (s : Str) → All (λ c. p c ≡ false) s → trim_left_by p s ≡ s
  trim_left_by-none [] h = refl
  trim_left_by-none (c ∷ s) h = rw (h.0) refl

  pub trim_by-none : (s : Str) → All (λ c. p c ≡ false) s → trim_by p s ≡ s
  trim_by-none s h =
      ap (λ (x : Str). reverse (trim_left_by p (reverse x))) (trim_left_by-none s h)
      ∙ (ap reverse (trim_left_by-none (reverse s) (All-reverse_aux (λ c. p c ≡ false) s [] h tt))
          ∙ reverse-reverse s)

pub trim_space-none : (s : Str) → All (λ c. is_space c ≡ false) s → trim_space s ≡ s
unfolding trim_space
trim_space-none s h = trim_by-none is_space s h

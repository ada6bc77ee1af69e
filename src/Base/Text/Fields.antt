-- ===== src/Base/Text/Fields.antt =====
-- `strings.Split` and `strings.Fields` on text that is put together from lines and words.
use Prim.Native.Nat.{ℕ, zero, suc}
use mathlib.Core.Path.{◌≡◌, refl, ap, ◌∙◌}
use mathlib.Core.Bool.{Bool, true, false, not, ◌&&◌}
use mathlib.Core.List.{List, [], ◌∷◌, ◌++◌, append_assoc, append-nil}
use native.Mathlib.Omega.{arith}
use zerofs_csi_driver.Base.Tests.{◌==◌, ==_iff}
use zerofs_csi_driver.Base.Lists.{All}
use zerofs_csi_driver.Base.Text.{Str, is_space, split_onto, split, end_field, fields_onto, fields}

-- Text without a separator.
abbrev pub Lacks : ℕ → Str → Type 0
Lacks sep s = All (λ c. (c == sep) ≡ false) s

abbrev pub lacks : ℕ → Str → Bool
lacks sep [] = true
lacks sep (c ∷ s) = not (c == sep) && lacks sep s

pub lacks-Lacks : (sep : ℕ) (s : Str) → lacks sep s ≡ true → Lacks sep s
lacks-Lacks sep [] h = tt
lacks-Lacks sep (c ∷ s) h =
    let more : lacks sep s ≡ true = ground arith in (ground arith, lacks-Lacks sep s more)

-- A field: not empty, and without white space.
pub record IsWord (w : Str) : Type 0 where
  pub given : (w ≡ []) → ⊥
  pub solid : All (λ c. is_space c ≡ false) w

abbrev pub spaces : ℕ → Str
spaces zero = []
spaces (suc n) = 32 ∷ spaces n

split_onto-line :
    (sep : ℕ) (line s cur : Str)
    → Lacks sep line
    → split_onto sep (line ++ (sep ∷ s)) cur ≡ (cur ++ line) ∷ split_onto sep s []
split_onto-line sep [] s cur h = rw ((==_iff sep sep).1 refl, append-nil) refl
split_onto-line sep (c ∷ line) s cur (n, h) = rw n (
    split_onto-line sep line s (cur ++ (c ∷ [])) h
    ∙ ap (λ (x : Str). x ∷ split_onto sep s []) (append_assoc cur (c ∷ []) line))

-- The first line of a text.
pub split-line :
    (sep : ℕ) (line s : Str) → Lacks sep line → split (line ++ (sep ∷ s)) sep ≡ line ∷ split s sep
split-line sep line s h = split_onto-line sep line s [] h

space-is_space : is_space 32 ≡ true
unfolding is_space
space-is_space = refl

fields_onto-word :
    (w s cur : Str)
    → All (λ c. is_space c ≡ false) w
    → fields_onto (w ++ (32 ∷ s)) cur ≡ end_field (cur ++ w) (fields_onto s [])
unfolding fields_onto
fields_onto-word [] s cur h = rw (space-is_space, append-nil) refl
fields_onto-word (c ∷ w) s cur (n, h) = rw n (
    fields_onto-word w s (cur ++ (c ∷ [])) h
    ∙ ap (λ (x : Str). end_field x (fields_onto s [])) (append_assoc cur (c ∷ []) w))

fields_onto-spaces : (n : ℕ) (s : Str) → fields_onto (spaces n ++ s) [] ≡ fields_onto s []
unfolding fields_onto is_space
fields_onto-spaces zero s = refl
fields_onto-spaces (suc n) s = fields_onto-spaces n s

end_field-word : (w : Str) (fs : List Str) → ((w ≡ []) → ⊥) → end_field w fs ≡ w ∷ fs
end_field-word [] fs h = absurd (h refl)
end_field-word (c ∷ w) fs h = refl

-- The first field of a line, and the spaces behind it.
pub fields-word :
    (w s : Str) (n : ℕ) → IsWord w → fields (w ++ (spaces (suc n) ++ s)) ≡ w ∷ fields s
unfolding fields
fields-word w s n h =
    fields_onto-word w (spaces n ++ s) [] h.solid
    ∙ (end_field-word w _ h.given ∙ ap (λ (fs : List Str). w ∷ fs) (fields_onto-spaces n s))

pub solid-Lacks_newline : (c : ℕ) → is_space c ≡ false → (c == b'\n') ≡ false
unfolding is_space
solid-Lacks_newline c h = ground arith

-- ===== src/Base/FilePath/Extends.antt =====
-- Joining a directory with a name and with a longer name.
use zerofs_csi_driver.Base.Tests.{◌==◌, Bool-cases}
use zerofs_csi_driver.Base.Text.{Str, split_onto, split, join, has_prefix, has_prefix-append}
use zerofs_csi_driver.Base.FilePath.{
  slash, is_rooted, resolve, rebuilt, clean, non_empty, joined, join_path,
}
use zerofs_csi_driver.Base.FilePath.Names.{IsName, split_onto-NoSlash}
use Prim.Native.Nat.{ℕ}
use mathlib.Core.Path.{◌≡◌, refl, ap, ◌∙◌}
use mathlib.Core.Logic.{inl, inr}
use mathlib.Core.Bool.{Bool, true, false}
use mathlib.Core.List.{List, [], ◌∷◌, ◌++◌, reverse, reverse-cons}
use native.Mathlib.Omega.{arith}

has_prefix-cons : (c : ℕ) (s t : Str) → has_prefix s t ≡ true → has_prefix (c ∷ s) (c ∷ t) ≡ true
has_prefix-cons c s t h = ground arith

has_prefix-both : (p s t : Str) → has_prefix s t ≡ true → has_prefix (p ++ s) (p ++ t) ≡ true
has_prefix-both [] s t h = h
has_prefix-both (c ∷ p) s t h = has_prefix-cons c (p ++ s) (p ++ t) (has_prefix-both p s t h)

split_onto-append :
    (sep : ℕ) (s t cur : Str)
    → split_onto sep (s ++ (sep ∷ t)) cur ≡ split_onto sep s cur ++ split_onto sep t []
split_onto-append sep [] t cur = rw (same sep) refl
  where
    same : (n : ℕ) → (n == n) ≡ true
    same n = ground arith
split_onto-append sep (c ∷ s) t cur = elim (Bool-cases (c == sep)) [
  | inl cut ↦ rw (cut, split_onto-append sep s t []) refl
  | inr more ↦ rw (more, split_onto-append sep s t (cur ++ (c ∷ []))) refl
]

resolve-last :
    (rooted : Bool) (xs kept : List Str) (name : Str)
    → IsName name
    → resolve rooted (xs ++ (name ∷ [])) kept ≡ name ∷ resolve rooted xs kept
unfolding resolve
resolve-last rooted [] kept name h = rw (h.given, h.not_here, h.not_up) refl
resolve-last rooted (x ∷ xs) kept name h = resolve-last rooted xs _ name h

join-last :
    (xs : List Str) (s t : Str)
    → has_prefix t s ≡ true
    → has_prefix (join (xs ++ (t ∷ [])) (slash ∷ [])) (join (xs ++ (s ∷ [])) (slash ∷ [])) ≡ true
join-last [] s t h = h
join-last (x ∷ []) s t h = has_prefix-both x (slash ∷ t) (slash ∷ s) (has_prefix-cons slash t s h)
join-last (x ∷ y ∷ xs) s t h =
    has_prefix-both x (slash ∷ join (y ∷ (xs ++ (t ∷ []))) (slash ∷ []))
      (slash ∷ join (y ∷ (xs ++ (s ∷ []))) (slash ∷ []))
      (has_prefix-cons slash (join (y ∷ (xs ++ (t ∷ []))) (slash ∷ []))
        (join (y ∷ (xs ++ (s ∷ []))) (slash ∷ [])) (join-last (y ∷ xs) s t h))

rebuilt-last :
    (rooted : Bool) (xs : List Str) (s t : Str)
    → has_prefix t s ≡ true
    → has_prefix (rebuilt rooted (xs ++ (t ∷ []))) (rebuilt rooted (xs ++ (s ∷ []))) ≡ true
unfolding rebuilt
rebuilt-last true xs s t h =
    has_prefix-cons slash (join (xs ++ (t ∷ [])) (slash ∷ [])) (join (xs ++ (s ∷ [])) (slash ∷ []))
      (join-last xs s t h)
rebuilt-last false [] s t h = join-last [] s t h
rebuilt-last false (x ∷ xs) s t h = join-last (x ∷ xs) s t h

is_rooted-append : (c : ℕ) (dir s : Str) → is_rooted ((c ∷ dir) ++ s) ≡ is_rooted (c ∷ dir)
is_rooted-append c dir s = refl

-- The elements of a directory, the last first.
clean-last :
    (c : ℕ) (dir name : Str)
    → IsName name
    → clean ((c ∷ dir) ++ (slash ∷ name))
      ≡ rebuilt
          (is_rooted (c ∷ dir))
          (reverse (resolve (is_rooted (c ∷ dir)) (split (c ∷ dir) slash) []) ++ (name ∷ []))
unfolding clean
clean-last c dir name h =
    ap
      (λ (xs : List Str).
        rebuilt (is_rooted (c ∷ dir)) (reverse (resolve (is_rooted (c ∷ dir)) xs [])))
      (split_onto-append slash (c ∷ dir) name []
        ∙ ap (λ (xs : List Str). split (c ∷ dir) slash ++ xs) (split_onto-NoSlash name [] h.plain))
    ∙ (ap (λ (xs : List Str). rebuilt (is_rooted (c ∷ dir)) (reverse xs))
          (resolve-last (is_rooted (c ∷ dir)) (split (c ∷ dir) slash) [] name h)
        ∙ ap (rebuilt (is_rooted (c ∷ dir)))
            (reverse-cons name (resolve (is_rooted (c ∷ dir)) (split (c ∷ dir) slash) [])))

join_path-two :
    (c : ℕ) (dir name : Str)
    → IsName name
    → join_path ((c ∷ dir) ∷ name ∷ []) ≡ clean ((c ∷ dir) ++ (slash ∷ name))
unfolding join_path joined non_empty
join_path-two c dir name h = refl

-- The path of the longer name starts with that of the name.
pub join_path-extends :
    (c : ℕ) (dir name more : Str)
    → IsName name
    → IsName (name ++ more)
    → has_prefix (join_path ((c ∷ dir) ∷ (name ++ more) ∷ [])) (join_path ((c ∷ dir) ∷ name ∷ []))
      ≡ true
join_path-extends c dir name more h k =
    rw
      (
        join_path-two c dir name h,
        join_path-two c dir (name ++ more) k,
        clean-last c dir name h,
        clean-last c dir (name ++ more) k,
      )
      (rebuilt-last (is_rooted (c ∷ dir)) _ name (name ++ more) (has_prefix-append name more))

-- ===== src/Base/FilePath/Names.antt =====
-- Joining a directory and a plain name.
use zerofs_csi_driver.Base.Tests.{◌==◌}
use zerofs_csi_driver.Base.Text.{Str, codes, ◌===◌, split_onto}
use zerofs_csi_driver.Base.Text.Trim.{All-reverse_aux}
use zerofs_csi_driver.Base.Lists.{All}
use zerofs_csi_driver.Base.FilePath.{
  drop_slashes, until_slash, or_slash, base, resolve, rebuilt, clean, non_empty, joined, join_path,
}
use Prim.Native.Nat.{ℕ}
use mathlib.Core.Path.{◌≡◌, refl, ap, ◌∙◌}
use mathlib.Core.Bool.{true, false}
use mathlib.Core.List.{
  List, [], ◌∷◌, ◌++◌, reverse, append_assoc, append-nil, reverse-cons, reverse-append,
  reverse-reverse,
}

abbrev pub NoSlash : Str → Type 0
NoSlash s = All (λ c. (c == b'/') ≡ false) s

-- An element of a path that stays where it is.
pub record IsName (s : Str) : Type 0 where
  pub plain : NoSlash s
  pub given : (s === []) ≡ false
  pub not_here : (s === codes ".") ≡ false
  pub not_up : (s === codes "..") ≡ false

append-given : (s : Str) (c : ℕ) → ((s ++ (c ∷ [])) === []) ≡ false
append-given [] c = refl
append-given (d ∷ s) c = refl

pub split_onto-NoSlash : (s cur : Str) → NoSlash s → split_onto b'/' s cur ≡ (cur ++ s) ∷ []
split_onto-NoSlash [] cur h = rw append-nil refl
split_onto-NoSlash (c ∷ s) cur h = rw (h.0) (
    split_onto-NoSlash s (cur ++ (c ∷ [])) h.1
    ∙ ap (λ (x : Str). x ∷ []) (append_assoc cur (c ∷ []) s))

-- A directory and a name in it.
abbrev pub under : Str → Str → Str
under dir name = dir ++ (codes "/" ++ name)

non_empty-two :
    (dir name : Str)
    → (dir === []) ≡ false
    → (name === []) ≡ false
    → non_empty (dir ∷ name ∷ []) ≡ dir ∷ name ∷ []
unfolding non_empty
non_empty-two [] name h k = absurd (cc)
non_empty-two (c ∷ dir) [] h k = absurd (cc)
non_empty-two (c ∷ dir) (d ∷ name) h k = refl

module _ (name : Str) (h : IsName name) where
  split-name : split_onto b'/' name [] ≡ name ∷ []
  split-name = split_onto-NoSlash name [] h.plain

  clean-run_dir :
      clean (under (codes "/run/zerofs-csi") name) ≡ under (codes "/run/zerofs-csi") name
  unfolding clean
  clean-run_dir =
      ap (λ (xs : List Str). rebuilt true (reverse (resolve true xs [])))
        (ap (λ (xs : List Str). [] ∷ codes "run" ∷ codes "zerofs-csi" ∷ xs) split-name)
      ∙ rw (h.given, h.not_here, h.not_up) refl

  pub join_path-run_dir :
      join_path (codes "/run/zerofs-csi" ∷ name ∷ []) ≡ under (codes "/run/zerofs-csi") name
  unfolding join_path
  join_path-run_dir =
      ap joined (non_empty-two (codes "/run/zerofs-csi") name refl h.given) ∙ clean-run_dir

  clean-by_device_dir :
      clean (under (codes "/run/zerofs-csi/by-device") name)
      ≡ under (codes "/run/zerofs-csi/by-device") name
  unfolding clean
  clean-by_device_dir =
      ap (λ (xs : List Str). rebuilt true (reverse (resolve true xs [])))
        (ap (λ (xs : List Str). [] ∷ codes "run" ∷ codes "zerofs-csi" ∷ codes "by-device" ∷ xs)
          split-name)
      ∙ rw (h.given, h.not_here, h.not_up) refl

  pub join_path-by_device_dir :
      join_path (codes "/run/zerofs-csi/by-device" ∷ name ∷ [])
      ≡ under (codes "/run/zerofs-csi/by-device") name
  unfolding join_path
  join_path-by_device_dir =
      ap joined (non_empty-two (codes "/run/zerofs-csi/by-device") name refl h.given)
      ∙ clean-by_device_dir

  clean-base_dir :
      clean (under (codes "/var/lib/kubelet/plugins/zerofs.csi.driver") name)
      ≡ under (codes "/var/lib/kubelet/plugins/zerofs.csi.driver") name
  unfolding clean
  clean-base_dir =
      ap (λ (xs : List Str). rebuilt true (reverse (resolve true xs [])))
        (ap
          (λ (xs : List Str).
            []
            ∷ codes "var"
            ∷ codes "lib"
            ∷ codes "kubelet"
            ∷ codes "plugins"
            ∷ codes "zerofs.csi.driver"
            ∷ xs)
          split-name)
      ∙ rw (h.given, h.not_here, h.not_up) refl

  pub join_path-base_dir :
      join_path (codes "/var/lib/kubelet/plugins/zerofs.csi.driver" ∷ name ∷ [])
      ≡ under (codes "/var/lib/kubelet/plugins/zerofs.csi.driver") name
  unfolding join_path
  join_path-base_dir =
      ap joined
        (non_empty-two (codes "/var/lib/kubelet/plugins/zerofs.csi.driver") name refl h.given)
      ∙ clean-base_dir

until_slash-NoSlash : (s rest : Str) → NoSlash s → until_slash (s ++ (b'/' ∷ rest)) ≡ s
unfolding until_slash
until_slash-NoSlash [] rest h = refl
until_slash-NoSlash (c ∷ s) rest h =
    rw (h.0) (ap (λ (x : Str). c ∷ x) (until_slash-NoSlash s rest h.1))

drop_slashes-NoSlash :
    (s rest : Str) → NoSlash s → (s === []) ≡ false → drop_slashes (s ++ rest) ≡ s ++ rest
unfolding drop_slashes
drop_slashes-NoSlash [] rest h k = absurd (cc)
drop_slashes-NoSlash (c ∷ s) rest h k = rw (h.0) refl

reverse-given : (s : Str) → (s === []) ≡ false → (reverse s === []) ≡ false
reverse-given [] h = absurd (cc)
reverse-given (c ∷ s) h = rw (reverse-cons c s) (append-given (reverse s) c)

or_slash-given : (s : Str) → (s === []) ≡ false → or_slash s ≡ s
unfolding or_slash
or_slash-given [] h = absurd (cc)
or_slash-given (c ∷ s) h = refl

-- The last element of the path of a device.
pub base-dev :
    (name : Str) → NoSlash name → (name === []) ≡ false → base (codes "/dev/" ++ name) ≡ name
unfolding base
base-dev name h k =
    let back = All-reverse_aux (λ c. (c == b'/') ≡ false) name [] h tt in
    rw (reverse-append (codes "/dev/") name) (
      ap (λ (x : Str). or_slash (reverse (until_slash x)))
        (drop_slashes-NoSlash (reverse name) (codes "/ved/") back (reverse-given name k))
      ∙ (ap (λ (x : Str). or_slash (reverse x))
            (until_slash-NoSlash (reverse name) (codes "ved/") back)
          ∙ (ap or_slash (reverse-reverse name) ∙ or_slash-given name k)))

-- ===== src/Node/Mkfs.antt =====
-- pkg/csi/node.go: `mkfsCommand`.
use mathlib.Core.List.{map}
use zerofs_csi_driver.Base.{
  ℕ, ◌≡◌, some, ltb, ◌||◌, refl, Bool-cases, inl, inr, get_last?, true, if-cases, List, [], ◌∷◌,
  ◌++◌, Str, codes, ◌===◌, trim_space, if◌then◌else◌,
}
use zerofs_csi_driver.Base.Text.{lower_ascii, has_prefix}

module _ (lower_rune : ℕ → ℕ) where
  -- `unicode.ToLower`
  lower : ℕ → ℕ
  lower c = if ltb c 128 then lower_ascii c else lower_rune c

  -- The name that the `switch` looks at.
  unfoldable pub filesystem_name : Str → Str
  unfolding lower
  filesystem_name filesystem = map lower (trim_space filesystem)

  -- The program and its arguments.
  unfoldable pub mkfs_command : Str → Str → Str × List Str
  mkfs_command filesystem dev =
      let fs = filesystem_name filesystem in
      if fs === codes "btrfs"
      then (codes "mkfs.btrfs", codes "-f" ∷ dev ∷ [])
      else if fs === codes "xfs"
      then (codes "mkfs.xfs", codes "-f" ∷ dev ∷ [])
      else if fs === codes "ext2" || fs === codes "ext3" || fs === codes "ext4"
      then (codes "mkfs." ++ fs, codes "-F" ∷ dev ∷ [])
      else (codes "mkfs", codes "-t" ∷ fs ∷ dev ∷ [])

  -- The device is the last argument.
  pub get_last?-mkfs_command :
      (filesystem dev : Str) → get_last? (mkfs_command filesystem dev).1 ≡ some dev
  unfolding mkfs_command
  get_last?-mkfs_command filesystem dev =
      let fs = filesystem_name filesystem in
      elim (Bool-cases (fs === codes "btrfs")) [
        | inl e ↦ rw e refl
        | inr e ↦ rw e (elim (Bool-cases (fs === codes "xfs")) [
          | inl f ↦ rw f refl
          | inr f ↦
              rw f
                (elim (Bool-cases
                  (fs === codes "ext2" || fs === codes "ext3" || fs === codes "ext4")) [
                    | inl g ↦ rw g refl
                    | inr g ↦ rw g refl
                  ])
        ])
      ]

  -- The program is one of the `mkfs` family.
  pub mkfs_command-mkfs :
      (filesystem dev : Str) → has_prefix (mkfs_command filesystem dev).0 (codes "mkfs") ≡ true
  unfolding mkfs_command
  mkfs_command-mkfs filesystem dev =
      let fs = filesystem_name filesystem in
      if-cases (λ (c : Str × List Str). has_prefix c.0 (codes "mkfs") ≡ true) (fs === codes "btrfs")
        _ _ refl
        (if-cases (λ (c : Str × List Str). has_prefix c.0 (codes "mkfs") ≡ true)
          (fs === codes "xfs") _ _ refl
          (if-cases (λ (c : Str × List Str). has_prefix c.0 (codes "mkfs") ≡ true)
            (fs === codes "ext2" || fs === codes "ext3" || fs === codes "ext4") _ _ refl refl))

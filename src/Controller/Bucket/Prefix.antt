-- ===== src/Controller/Bucket/Prefix.antt =====
-- pkg/csi/s3_cleanup.go: which keys the prefix of a volume matches.
use zerofs_csi_driver.Base.{
  ◌≡◌, refl, ap, ◌∙◌, true, [], ◌∷◌, ◌++◌, Str, ◌===◌, ◌==◌, if◌then◌else◌,
}
use zerofs_csi_driver.Base.Text.{has_prefix, has_prefix-append, trim_by}
use zerofs_csi_driver.Base.Text.Trim.{trim_by-none, trim_space-none}
use zerofs_csi_driver.Base.FilePath.{join_path}
use zerofs_csi_driver.Base.FilePath.Extends.{join_path-extends}
use zerofs_csi_driver.Nbd.State.Paths.{IsVolume}
use zerofs_csi_driver.Controller.Bucket.{trim_slashes, join_s3_prefix}

trim_slashes-volume : (v : Str) → IsVolume v → trim_slashes v ≡ v
unfolding trim_slashes
trim_slashes-volume v h =
    ap (trim_by (λ c. c == b'/')) (trim_space-none v h.no_space)
    ∙ trim_by-none (λ c. c == b'/') v (h.name).plain

-- The prefix, by the trimmed base.
abbrev prefix_in : Str → Str → Str
prefix_in [] volume = volume
prefix_in (c ∷ base) volume = join_path ((c ∷ base) ∷ volume ∷ [])

prefix_in-if :
    (base volume : Str)
    → (if base === [] then volume else join_path (base ∷ volume ∷ [])) ≡ prefix_in base volume
prefix_in-if [] volume = refl
prefix_in-if (c ∷ base) volume = refl

join_s3_prefix-in :
    (base volume : Str)
    → IsVolume volume
    → join_s3_prefix base volume ≡ prefix_in (trim_slashes base) volume
unfolding join_s3_prefix
join_s3_prefix-in base volume h =
    rw (trim_slashes-volume volume h) (prefix_in-if (trim_slashes base) volume)

prefix_in-extends :
    (base volume more : Str)
    → IsVolume volume
    → IsVolume (volume ++ more)
    → has_prefix (prefix_in base (volume ++ more)) (prefix_in base volume) ≡ true
prefix_in-extends [] volume more h k = has_prefix-append volume more
prefix_in-extends (c ∷ base) volume more h k = join_path-extends c base volume more h.name k.name

-- Whatever the base, the prefix under which the deletion of a volume's data lists objects is also the
-- start of the prefix of each volume whose identifier continues that of the first one: the listing
-- for pvc-1 covers the data of pvc-10. The identifiers are names of files without spaces.
pub join_s3_prefix-extends :
    (base volume more : Str)
    → IsVolume volume
    → IsVolume (volume ++ more)
    → has_prefix (join_s3_prefix base (volume ++ more)) (join_s3_prefix base volume) ≡ true
join_s3_prefix-extends base volume more h k =
    rw (join_s3_prefix-in base volume h, join_s3_prefix-in base (volume ++ more) k)
      (prefix_in-extends (trim_slashes base) volume more h k)

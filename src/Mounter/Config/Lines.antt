-- ===== src/Mounter/Config/Lines.antt =====
-- pkg/csi/zerofs.go: the lines of the configuration file.
use zerofs_csi_driver.Base.{
  ◌≡◌, refl, ap, ◌∙◌, Bool, ◌&&◌, arith, true, List, [], ◌∷◌, ◌++◌, Str, codes, All,
}
use zerofs_csi_driver.Base.Text.{split}
use zerofs_csi_driver.Base.Text.Fields.{lacks, lacks-Lacks, split-line}
use zerofs_csi_driver.Mounter.Config.{
  ConfigValues, bare, quoted, socket_line, config_lines, unlines, render_config,
}

-- Without a line break.
abbrev pub is_line : Str → Bool
is_line s = lacks b'\n' s

is_line-append : (s t : Str) → is_line (s ++ t) ≡ (is_line s && is_line t)
is_line-append [] t = refl
is_line-append (c ∷ s) t = ground (arith, is_line-append s t)

abbrev AllLines : List Str → Type 0
AllLines lines = All (λ line. is_line line ≡ true) lines

split-unlines :
    (lines : List Str) → AllLines lines → split (unlines lines) b'\n' ≡ lines ++ ([] ∷ [])
unfolding unlines
split-unlines [] h = refl
split-unlines (line ∷ lines) (h, k) =
    split-line b'\n' line (unlines lines) (lacks-Lacks b'\n' line h)
    ∙ ap (λ (x : List Str). line ∷ x) (split-unlines lines k)

-- The values that the file shows, in its order.
abbrev pub shown : ConfigValues → List Str
shown v =
    v.cache_dir ∷ v.cache_disk_size_gb ∷ v.cache_memory_size_gb ∷ v.storage_url
    ∷ v.encryption_password ∷ v.volume_id ∷ v.aws_secret_access_key ∷ v.aws_access_key_id
    ∷ v.aws_default_region ∷ v.aws_allow_http ∷ v.aws_endpoint ∷ v.lsm_l0_max_ssts
    ∷ v.lsm_max_unflushed_gb ∷ v.lsm_max_concurrent_compactions ∷ v.lsm_flush_interval_secs
    ∷ v.filesystem_max_size_gb ∷ []

quoted-is_line : (value : Str) → is_line value ≡ true → is_line (value ++ codes "\"") ≡ true
quoted-is_line value h = rw (is_line-append value (codes "\""), h) refl

socket-is_line :
    (volume suffix : Str)
    → is_line volume ≡ true
    → is_line suffix ≡ true
    → is_line ((volume ++ suffix) ++ codes "\"") ≡ true
socket-is_line volume suffix h k =
    quoted-is_line (volume ++ suffix) (rw (is_line-append volume suffix, h, k) refl)

-- The proofs for a list, line by line.
infixr 2 ◌&◌
abbrev pub ◌&◌ : {A B : Type 0} → A → B → A × B
a & b = (a, b)

config_lines-AllLines : (v : ConfigValues) → AllLines (shown v) → AllLines (config_lines v)
unfolding config_lines socket_line quoted bare
config_lines-AllLines v
      (a, (b, (c, (d, (e, (f, (g, (h, (i, (j, (k, (l, (m, (n, (o, (p, _)))))))))))))))) =
    refl
    & quoted-is_line v.cache_dir a
    & b
    & c
    & refl
    & refl
    & quoted-is_line v.storage_url d
    & quoted-is_line v.encryption_password e
    & refl
    & refl
    & refl
    & socket-is_line v.volume_id (codes ".9p.sock") f refl
    & refl
    & refl
    & refl
    & socket-is_line v.volume_id (codes ".nbd.sock") f refl
    & refl
    & refl
    & quoted-is_line v.aws_secret_access_key g
    & quoted-is_line v.aws_access_key_id h
    & quoted-is_line v.aws_default_region i
    & quoted-is_line v.aws_allow_http j
    & quoted-is_line v.aws_endpoint k
    & refl
    & refl
    & l
    & m
    & n
    & o
    & refl
    & refl
    & p
    & tt

-- The text splits back into the lines, and one empty piece behind the last line break.
pub render_config-lines :
    (v : ConfigValues)
    → All (λ value. is_line value ≡ true) (shown v)
    → split (render_config v) b'\n' ≡ config_lines v ++ ([] ∷ [])
unfolding render_config
render_config-lines v h = split-unlines (config_lines v) (config_lines-AllLines v h)

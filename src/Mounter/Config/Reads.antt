-- ===== src/Mounter/Config/Reads.antt =====
-- pkg/csi/zerofs.go: what a reader finds in the configuration file that CreatePod writes.
use zerofs_csi_driver.Base.{
  ◌≡◌, refl, true, Option, none, some, List, [], ◌∷◌, ◌++◌, Str, codes, ◌===◌, All, if◌then◌else◌,
}
use zerofs_csi_driver.Base.Text.{drop_prefix, has_prefix, split}
use zerofs_csi_driver.Mounter.Config.{
  base_dir, ConfigValues, bare, quoted, socket_line, config_lines, render_config,
}
use zerofs_csi_driver.Mounter.Config.Lines.{is_line, shown, render_config-lines, ◌&◌}

abbrev or_else : Option Str → Option Str → Option Str
or_else (some text) rest = some text
or_else none rest = rest

-- The text behind "key = " in the lines up to the next header of a table.
abbrev value_in_table : Str → List Str → Option Str
value_in_table key [] = none
value_in_table key (line ∷ lines) =
    if has_prefix line (codes "[")
    then none
    else or_else (drop_prefix line (key ++ codes " = ")) (value_in_table key lines)

-- That text in the first table with a header.
abbrev pub read_setting : Str → Str → List Str → Option Str
read_setting header key [] = none
read_setting header key (line ∷ lines) =
    if line === header then value_in_table key lines else read_setting header key lines

abbrev pub in_quotes : Str → Str
in_quotes text = codes "\"" ++ (text ++ codes "\"")

-- What ZeroFS is to read: the header of a table, a key, and the text of its value.
abbrev pub in_tables : ConfigValues → List (Str × Str × Str)
in_tables v =
    (codes "[cache]", codes "dir", in_quotes v.cache_dir)
    ∷ (codes "[cache]", codes "disk_size_gb", v.cache_disk_size_gb)
    ∷ (codes "[cache]", codes "memory_size_gb", v.cache_memory_size_gb)
    ∷ (codes "[storage]", codes "url", in_quotes v.storage_url)
    ∷ (codes "[storage]", codes "encryption_password", in_quotes v.encryption_password)
    ∷ (codes "[aws]", codes "secret_access_key", in_quotes v.aws_secret_access_key)
    ∷ (codes "[aws]", codes "access_key_id", in_quotes v.aws_access_key_id)
    ∷ (codes "[aws]", codes "default_region", in_quotes v.aws_default_region)
    ∷ (codes "[aws]", codes "allow_http", in_quotes v.aws_allow_http)
    ∷ (codes "[aws]", codes "endpoint", in_quotes v.aws_endpoint)
    ∷ (codes "[lsm]", codes "l0_max_ssts", v.lsm_l0_max_ssts)
    ∷ (codes "[lsm]", codes "max_unflushed_gb", v.lsm_max_unflushed_gb)
    ∷ (codes "[lsm]", codes "max_concurrent_compactions", v.lsm_max_concurrent_compactions)
    ∷ (codes "[lsm]", codes "flush_interval_secs", v.lsm_flush_interval_secs)
    ∷ (codes "[filesystem]", codes "max_size_gb", v.filesystem_max_size_gb)
    ∷ (
      codes "[servers.ninep]",
      codes "unix_socket",
      in_quotes (base_dir ++ (codes "/zerofs-" ++ (v.volume_id ++ codes ".9p.sock"))),
    )
    ∷ (
      codes "[servers.nbd]",
      codes "unix_socket",
      in_quotes (base_dir ++ (codes "/zerofs-" ++ (v.volume_id ++ codes ".nbd.sock"))),
    )
    ∷ []

abbrev pub Reads : List Str → Str × Str × Str → Type 0
Reads lines (header, key, text) = read_setting header key lines ≡ some text

config_lines-Reads : (v : ConfigValues) → All (Reads (config_lines v ++ ([] ∷ []))) (in_tables v)
unfolding config_lines socket_line quoted bare
config_lines-Reads v =
    refl & refl & refl & refl & refl & refl & refl & refl & refl & refl & refl & refl & refl & refl
    & refl & refl & refl & tt

-- If no value that the configuration file shows has a line break, a reader of the text that CreatePod
-- writes finds each setting in its table: it splits the text at the line breaks, takes the lines
-- from the table's header to the next header, and there the text behind the key. That text is
-- the value, between quotation marks where the setting is a string; the two sockets are named
-- after the volume, each in the table of its server.
pub render_config-Reads :
    (v : ConfigValues)
    → All (λ value. is_line value ≡ true) (shown v)
    → All (Reads (split (render_config v) b'\n')) (in_tables v)
render_config-Reads v h = rw (render_config-lines v h) (config_lines-Reads v)

-- The sockets, whatever the values are.
module _ (v : ConfigValues) where
  pub config_lines-ninep : Reads (config_lines v) (
    codes "[servers.ninep]",
    codes "unix_socket",
    in_quotes (base_dir ++ (codes "/zerofs-" ++ (v.volume_id ++ codes ".9p.sock"))),
  )
  unfolding config_lines socket_line quoted bare
  config_lines-ninep = refl

  pub config_lines-nbd : Reads (config_lines v) (
    codes "[servers.nbd]",
    codes "unix_socket",
    in_quotes (base_dir ++ (codes "/zerofs-" ++ (v.volume_id ++ codes ".nbd.sock"))),
  )
  unfolding config_lines socket_line quoted bare
  config_lines-nbd = refl

-- ===== src/Mounter/Config.antt =====
-- pkg/csi/zerofs.go: the template of config.toml, its values, and what `tmpl.Execute` writes.
-- `text/template` copies a value as it is; neither `Parse` nor `Execute` can fail on this template.
pub mod Lines
pub mod Reads
use zerofs_csi_driver.Base.{List, [], ◌∷◌, ◌++◌, Str, codes}
use zerofs_csi_driver.Base.Text.{Dict, value_of, or_default}

-- `ZeroFSBaseDir`
abbrev pub base_dir : Str
base_dir = codes "/var/lib/kubelet/plugins/zerofs.csi.driver"

pub record ConfigValues : Type 0 where
  pub volume_id : Str
  pub cache_dir : Str
  pub cache_disk_size_gb : Str
  pub cache_memory_size_gb : Str
  pub storage_url : Str
  pub encryption_password : Str
  pub aws_access_key_id : Str
  pub aws_secret_access_key : Str
  pub aws_default_region : Str
  pub aws_allow_http : Str
  pub aws_endpoint : Str
  pub lsm_l0_max_ssts : Str
  pub lsm_max_unflushed_gb : Str
  pub lsm_max_concurrent_compactions : Str
  pub lsm_flush_interval_secs : Str
  pub filesystem_max_size_gb : Str

-- `fmt.Sprintf("%s/%s", cmp.Or(configMapData["storageURL"], "s3://zerofs"), volumeID)`
abbrev pub storage_url_of : Dict → Str → Str
storage_url_of config volume =
    or_default (value_of (codes "storageURL") config) (codes "s3://zerofs") ++ (codes "/" ++ volume)

abbrev setting : Dict → Str → Str → Str
setting config key default = or_default (value_of key config) default

unfoldable pub config_values : Dict → Str → Str → Str → Str → ConfigValues
config_values config volume password access_key secret_key = record {
  volume_id = volume;
  cache_dir = setting config (codes "cacheDir") (codes "/tmp");
  cache_disk_size_gb = setting config (codes "cacheDiskSizeGB") (codes "1.0");
  cache_memory_size_gb = setting config (codes "cacheMemorySizeGB") (codes "1.0");
  storage_url = storage_url_of config volume;
  encryption_password = password;
  aws_access_key_id = access_key;
  aws_secret_access_key = secret_key;
  aws_default_region = value_of (codes "awsDefaultRegion") config;
  aws_allow_http = value_of (codes "awsAllowHTTP") config;
  aws_endpoint = value_of (codes "awsEndpoint") config;
  lsm_l0_max_ssts = setting config (codes "lsmL0MaxSsts") (codes "16");
  lsm_max_unflushed_gb = setting config (codes "lsmMaxUnflushedGB") (codes "1.0");
  lsm_max_concurrent_compactions = setting config (codes "lsmMaxConcurrentCompactions") (codes "8");
  lsm_flush_interval_secs = setting config (codes "lsmFlushIntervalSecs") (codes "30");
  filesystem_max_size_gb = setting config (codes "filesystemMaxSizeGB") (codes "100.0");
}

-- The lines of the file.
bare : Str → Str → Str
bare key value = key ++ (codes " = " ++ value)

quoted : Str → Str → Str
quoted key value = key ++ (codes " = \"" ++ (value ++ codes "\""))

socket_line : Str → Str → Str
unfolding quoted
socket_line volume suffix =
    quoted (codes "unix_socket") (base_dir ++ (codes "/zerofs-" ++ (volume ++ suffix)))

unfoldable pub config_lines : ConfigValues → List Str
unfolding bare quoted socket_line
config_lines v =
    codes "[cache]"
    ∷ quoted (codes "dir") v.cache_dir
    ∷ bare (codes "disk_size_gb") v.cache_disk_size_gb
    ∷ bare (codes "memory_size_gb") v.cache_memory_size_gb
    ∷ []
    ∷ codes "[storage]"
    ∷ quoted (codes "url") v.storage_url
    ∷ quoted (codes "encryption_password") v.encryption_password
    ∷ []
    ∷ codes "[servers.ninep]"
    ∷ codes "addresses = []"
    ∷ socket_line v.volume_id (codes ".9p.sock")
    ∷ []
    ∷ codes "[servers.nbd]"
    ∷ codes "addresses = []"
    ∷ socket_line v.volume_id (codes ".nbd.sock")
    ∷ []
    ∷ codes "[aws]"
    ∷ quoted (codes "secret_access_key") v.aws_secret_access_key
    ∷ quoted (codes "access_key_id") v.aws_access_key_id
    ∷ quoted (codes "default_region") v.aws_default_region
    ∷ quoted (codes "allow_http") v.aws_allow_http
    ∷ quoted (codes "endpoint") v.aws_endpoint
    ∷ []
    ∷ codes "[lsm]"
    ∷ bare (codes "l0_max_ssts") v.lsm_l0_max_ssts
    ∷ bare (codes "max_unflushed_gb") v.lsm_max_unflushed_gb
    ∷ bare (codes "max_concurrent_compactions") v.lsm_max_concurrent_compactions
    ∷ bare (codes "flush_interval_secs") v.lsm_flush_interval_secs
    ∷ []
    ∷ codes "[filesystem]"
    ∷ bare (codes "max_size_gb") v.filesystem_max_size_gb
    ∷ []

unlines : List Str → Str
unlines [] = []
unlines (line ∷ rest) = line ++ (codes "\n" ++ unlines rest)

unfoldable pub render_config : ConfigValues → Str
unfolding config_lines unlines
render_config v = unlines (config_lines v)

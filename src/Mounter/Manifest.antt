-- ===== src/Mounter/Manifest.antt =====
-- pkg/csi/zerofs.go: the pod that `CreatePod` asks for.
pub mod Probe
pub mod Named
use zerofs_csi_driver.Base.{
  true, false, Option, none, List, [], ◌∷◌, ◌++◌, Str, codes, if◌then◌else◌,
}
use zerofs_csi_driver.Base.Text.{Dict, value_of, or_default, is_true_word}
use zerofs_csi_driver.Kube.{
  Quantity, Pod, Container, Volume, VolumeMount, from_secret, host_path_or_create, from_config_map,
  OwnerReference,
}
use zerofs_csi_driver.Mounter.Config.{base_dir}
use zerofs_csi_driver.Mounter.Resources.{parse_resource_requirements}

abbrev pub pod_name_of : Str → Str
pod_name_of volume = codes "zerofs-volume-" ++ volume

abbrev pub secret_name_of : Str → Str
secret_name_of volume = codes "zerofs-config-" ++ volume

-- `ZeroFSDefaultImage` and `EnvoyDefaultImage`
abbrev pub default_image : Str
default_image = codes "ghcr.io/barre/zerofs:0.16.2"

abbrev pub envoy_default_image : Str
envoy_default_image = codes "envoyproxy/envoy-distroless:v1.34.4"

-- No reference if the DaemonSet's UID is empty or could not be read.
unfoldable pub owner_references_of : Str → List OwnerReference
owner_references_of [] = []
owner_references_of (c ∷ uid) =
    record {
      api_version = codes "apps/v1";
      kind = codes "DaemonSet";
      name = codes "zerofs-csi-node";
      uid = c ∷ uid;
      controller = true;
      block_owner_deletion = true;
    }
    ∷ []

abbrev shared_mount : Str → Str → VolumeMount
shared_mount name path = record {
  name = name;
  mount_path = path;
  read_only = false;
  bidirectional = true;
}

abbrev private_mount : Str → Str → VolumeMount
private_mount name path = record {
  name = name;
  mount_path = path;
  read_only = true;
  bidirectional = false;
}

abbrev pods_dir : Str
pods_dir = codes "/var/lib/kubelet/pods"

module _ (parse_quantity : Str → Option Quantity) where
  zerofs_container : Dict → Str → Container
  zerofs_container config volume = record {
    name = codes "zerofs";
    image = or_default (value_of (codes "zerofsImage") config) default_image;
    args = codes "run" ∷ codes "--config" ∷ codes "/etc/zerofs/config.toml" ∷ [];
    env =
        (
          codes "RUST_LOG",
          or_default (value_of (codes "rustLog") config) (codes "zerofs=debug,slatedb=debug"),
        )
        ∷ [];
    volume_mounts =
        private_mount (codes "zerofs-config") (codes "/etc/zerofs")
        ∷ shared_mount (codes "plugin-dir") base_dir
        ∷ shared_mount (codes "pod-mount-dir") pods_dir
        ∷ [];
    privileged = true;
    readiness_command =
        codes "sh"
        ∷ codes "-c"
        ∷ (codes "test -S " ++ (base_dir ++ (codes "/zerofs-" ++ (volume ++ codes ".9p.sock"))))
        ∷ [];
    readiness_delay_seconds = 10;
    restart_always = false;
    resources = parse_resource_requirements parse_quantity config;
  }

  envoy_container : Dict → Container
  envoy_container config = record {
    name = codes "envoy";
    image = or_default (value_of (codes "envoyImage") config) envoy_default_image;
    args = [];
    env = [];
    volume_mounts = private_mount (codes "envoy-config") (codes "/etc/envoy") ∷ [];
    privileged = false;
    readiness_command = [];
    readiness_delay_seconds = 0;
    restart_always = true;
    resources = none;
  }

  base_volumes : Str → List Volume
  base_volumes volume =
      record { name = codes "zerofs-config"; source = from_secret (secret_name_of volume) }
      ∷ record { name = codes "pod-mount-dir"; source = host_path_or_create pods_dir }
      ∷ record { name = codes "plugin-dir"; source = host_path_or_create base_dir }
      ∷ []

  envoy_volume : Dict → Volume
  envoy_volume config = record {
    name = codes "envoy-config";
    source =
        from_config_map
          (or_default (value_of (codes "envoyConfigMapRef") config) (codes "envoy-config"));
  }

  base_pod : Str → Dict → Str → Str → Str → Pod
  unfolding zerofs_container base_volumes owner_references_of
  base_pod namespace config volume node uid = record {
    name = pod_name_of volume;
    namespace = namespace;
    labels =
        (codes "app", codes "zerofs")
        ∷ (codes "type", codes "volume")
        ∷ (codes "volume", volume)
        ∷ [];
    owner_references = owner_references_of uid;
    node_name = node;
    termination_grace_seconds = 60;
    run_as_user = 0;
    run_as_group = 0;
    init_containers = [];
    containers = zerofs_container config volume ∷ [];
    volumes = base_volumes volume;
    conditions = [];
  }

  with_envoy : Dict → Pod → Pod
  unfolding envoy_container envoy_volume
  with_envoy config pod = record pod {
    init_containers = pod.init_containers ++ (envoy_container config ∷ []);
    volumes = pod.volumes ++ (envoy_volume config ∷ []);
  }

  -- Namespace, config map, volume, node and the DaemonSet's UID ("" if it could not be read).
  unfoldable pub pod_manifest : Str → Dict → Str → Str → Str → Pod
  unfolding base_pod with_envoy
  pod_manifest namespace config volume node uid =
      if is_true_word (value_of (codes "envoyEnabled") config)
      then with_envoy config (base_pod namespace config volume node uid)
      else base_pod namespace config volume node uid

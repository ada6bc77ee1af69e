-- ===== src/Kube.antt =====
-- The Kubernetes objects that pkg/csi/zerofs.go and pkg/csi/controller_delete.go read and write,
-- with the fields that they read or set.
use zerofs_csi_driver.Base.{ℕ, Bool, Option, List, Str}
use zerofs_csi_driver.Base.Text.{Dict}

-- A `resource.Quantity`, by its canonical text.
abbrev pub Quantity : Type 0
Quantity = Str

-- `corev1.ResourceRequirements`: two maps from `cpu` and `memory`, which may be nil.
pub record Resources : Type 0 where
  pub requests : Option Dict
  pub limits : Option Dict

-- A secret's `Data`, with its byte strings as text.
pub record Secret : Type 0 where
  pub name : Str
  pub namespace : Str
  pub resource_version : Str
  pub kind : Str
  pub entries : Dict

pub record OwnerReference : Type 0 where
  pub api_version : Str
  pub kind : Str
  pub name : Str
  pub uid : Str
  pub controller : Bool
  pub block_owner_deletion : Bool

pub record VolumeMount : Type 0 where
  pub name : Str
  pub mount_path : Str
  pub read_only : Bool
  pub bidirectional : Bool

pub data VolumeSource : Type 0 where
  from_secret : Str → VolumeSource
  host_path_or_create : Str → VolumeSource
  from_config_map : Str → VolumeSource

pub record Volume : Type 0 where
  pub name : Str
  pub source : VolumeSource

pub record Container : Type 0 where
  pub name : Str
  pub image : Str
  pub args : List Str
  pub env : Dict
  pub volume_mounts : List VolumeMount
  pub privileged : Bool
  pub readiness_command : List Str
  pub readiness_delay_seconds : ℕ
  pub restart_always : Bool
  pub resources : Option Resources

-- A status condition: its type and its status.
abbrev pub Condition : Type 0
Condition = Str × Str

pub record Pod : Type 0 where
  pub name : Str
  pub namespace : Str
  pub labels : Dict
  pub owner_references : List OwnerReference
  pub node_name : Str
  pub termination_grace_seconds : ℕ
  pub run_as_user : ℕ
  pub run_as_group : ℕ
  pub init_containers : List Container
  pub containers : List Container
  pub volumes : List Volume
  pub conditions : List Condition

-- A claim's namespace and name.
abbrev pub ClaimRef : Type 0
ClaimRef = Str × Str

-- `corev1.PersistentVolume`; `volume_handle` is that of its CSI source, if it has one.
pub record PersistentVolume : Type 0 where
  pub name : Str
  pub storage_class_name : Str
  pub claim_ref : Option ClaimRef
  pub volume_handle : Option Str

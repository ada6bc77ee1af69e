-- ===== src/Process.antt =====
-- cmd/driver/main.go and pkg/csi/driver.go: what the process hands to the gRPC server and to the
-- controller manager.
use zerofs_csi_driver.Base.{Bool, Str}

-- The services that `Start` registers, with the fields that it sets; the mounter is its namespace.
pub data Registration : Type 0 where
  identity : Registration
  controller : (name node_id namespace : Str) → Registration
  node : (name node_id namespace : Str) → Registration

-- `zeroFSDriver`, without its loggers and clients: whether `server` and `mounter` are not nil.
pub record Driver : Type 0 where
  pub name : Str
  pub version : Str
  pub node_id : Str
  pub enable_controller : Bool
  pub enable_node : Bool
  pub namespace : Str
  pub has_server : Bool

-- The values of the flags once they are parsed.
pub record Flags : Type 0 where
  pub controller : Bool
  pub node : Bool
  pub namespace : Str
  pub metrics_bind_address : Str

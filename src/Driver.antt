-- ===== src/Driver.antt =====
-- pkg/csi/driver.go: the start of the driver, its stop, and the identity service.
pub mod Main
pub mod Stages
pub mod Lifecycle
pub mod Registers
pub mod Scope
use zerofs_csi_driver.Base.{ℕ, ◌*◌, ◌^◌, Bool, true, false, List, [], ◌∷◌, Str, codes}
use zerofs_csi_driver.Base.FilePath.{join_path, dir}
use zerofs_csi_driver.Process.{Registration, Driver}
use zerofs_csi_driver.Host.{
  Env, Exec, Call, Removal, removed, absent, not_removed, unknown, perform, pure, fail, ◌>>=◌, ◌>>◌,
}

-- `driverName` and `version`
abbrev pub driver_name : Str
driver_name = codes "zerofs.csi.driver"

abbrev pub driver_version : Str
driver_version = codes "0.1.0"

-- `NewZeroFSDriver`
unfoldable pub new_zerofs_driver : Bool → Bool → Str → Driver
new_zerofs_driver enable_controller enable_node namespace = record {
  name = driver_name;
  version = driver_version;
  node_id = [];
  enable_controller = enable_controller;
  enable_node = enable_node;
  namespace = namespace;
  has_server = false;
}

-- `30 * time.Second`
abbrev pub connection_timeout : ℕ
connection_timeout = 30 * 10 ^ 9

abbrev plugins_dir : Str
plugins_dir = codes "/var/lib/kubelet/plugins"

unfoldable pub socket_path : Str
socket_path = join_path (plugins_dir ∷ driver_name ∷ codes "csi.sock" ∷ [])

-- The driver with its node ID and its server.
unfoldable pub started : Driver → Str → Driver
started d node_id = record d { node_id = node_id; has_server = true }

module _ {E : Env} where
  unfoldable pub register_controller : Driver → Bool → Exec E Unit
  register_controller d true = do
    perform (Call.register (Registration.controller driver_name d.node_id d.namespace))
    pure tt
  register_controller d false = pure tt

  -- The reconciler runs beside the server.
  unfoldable pub register_node : Driver → Bool → Exec E Unit
  register_node d true = do
    perform (Call.register (Registration.node driver_name d.node_id d.namespace))
    perform Call.go_reconcile
    pure tt
  register_node d false = pure tt

  unfoldable pub register_services : Driver → Exec E Unit
  register_services d = do
    perform (Call.register Registration.identity)
    register_controller d d.enable_controller
    register_node d d.enable_node

  unfoldable pub made_dir : Bool → Exec E Unit
  made_dir true = pure tt
  made_dir false = fail unknown (codes "failed to create directory for socket")

  -- `err != nil && !os.IsNotExist(err)`
  unfoldable pub cleared_socket : Removal → Exec E Unit
  cleared_socket removed = pure tt
  cleared_socket absent = pure tt
  cleared_socket not_removed = fail unknown (codes "failed to remove existing socket")

  unfoldable pub listening : Bool → Exec E Unit
  listening true = pure tt
  listening false = fail unknown (codes "failed to listen on socket")

  -- `Stop`
  unfoldable pub stop_server : Bool → Exec E Unit
  stop_server true = do perform Call.graceful_stop; pure tt
  stop_server false = pure tt

  unfoldable pub stop : Driver → Exec E Unit
  stop d = stop_server d.has_server

  unfoldable pub open_socket : Exec E Unit
  open_socket = do
    made ← perform (Call.mkdir_all (dir socket_path))
    made_dir made
    gone ← perform (Call.remove socket_path)
    cleared_socket gone
    bound ← perform (Call.listen (codes "unix") socket_path)
    listening bound

  -- Until the context is done; the reply is the text of `ctx.Err()`, which is not nil then.
  unfoldable pub serve_until_done : Driver → Exec E Unit
  serve_until_done d = do
    perform (Call.go_serve socket_path)
    reason ← perform Call.await_done
    stop d
    fail unknown reason

  unfoldable pub start_as : Driver → Exec E Unit
  start_as d = do
    perform (Call.new_server connection_timeout)
    register_services d
    open_socket
    serve_until_done d

  -- `Start`
  unfoldable pub start : Driver → Exec E Unit
  start d = do node_id ← perform (Call.get_env (codes "NODE_ID")); start_as (started d node_id)

-- `GetPluginInfo`: the name and the vendor's version.
unfoldable pub get_plugin_info : Str × Str
get_plugin_info = (driver_name, driver_version)

pub data PluginCapability : Type 0 where
  controller_service volume_accessibility_constraints : PluginCapability

unfoldable pub get_plugin_capabilities : List PluginCapability
get_plugin_capabilities =
    PluginCapability.controller_service ∷ PluginCapability.volume_accessibility_constraints ∷ []

-- `Probe`: ready
unfoldable pub probe : Bool
probe = true

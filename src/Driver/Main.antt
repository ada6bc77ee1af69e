-- ===== src/Driver/Main.antt =====
-- cmd/driver/main.go: flags, the controller manager, and the driver that it runs. An exit with status
-- 1 is an error.
use zerofs_csi_driver.Base.{Bool, true, false, Str, codes}
use zerofs_csi_driver.Base.Text.{or_default}
use zerofs_csi_driver.Process.{Flags}
use zerofs_csi_driver.Host.{Env, Exec, Call, unknown, perform, pure, fail, ◌>>=◌, ◌>>◌}
use zerofs_csi_driver.Driver.{new_zerofs_driver}

-- The defaults of the flags; the environment gives the address of the metrics.
unfoldable pub default_flags : Str → Flags
default_flags address = record {
  controller = false;
  node = false;
  namespace = codes "zerofs";
  metrics_bind_address = or_default address (codes ":8080");
}

module _ {E : Env} where
  -- `os.Exit(1)` behind a call that fails.
  unfoldable pub or_exit : Bool → Exec E Unit
  or_exit true = pure tt
  or_exit false = fail unknown (codes "exit status 1")

  unfoldable pub run_manager : Flags → Exec E Unit
  run_manager flags = do
    made ← perform (Call.new_manager flags.metrics_bind_address flags.namespace)
    or_exit made
    added ←
        perform (Call.add_driver (new_zerofs_driver flags.controller flags.node flags.namespace))
    or_exit added
    ended ← perform Call.start_manager
    or_exit ended

  unfoldable pub main : Exec E Unit
  main = do
    address ← perform (Call.get_env (codes "METRICS_BIND_ADDRESS"))
    flags ← perform (Call.parse_flags (default_flags address))
    configured ← perform Call.get_config
    or_exit configured
    run_manager flags

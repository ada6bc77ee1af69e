-- ===== src/Examples/Start.antt =====
-- The theorems on the start of the driver, applied.
use mathlib.Core.List.{Memᴰ}
use zerofs_csi_driver.Host.{Env, Sys, Call, Reply, perform, pure, ◌>>=◌}
use zerofs_csi_driver.Driver.Main.{default_flags, or_exit, run_manager, main}
use zerofs_csi_driver.Driver.Scope.{IsWithin, main-IsWithin}
use zerofs_csi_driver.Base.{◌≡◌, refl, All, true, false, ◌⊎◌, ◌||◌, [], codes}
use zerofs_csi_driver.Process.{Driver}
use zerofs_csi_driver.Driver.{new_zerofs_driver, start}
use zerofs_csi_driver.Driver.Registers.{registered, reconciles, services, start-registers}
use zerofs_csi_driver.Driver.Stages.{is_served, is_stopped}
use zerofs_csi_driver.Driver.Lifecycle.{IsFailedIn, start-orderly}
use zerofs_csi_driver.Examples.Machine.{Files, no_files, removal}
use zerofs_csi_driver.Examples.Machine
use zerofs_csi_driver.Examples.Requests.{served}

abbrev node_driver : Driver
node_driver = new_zerofs_driver false true (codes "zerofs")

start-registers_example :
    let t = (start {E = served} node_driver (Machine.start no_files)).1 in
    (registered t.log ≡ services node_driver (codes "n1") [])
    × (reconciles t.log ≡ (node_driver.enable_node || false))
start-registers_example = start-registers {E = served} node_driver (Machine.start no_files)

start-orderly_example :
    IsFailedIn
      (λ t. (is_served t.log ≡ false) ⊎ (is_stopped t.log ≡ true))
      (start {E = served} node_driver (Machine.start no_files))
start-orderly_example = start-orderly {E = served} node_driver (Machine.start no_files) refl

-- A machine where the node service is enabled on the command line.
abbrev node_reply : (c : Call) → Files → Reply c × Files
node_reply (Call.parse_flags defaults) w = (record defaults { node = true }, w)
node_reply c w = served.answer c w

abbrev node_machine : Env
node_machine = record { World = Files; answer = node_reply }

abbrev fresh : Sys node_machine
fresh = record { world = no_files; log = [] }

main-IsWithin_example :
    All (IsWithin (codes "zerofs")) (registered (start {E = node_machine} node_driver fresh).1.log)
unfolding main run_manager or_exit perform pure ◌>>=◌ default_flags
main-IsWithin_example =
    main-IsWithin {E = node_machine} fresh refl refl (codes "zerofs") node_driver (Memᴰ.head refl)
      (Memᴰ.head refl) fresh refl

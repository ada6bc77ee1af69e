-- ===== src/Examples/Devices.antt =====
-- The theorems on devices and reservations, applied.
use zerofs_csi_driver.Base.{◌≡◌, refl, true, false, none, some, [], ◌∷◌, List, Str, codes, arith}
use zerofs_csi_driver.Base.Text.{trim_space, is_blank}
use zerofs_csi_driver.Base.FilePath.{join_path, base}
use zerofs_csi_driver.Host.{Call, ok, found}
use zerofs_csi_driver.Host.Files.{is_own}
use zerofs_csi_driver.Nbd.Devices.{is_nbd_device_path, list_nbd_devices}
use zerofs_csi_driver.Nbd.Devices.Order.{Matches, IsInOrder, list_nbd_devices-IsInOrder}
use zerofs_csi_driver.Base.Text.Decimal.{format_nat}
use zerofs_csi_driver.Examples.Machine.{no_files}
use zerofs_csi_driver.Nbd.State.{volume_nbd_state_path, device_reservation_path}
use zerofs_csi_driver.Nbd.Reserve.{take_free, collect_reservation}
use zerofs_csi_driver.Nbd.Reserve.Collect.{kept, take_free-honours, collect_reservation-kept}
use zerofs_csi_driver.Node.Reconcile.{reconcile_orphaned_nbd_devices}
use zerofs_csi_driver.Node.Reconcile.Orphans.{DetachesOnlyOrphans, reconcile-DetachesOnlyOrphans}
use zerofs_csi_driver.Examples.Machine.{machine-IsFileSystem, start}
use zerofs_csi_driver.Examples.Requests.{programs, absent_pod, unserved, own_state}

reconcile-DetachesOnlyOrphans_example :
    DetachesOnlyOrphans (reconcile_orphaned_nbd_devices {E = unserved} (start own_state)).1.log
reconcile-DetachesOnlyOrphans_example =
    reconcile-DetachesOnlyOrphans {E = unserved} (start own_state) tt

partition_apart : is_nbd_device_path (codes "/dev/nbd2p1") ≡ false
unfolding is_nbd_device_path
partition_apart = refl

abbrev found_devices : List Str
found_devices = codes "/dev/nbd10" ∷ codes "/dev/nbd2" ∷ codes "/dev/nbd2p1" ∷ []

list_nbd_devices-IsInOrder_example :
    (ds : List Str) × ((list_nbd_devices {E = unserved} (start no_files)).0 ≡ ok ds)
    × IsInOrder (10 ∷ 2 ∷ []) ds
unfolding format_nat
list_nbd_devices-IsInOrder_example =
    list_nbd_devices-IsInOrder {E = unserved} (start no_files) found_devices (10 ∷ 2 ∷ []) refl (
      Matches.device 10 _ _ (omega arith) (
        Matches.device 2 _ _ (omega arith)
          (Matches.other (codes "/dev/nbd2p1") _ _ partition_apart Matches.no_match)))

nbd2_own : is_own (device_reservation_path (codes "/dev/nbd2")) ≡ true
unfolding device_reservation_path join_path base trim_space
nbd2_own = refl

v1_text_own : is_own (volume_nbd_state_path (trim_space (codes "v1"))) ≡ true
unfolding volume_nbd_state_path join_path trim_space
v1_text_own = refl

v1_reserves : own_state (device_reservation_path (codes "/dev/nbd2")) ≡ some (codes "v1")
unfolding device_reservation_path join_path base trim_space
v1_reserves = refl

v1_recorded : own_state (volume_nbd_state_path (trim_space (codes "v1"))) ≡ some (codes "/dev/nbd2")
unfolding volume_nbd_state_path join_path trim_space
v1_recorded = refl

v1_not_blank : is_blank (codes "v1") ≡ false
unfolding trim_space
v1_not_blank = refl

nbd2_age :
    (unserved.answer (Call.stat (device_reservation_path (codes "/dev/nbd2"))) own_state).0
    ≡ found 0
nbd2_age = rw v1_reserves refl

take_free-honours_example :
    ((take_free {E = unserved} (codes "v2") (codes "/dev/nbd2") (start own_state)).0 ≡ ok none)
    × ((take_free {E = unserved} (codes "v2") (codes "/dev/nbd2") (start own_state)).1.world
          (device_reservation_path (codes "/dev/nbd2"))
        ≡ some (codes "v1"))
take_free-honours_example =
    take_free-honours {E = unserved} (λ w. w) (machine-IsFileSystem 0 programs absent_pod)
      (codes "v2") (codes "/dev/nbd2") (codes "v1") (codes "/dev/nbd2") 0 (start own_state) nbd2_own
      v1_text_own v1_reserves v1_recorded v1_not_blank nbd2_age (omega arith)

collect_reservation-kept_example :
    (collect_reservation {E = unserved}
        (device_reservation_path (codes "/dev/nbd2"))
        (found 7200000000001)
        (start own_state)).1.world
      (device_reservation_path (codes "/dev/nbd2"))
    ≡ kept
        (trim_space (codes "v1"))
        (own_state (volume_nbd_state_path (trim_space (codes "v1"))))
        7200000000001
        (codes "v1")
collect_reservation-kept_example =
    collect_reservation-kept {E = unserved} (λ w. w) (machine-IsFileSystem 0 programs absent_pod)
      (device_reservation_path (codes "/dev/nbd2")) (codes "v1") 7200000000001 (start own_state)
      nbd2_own v1_text_own v1_reserves

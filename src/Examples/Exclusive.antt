-- ===== src/Examples/Exclusive.antt =====
-- The theorems on the exclusive use of devices, applied.
use mathlib.Core.List.{Memᴰ}
use zerofs_csi_driver.Base.{true, [], ◌∷◌, ◌≡◌, refl, ℕ, ◌≤◌, Option, none, some, Str, codes, arith}
use zerofs_csi_driver.Base.Text.{is_space, trim_space, has_prefix}
use zerofs_csi_driver.Base.FilePath.{clean, join_path, base}
use zerofs_csi_driver.Host.{Sys, found, ok, ◌>>=◌}
use zerofs_csi_driver.Nbd.Devices.{
  pid_path, is_nbd_device_path, device_number, sort_devices, listed, list_nbd_devices, is_positive,
  pid_state, is_nbd_connected,
}
use zerofs_csi_driver.Nbd.Devices.Names.{IsDevice}
use zerofs_csi_driver.Nbd.State.{
  clear_volume_nbd_state, volume_nbd_state_path, device_reservation_path, check, ensure_run_dirs,
  read_volume_nbd_state, write_volume_nbd_state,
}
use zerofs_csi_driver.Nbd.State.Paths.{IsVolume}
use zerofs_csi_driver.Nbd.Reserve.{
  two_hours, reuse_state, collect_reservation, finish_reservation, claim, take_free, try_device,
  reserve_round, first_free, scan_devices, or_scan, reserve_nbd_device,
}
use zerofs_csi_driver.Nbd.Exclusive.{recorded, IsExclusive}
use zerofs_csi_driver.Nbd.Exclusive.Scan.{IsBusyWhenOld}
use zerofs_csi_driver.Nbd.Exclusive.Reserve.{reserve_nbd_device-reserves}
use zerofs_csi_driver.Nbd.Exclusive.Refines.{IsAssigned, reserve_nbd_device-IsAssigned}
use zerofs_csi_driver.Nbd.Exclusive.Finds.{reserve_nbd_device-finds}
use zerofs_csi_driver.Nbd.Exclusive.Rounds.{IsOffered}
use zerofs_csi_driver.Nbd.Exclusive.Releases.{clear_volume_nbd_state-releases}
use zerofs_csi_driver.Nbd.Exclusive.Steps.{Step, Reach, Reach-one_volume}
use zerofs_csi_driver.Node.Publish.{node_publish_volume}
use zerofs_csi_driver.Node.Publish.Exclusive.{node_publish_volume-Exclusive}
use zerofs_csi_driver.Examples.Machine.{
  Files, no_files, stat_of, machine-IsReliable, machine-IsFileSystem, machine-IsWritable, start,
}
use zerofs_csi_driver.Examples.Requests.{service, publish_request, programs, absent_pod, unserved}

pub v1-IsVolume : IsVolume (codes "v1")
unfolding is_space
v1-IsVolume = record {
  name = record { plain = (refl, (refl, tt)); given = refl; not_here = refl; not_up = refl };
  no_space = (refl, (refl, tt));
}

pub stat_of-young : (o : Option Str) (age : ℕ) → stat_of 0 o ≡ found age → age ≤ two_hours
stat_of-young none age e = absurd (cc)
stat_of-young (some x) age e = ground arith

unserved_busy : IsBusyWhenOld unserved
unserved_busy = record { young = λ d s dev no_server age e. stat_of-young _ age e }

no_files_agree : IsExclusive (λ (w : Files). w) no_files
no_files_agree = record { reserved = λ v d h e. absurd (cc (e)) }

v1_reserves_nbd2 :
    (reserve_nbd_device {E = unserved} (codes "v1") (start no_files)).0 ≡ ok (codes "/dev/nbd2")
unfolding ◌>>=◌ clean join_path base trim_space is_nbd_device_path device_number sort_devices listed
    list_nbd_devices is_positive pid_state is_nbd_connected volume_nbd_state_path
    device_reservation_path check ensure_run_dirs read_volume_nbd_state write_volume_nbd_state
    reuse_state collect_reservation finish_reservation claim take_free try_device reserve_round
    first_free scan_devices or_scan reserve_nbd_device
v1_reserves_nbd2 = refl

reserve_nbd_device-reserves_example :
    let w = (reserve_nbd_device {E = unserved} (codes "v1") (start no_files)).1.world in
    IsDevice (codes "/dev/nbd2")
    × (recorded (λ (x : Files). x) w (codes "v1") ≡ some (codes "/dev/nbd2"))
    × (w (device_reservation_path (codes "/dev/nbd2")) ≡ some (codes "v1"))
    × IsExclusive (λ (x : Files). x) w
reserve_nbd_device-reserves_example =
    reserve_nbd_device-reserves {E = unserved} (λ w. w) (machine-IsReliable 0 programs absent_pod)
      (codes "v1") v1-IsVolume unserved_busy (start no_files) (codes "/dev/nbd2") no_files_agree
      v1_reserves_nbd2

-- The machine behind the reservation of `v1`.
abbrev pub behind : Sys unserved
behind = (reserve_nbd_device {E = unserved} (codes "v1") (start no_files)).1

pub behind-IsExclusive : IsExclusive (λ (w : Files). w) behind.world
behind-IsExclusive = reserve_nbd_device-reserves_example.3

v1_recorded : recorded (λ (x : Files). x) behind.world (codes "v1") ≡ some (codes "/dev/nbd2")
v1_recorded = reserve_nbd_device-reserves_example.1

one_reservation : Reach {E = unserved} (λ w. w) (start no_files) behind
one_reservation =
    Reach.later _ _ _ (Reach.here (start no_files))
      (Step.reserve (codes "v1") (start no_files) v1-IsVolume)

Reach-one_volume_example : codes "v1" ≡ codes "v1"
Reach-one_volume_example =
    Reach-one_volume {E = unserved} (λ w. w) (machine-IsReliable 0 programs absent_pod)
      unserved_busy (start no_files) behind (codes "v1") (codes "v1") (codes "/dev/nbd2")
      (λ x. refl) one_reservation v1-IsVolume v1-IsVolume v1_recorded v1_recorded

node_publish_volume-Exclusive_example :
    IsExclusive
      (λ (w : Files). w)
      (node_publish_volume {E = unserved} service publish_request (start no_files)).1.world
node_publish_volume-Exclusive_example =
    node_publish_volume-Exclusive {E = unserved} (λ w. w) (machine-IsReliable 0 programs absent_pod)
      unserved_busy service publish_request v1-IsVolume (start no_files) no_files_agree

reserve_nbd_device-IsAssigned_example :
    IsAssigned (codes "v1") (recorded (λ (w : Files). w) no_files) (
      recorded
        (λ (w : Files). w)
        (reserve_nbd_device {E = unserved} (codes "v1") (start no_files)).1.world)
reserve_nbd_device-IsAssigned_example =
    reserve_nbd_device-IsAssigned {E = unserved} (λ w. w) (machine-IsReliable 0 programs absent_pod)
      (codes "v1") v1-IsVolume unserved_busy (start no_files) no_files_agree

pub nbd2-IsDevice : IsDevice (codes "/dev/nbd2")
nbd2-IsDevice = reserve_nbd_device-reserves_example.0

nbd2_idle : has_prefix (pid_path (codes "/dev/nbd2")) (codes "/sys/") ≡ true
unfolding clean join_path base trim_space
nbd2_idle = refl

nbd2-IsOffered :
    (w : Files)
    → IsOffered unserved
        (codes "/dev/nbd2")
        (codes "/dev/nbd10" ∷ codes "/dev/nbd2" ∷ codes "/dev/nbd2p1" ∷ [])
        w
nbd2-IsOffered w = record { idle = rw nbd2_idle refl; listed = refl }

reserve_nbd_device-finds_example :
    (c : Str) × ((reserve_nbd_device {E = unserved} (codes "v1") (start no_files)).0 ≡ ok c)
reserve_nbd_device-finds_example =
    reserve_nbd_device-finds {E = unserved} (λ w. w) (machine-IsFileSystem 0 programs absent_pod)
      (machine-IsWritable 0 programs absent_pod) (codes "v1") v1-IsVolume (codes "/dev/nbd2")
      nbd2-IsDevice (codes "/dev/nbd10" ∷ codes "/dev/nbd2" ∷ codes "/dev/nbd2p1" ∷ [])
      (λ c w k o. nbd2-IsOffered _) (Memᴰ.tail (Memᴰ.head refl)) (start no_files) (nbd2-IsOffered _)
      refl refl

clear_volume_nbd_state-releases_example :
    let w =
      (clear_volume_nbd_state {E = unserved} (codes "v1") (codes "/dev/nbd2") behind).1.world in
    IsAssigned
      (codes "v1")
      (recorded (λ (x : Files). x) behind.world)
      (recorded (λ (x : Files). x) w)
    × (recorded (λ (x : Files). x) w (codes "v1") ≡ none)
    × (w (device_reservation_path (codes "/dev/nbd2")) ≡ none)
    × IsExclusive (λ (x : Files). x) w
clear_volume_nbd_state-releases_example =
    clear_volume_nbd_state-releases {E = unserved} (λ w. w)
      (machine-IsReliable 0 programs absent_pod) (codes "v1") v1-IsVolume (codes "/dev/nbd2") behind
      reserve_nbd_device-reserves_example.3 v1_recorded

-- ===== src/Examples/Served.antt =====
-- The theorems on whole requests and on their effect on the devices, applied.
use zerofs_csi_driver.Base.{
  ◌≡◌, ◌≢◌, refl, Bool, true, false, none, some, [], Str, codes, if◌then◌else◌,
}
use zerofs_csi_driver.Base.Text.{trim_space}
use zerofs_csi_driver.Base.FilePath.{clean, join_path, base}
use zerofs_csi_driver.Host.{Env, ok, got, ◌>>=◌}
use zerofs_csi_driver.Host.Files.{read_of}
use zerofs_csi_driver.Nbd.Devices.{find_mount_source}
use zerofs_csi_driver.Nbd.State.{device_in, volume_nbd_state_path, device_reservation_path}
use zerofs_csi_driver.Nbd.Exclusive.{recorded, IsExclusive}
use zerofs_csi_driver.Nbd.Exclusive.Scan.{IsBusyWhenOld}
use zerofs_csi_driver.Nbd.Exclusive.GivesUp.{IsReleased}
use zerofs_csi_driver.Node.Publish.{node_publish_volume}
use zerofs_csi_driver.Node.Unpublish.{node_unpublish_volume}
use zerofs_csi_driver.Node.Unpublish.Releases.{Trusts, node_unpublish_volume-releases}
use zerofs_csi_driver.Node.Unpublish.Leaves.{node_unpublish_volume-leaves}
use zerofs_csi_driver.Node.Sequence.{Serve, Served, Served-one_volume}
use zerofs_csi_driver.Examples.Machine.{
  Files, machine, machine-IsFileSystem, machine-IsReliable, start,
}
use zerofs_csi_driver.Examples.Requests.{
  service, publish_request, unpublish_request, programs, absent_pod, ready_pod, served, unserved,
  with_socket, own_state,
}
use zerofs_csi_driver.Examples.Runs.{publish_records}
use zerofs_csi_driver.Examples.Paths.{t_given}
use zerofs_csi_driver.Examples.Exclusive.{
  v1-IsVolume, nbd2-IsDevice, stat_of-young, behind, behind-IsExclusive,
}

findmnt_finds_none : Trusts {E = unserved} (λ w. w) (codes "v1") (codes "/t") behind
unfolding find_mount_source ◌>>=◌
findmnt_finds_none src e = absurd (cc (e))

node_unpublish_volume-releases_example :
    let w = (node_unpublish_volume {E = unserved} service unpublish_request behind).1.world in
    IsReleased
      (codes "v1")
      (recorded (λ (x : Files). x) behind.world)
      (recorded (λ (x : Files). x) w)
    × IsExclusive (λ (x : Files). x) w
node_unpublish_volume-releases_example =
    node_unpublish_volume-releases {E = unserved} (λ w. w)
      (machine-IsReliable 0 programs absent_pod) service unpublish_request behind v1-IsVolume
      t_given findmnt_finds_none behind-IsExclusive

-- A machine where the target is no mount point, and lies on another disk.
abbrev elsewhere : Env
elsewhere =
    machine 0 (λ program args. record { text = codes "/dev/sda1\n"; failed = false }) absent_pod

findmnt_finds_sda1 :
    (find_mount_source {E = elsewhere} (codes "/t") (start own_state)).0
    ≡ ok (some (codes "/dev/sda1"))
unfolding find_mount_source ◌>>=◌ trim_space
findmnt_finds_sda1 = refl

own_state_names : recorded (λ (w : Files). w) own_state (codes "v1") ≡ some (codes "/dev/nbd2")
unfolding volume_nbd_state_path join_path clean trim_space
own_state_names = refl

sda1-not_nbd2 :
    device_reservation_path (codes "/dev/sda1") ≢ device_reservation_path (codes "/dev/nbd2")
unfolding device_reservation_path join_path clean base trim_space
sda1-not_nbd2 e = absurd (cc (e))

node_unpublish_volume-leaves_example :
    let (r, t) =
      node_unpublish_volume {E = elsewhere} service unpublish_request (start own_state) in
    (r ≡ ok tt)
    × (recorded (λ (w : Files). w) t.world (codes "v1") ≡ none)
    × (t.world (device_reservation_path (codes "/dev/nbd2"))
        ≡ own_state (device_reservation_path (codes "/dev/nbd2")))
node_unpublish_volume-leaves_example =
    node_unpublish_volume-leaves {E = elsewhere} (λ w. w)
      (machine-IsFileSystem 0
        (λ program args. record { text = codes "/dev/sda1\n"; failed = false }) absent_pod)
      service unpublish_request (start own_state) (codes "/dev/nbd2") (codes "/dev/sda1")
      v1-IsVolume t_given nbd2-IsDevice own_state_names findmnt_finds_sda1 sda1-not_nbd2

served_busy : IsBusyWhenOld served
served_busy = record { young = λ d s dev no_server age e. stat_of-young _ age e }

blank_or_missing : (b : Bool) → device_in (read_of (if b then some [] else none)) ≡ none
unfolding trim_space
blank_or_missing true = refl
blank_or_missing false = refl

with_socket_blank : (v : Str) → recorded (λ (w : Files). w) with_socket v ≡ none
with_socket_blank v = blank_or_missing _

Served-one_volume_example :
    let t = (node_publish_volume {E = served} service publish_request (start with_socket)).1 in
    (t.world (device_reservation_path (codes "/dev/nbd2")) ≡ some (codes "v1"))
    × (recorded (λ (w : Files). w) t.world (codes "v1") ≡ some (codes "/dev/nbd2")
        → codes "v1" ≡ codes "v1")
Served-one_volume_example =
    Served-one_volume {E = served} (λ w. w) (machine-IsReliable 0 programs (got ready_pod))
      served_busy (start with_socket) _ (codes "v1") (codes "v1") (codes "/dev/nbd2")
      with_socket_blank
      (Served.one_more _ _ _ (Served.none_yet (start with_socket))
        (Serve.publish service publish_request (start with_socket) v1-IsVolume))
      v1-IsVolume v1-IsVolume publish_records

-- ===== src/Examples/Requests.antt =====
-- Requests, programs and files for the small machine.
use zerofs_csi_driver.Base.{some, false, List, [], ◌∷◌, Str, codes, ◌===◌}
use zerofs_csi_driver.Kube.{Pod}
use zerofs_csi_driver.Host.{Env, Output, Answer, got, refused}
use zerofs_csi_driver.Node.Request.{Service, PublishRequest, UnpublishRequest}
use zerofs_csi_driver.Examples.Machine.{Files, with_file, no_files, machine}

abbrev pub service : Service
service = record {
  node_id = codes "n1";
  namespace = codes "ns";
  parse_quantity = λ s. some s;
  lower_rune = λ c. c;
}

abbrev pub publish_request : PublishRequest
publish_request = record {
  volume_id = codes "v1";
  target_path = codes "/t";
  capability = some (codes "noatime" ∷ []);
  volume_context =
      (codes "filesystem", codes "ext4")
      ∷ (codes "capacity_bytes", codes "1024")
      ∷ (codes "configMapName", codes "cm")
      ∷ [];
}

abbrev pub unpublish_request : UnpublishRequest
unpublish_request = record { volume_id = codes "v1"; target_path = codes "/t" }

-- Nothing is mounted, and every other program succeeds.
abbrev pub programs : Str → List Str → Output
programs program args = record { text = []; failed = program === codes "findmnt" }

abbrev pub ready_pod : Pod
ready_pod = record {
  name = codes "zerofs-volume-v1";
  namespace = codes "ns";
  labels = [];
  owner_references = [];
  node_name = codes "n1";
  termination_grace_seconds = 30;
  run_as_user = 0;
  run_as_group = 0;
  init_containers = [];
  containers = [];
  volumes = [];
  conditions = (codes "Ready", codes "True") ∷ [];
}

abbrev pub absent_pod : Answer Pod
absent_pod = refused (codes "pods not found")

-- A machine where the server of the volume answers, and one where no pod is there.
abbrev pub served : Env
served = machine 0 programs (got ready_pod)

abbrev pub unserved : Env
unserved = machine 0 programs absent_pod

abbrev pub with_socket : Files
with_socket =
    with_file (codes "/var/lib/kubelet/plugins/zerofs.csi.driver/zerofs-v1.9p.sock") (some [])
      no_files

abbrev pub own_state : Files
own_state =
    with_file (codes "/run/zerofs-csi/v1") (some (codes "/dev/nbd2"))
      (with_file (codes "/run/zerofs-csi/by-device/nbd2") (some (codes "v1")) no_files)

-- A machine where the target is mounted already.
abbrev pub mounted : Env
mounted =
    machine 0 (λ program args. record { text = codes "/dev/nbd2\n"; failed = false })
      (got ready_pod)

-- A machine where deletion of the data is enabled, and one object is there.
abbrev pub deleting : Env
deleting = machine 0 programs absent_pod

-- ===== src/Node/Disk/Sockets.antt =====
-- pkg/csi/node.go and pkg/csi/zerofs.go: the sockets that a publish uses are those of the volume's pod.
use zerofs_csi_driver.Base.{
  ◌≡◌, some, get_elem?, refl, false, Option, ◌++◌, Str, codes, ◌==◌, All-append,
}
use zerofs_csi_driver.Base.Text.{Dict}
use zerofs_csi_driver.Base.FilePath.Names.{NoSlash, IsName, join_path-base_dir}
use zerofs_csi_driver.Kube.{Quantity}
use zerofs_csi_driver.Mounter.Config.{base_dir, config_values, config_lines}
use zerofs_csi_driver.Mounter.Config.Reads.{Reads, in_quotes, config_lines-ninep, config_lines-nbd}
use zerofs_csi_driver.Node.Attach.{connect_args}
use zerofs_csi_driver.Mounter.Manifest.{pod_manifest}
use zerofs_csi_driver.Mounter.Manifest.Probe.{test_command, IsProbedBy, pod_manifest-IsProbedBy}
use zerofs_csi_driver.Node.Disk.{socket_path, nbd_socket_path}

socket_file-NoSlash :
    (volume suffix : Str)
    → NoSlash volume
    → NoSlash suffix
    → NoSlash (codes "zerofs-" ++ (volume ++ suffix))
socket_file-NoSlash volume suffix h k = (
  refl,
  (
    refl,
    (refl, (refl, (refl, (refl, (refl, All-append (λ c. (c == b'/') ≡ false) volume suffix h k))))),
  ),
)

socket_file-IsName :
    (volume suffix : Str)
    → NoSlash volume
    → NoSlash suffix
    → IsName (codes "zerofs-" ++ (volume ++ suffix))
socket_file-IsName volume suffix h k = record {
  plain = socket_file-NoSlash volume suffix h k;
  given = refl;
  not_here = refl;
  not_up = refl;
}

pub socket_path-under :
    (volume : Str)
    → NoSlash volume
    → socket_path volume ≡ base_dir ++ (codes "/zerofs-" ++ (volume ++ codes ".9p.sock"))
socket_path-under volume h = join_path-base_dir _ (
    socket_file-IsName volume (codes ".9p.sock") h
      (refl, (refl, (refl, (refl, (refl, (refl, (refl, (refl, tt)))))))))

pub nbd_socket_path-under :
    (volume : Str)
    → NoSlash volume
    → nbd_socket_path volume ≡ base_dir ++ (codes "/zerofs-" ++ (volume ++ codes ".nbd.sock"))
nbd_socket_path-under volume h = join_path-base_dir _ (
    socket_file-IsName volume (codes ".nbd.sock") h
      (refl, (refl, (refl, (refl, (refl, (refl, (refl, (refl, (refl, tt))))))))))

-- For a volume whose identifier has no slash, the path that NodePublishVolume computes for the 9p socket
-- is the one that the configuration of the volume's pod has in the table of the 9p server, and
-- the one that the pod's readiness probe tests; and the path in the table of the NBD server is the
-- argument that nbd-client gets behind -unix.
pub sockets-agree :
    (parse_quantity : Str → Option Quantity) (namespace : Str) (config : Dict)
    (volume node uid password access_key secret_key dev : Str)
    → NoSlash volume
    → let lines = config_lines (config_values config volume password access_key secret_key) in
      Reads lines (codes "[servers.ninep]", codes "unix_socket", in_quotes (socket_path volume))
      × IsProbedBy
          (test_command (socket_path volume))
          (pod_manifest parse_quantity namespace config volume node uid)
      × ((socket : Str) × Reads lines (codes "[servers.nbd]", codes "unix_socket", in_quotes socket)
          × (get_elem? (connect_args volume dev) 0 ≡ some (codes "-unix"))
          × (get_elem? (connect_args volume dev) 1 ≡ some socket))
unfolding config_values
sockets-agree parse_quantity namespace config volume node uid password access_key secret_key dev h =
    let v = config_values config volume password access_key secret_key in
    rw (socket_path-under volume h) (
      config_lines-ninep v,
      pod_manifest-IsProbedBy parse_quantity namespace config volume node uid,
      (
        nbd_socket_path volume,
        rw (nbd_socket_path-under volume h) (config_lines-nbd v),
        refl,
        refl,
      ),
    )

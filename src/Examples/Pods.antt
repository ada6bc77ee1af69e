-- ===== src/Examples/Pods.antt =====
-- The theorems on the pods of volumes, applied.
use zerofs_csi_driver.Base.{
  get_elem?, ◌⊎◌, true, some, [], ◌∷◌, All, ◌≡◌, refl, ◌+◌, ◌*◌, ◌≤◌, ◌↔◌, length, codes, arith,
}
use zerofs_csi_driver.Base.Text.{trim_space, split}
use zerofs_csi_driver.Base.Text.Decimal.{pos, parse_int}
use zerofs_csi_driver.Host.{Err, err, ◌>>=◌}
use zerofs_csi_driver.Mounter.Timeout.{pod_ready_timeout}
use zerofs_csi_driver.Mounter.Timeout.Exact.{pod_ready_timeout-exact}
use zerofs_csi_driver.Mounter.Wait.{wait_for_pod_deletion, deletion_ticks, deletion_tick}
use zerofs_csi_driver.Mounter.Create.{create_pod}
use zerofs_csi_driver.Mounter.Remove.{remove_pod}
use zerofs_csi_driver.Mounter.Settled.{Settled}
use zerofs_csi_driver.Mounter.Bounded.{remove_pod-ends}
use zerofs_csi_driver.Mounter.Manifest.{pod_name_of, pod_manifest}
use zerofs_csi_driver.Mounter.Manifest.Probe.{test_command, IsProbedBy}
use zerofs_csi_driver.Mounter.Config.{ConfigValues, config_values, config_lines, render_config}
use zerofs_csi_driver.Mounter.Config.Lines.{is_line, shown, ◌&◌}
use zerofs_csi_driver.Mounter.Config.Reads.{Reads, in_quotes, in_tables, render_config-Reads}
use zerofs_csi_driver.Node.Attach.{connect_args}
use zerofs_csi_driver.Node.Disk.{socket_path}
use zerofs_csi_driver.Node.Disk.Sockets.{sockets-agree}
use zerofs_csi_driver.Mounter.Seen.{
  SawNone, SawReady, wait_for_pod_deletion-SawNone, create_pod-SawReady,
}
use zerofs_csi_driver.Base.Text.{Dict}
use zerofs_csi_driver.Base.{none, Str}
use zerofs_csi_driver.Mounter.Resources.{parse_resource_requirements}
use zerofs_csi_driver.Mounter.Resources.Entries.{
  Side, limit, granted, asked_by, entry_of, parse_resource_requirements-grants,
}
use zerofs_csi_driver.Examples.Machine.{no_files, settings, start}
use zerofs_csi_driver.Examples.Requests.{service, served, unserved}
use zerofs_csi_driver.Examples.Runs.{create_pod_runs}

pod_ready_timeout-exact_example :
    (60 ≤ 9223372036) ↔ (pod_ready_timeout settings ≡ pos (60 * 1000000000))
unfolding parse_int trim_space
pod_ready_timeout-exact_example = pod_ready_timeout-exact settings 60 refl (omega arith)

wait_for_pod_deletion-SawNone_example :
    SawNone
      (codes "ns")
      (codes "p")
      (wait_for_pod_deletion {E = unserved} (codes "p") (codes "ns") (pos 1) (start no_files)).1.log
unfolding wait_for_pod_deletion deletion_ticks deletion_tick ◌>>=◌
wait_for_pod_deletion-SawNone_example =
    wait_for_pod_deletion-SawNone {E = unserved} (codes "p") (codes "ns") (pos 1) (start no_files)
      refl

create_pod-SawReady_example :
    SawReady
      (codes "ns")
      (pod_name_of (codes "v1"))
      (create_pod {E = served} service.parse_quantity
        (codes "ns")
        (codes "v1")
        (codes "n1")
        (codes "cm")
        (start no_files)).1.log
create_pod-SawReady_example =
    create_pod-SawReady {E = served} service.parse_quantity (codes "ns") (codes "v1") (codes "n1")
      (codes "cm") (start no_files) create_pod_runs

remove_pod-ends_example :
    let (r, t) = remove_pod {E = served} (codes "ns") (codes "v1") (start no_files) in
    (length t.log ≤ 6 + 2 * 2)
    × (((e : Err) × (r ≡ err e)) ⊎ Settled (codes "ns") (pod_name_of (codes "v1")) t.log)
remove_pod-ends_example =
    remove_pod-ends served 2 (λ t w. omega arith) (codes "ns") (codes "v1") no_files

sockets-agree_example :
    let lines =
      config_lines (config_values settings (codes "v1") (codes "p") (codes "a") (codes "s")) in
    Reads lines (codes "[servers.ninep]", codes "unix_socket", in_quotes (socket_path (codes "v1")))
    × IsProbedBy
        (test_command (socket_path (codes "v1")))
        (pod_manifest (λ q. some q) (codes "ns") settings (codes "v1") (codes "n1") (codes "uid"))
    × ((socket : Str) × Reads lines (codes "[servers.nbd]", codes "unix_socket", in_quotes socket)
        × (get_elem? (connect_args (codes "v1") (codes "/dev/nbd2")) 0 ≡ some (codes "-unix"))
        × (get_elem? (connect_args (codes "v1") (codes "/dev/nbd2")) 1 ≡ some socket))
sockets-agree_example =
    sockets-agree (λ q. some q) (codes "ns") settings (codes "v1") (codes "n1") (codes "uid")
      (codes "p") (codes "a") (codes "s") (codes "/dev/nbd2") (refl, (refl, tt))

abbrev values : ConfigValues
values = config_values settings (codes "v1") (codes "p") (codes "a") (codes "s")

values-lines : All (λ value. is_line value ≡ true) (shown values)
unfolding config_values
values-lines =
    refl & refl & refl & refl & refl & refl & refl & refl & refl & refl & refl & refl & refl & refl
    & refl & refl & tt

render_config-Reads_example : All (Reads (split (render_config values) b'\n')) (in_tables values)
render_config-Reads_example = render_config-Reads values values-lines

abbrev asking : Dict
asking = (codes "memoryLimit", codes "1Gi") ∷ []

parse_resource_requirements-grants_example :
    (granted (parse_resource_requirements (λ s. some s) asking) limit (codes "memory")
      ≡ asked_by (λ s. some s) (entry_of asking limit (codes "memory")))
    × ((parse_resource_requirements (λ s. some s) asking ≡ none)
        ↔ ((r : Side) (n : Str) → entry_of asking r n ≡ []))
parse_resource_requirements-grants_example =
    parse_resource_requirements-grants (λ s. some s) asking limit (codes "memory")

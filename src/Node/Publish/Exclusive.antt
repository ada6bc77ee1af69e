-- ===== src/Node/Publish/Exclusive.antt =====
-- pkg/csi/node.go: a whole publish, run alone, keeps the agreement of state files and reservations.
use zerofs_csi_driver.Base.{◌≡◌, refl, true, Option, none, some, [], ◌∷◌, Str, codes}
use zerofs_csi_driver.Host.{Env, Sys, Call, Result, ok, err, perform}
use zerofs_csi_driver.Host.Keeps.{Keeps, keeps_rules, Keeps-bind, Keeps-seq, Keeps-attempt}
use zerofs_csi_driver.Host.Calls.{is_quiet}
use zerofs_csi_driver.Host.Files.{IsReliable}
use zerofs_csi_driver.Nbd.Devices.Quiet.{find_mount_source-Keeps, unmount_best_effort-Keeps}
use zerofs_csi_driver.Nbd.State.Paths.{IsVolume}
use zerofs_csi_driver.Nbd.Exclusive.{IsExclusive}
use zerofs_csi_driver.Nbd.Exclusive.Collect.{Safe, changes-Safe, harmless-Safe, quiet-Safe}
use zerofs_csi_driver.Nbd.Exclusive.Scan.{IsBusyWhenOld}
use zerofs_csi_driver.Base.Text.{lookup}
use zerofs_csi_driver.Node.Disk.{disk_path}
use zerofs_csi_driver.Mounter.Objects.{IsOwnChange, own_of}
use zerofs_csi_driver.Mounter.Quiet.{create_pod-Keeps}
use zerofs_csi_driver.Node.Request.{Service, PublishRequest}
use zerofs_csi_driver.Node.Request.Quiet.{
  observe-Keeps, context_value-Keeps, validate_publish-Keeps,
}
use zerofs_csi_driver.Node.Disk.Quiet.{make_target-Keeps, prepare_disk-Keeps}
use zerofs_csi_driver.Node.Publish.{
  publish_body, settle, publish_fresh, publish_over, node_publish_volume,
}
use zerofs_csi_driver.Node.Publish.Plain.{pod_created-Keeps}
use zerofs_csi_driver.Node.Publish.Agrees.{drop_stale_state-Good, clean_up-Good, attach_disk-Good}

module _ {E : Env} (view : E.World → Str → Option Str) (rel : IsReliable E view)
    (old : IsBusyWhenOld E) where
  abbrev Agrees : Sys E → Type 0
  Agrees = Safe view rel.files

  quiet-Agrees : (c : Call) → is_quiet c ≡ true → Keeps Agrees (perform c)
  quiet-Agrees = quiet-Safe view rel.files

  module _ (ns : Service) (req : PublishRequest) (h : IsVolume req.volume_id) where
    own-Agrees : (c : Call) → IsOwnChange ns.namespace req.volume_id c → Keeps Agrees (perform c)
    own-Agrees = own_of (changes-Safe view rel.files) ns.namespace req.volume_id

    sized-Agrees :
        (capacity : Str)
        → lookup (codes "capacity_bytes") req.volume_context ≡ some capacity
        → Keeps Agrees (
            perform (
              Call.exec
                (codes "truncate")
                (codes "-s" ∷ capacity ∷ disk_path req.target_path ∷ [])))
    sized-Agrees capacity e =
        harmless-Safe view rel.files
          (Call.exec (codes "truncate") (codes "-s" ∷ capacity ∷ disk_path req.target_path ∷ []))
          (λ p. refl)

    publish_body-Agrees : (filesystem : Str) → Keeps Agrees (publish_body ns req filesystem)
    unfolding publish_body
    publish_body-Agrees filesystem =
        search
          (
            keeps_rules,
            quiet-Agrees,
            make_target-Keeps quiet-Agrees,
            context_value-Keeps quiet-Agrees,
            create_pod-Keeps quiet-Agrees ns.namespace req.volume_id own-Agrees,
            pod_created-Keeps quiet-Agrees,
            prepare_disk-Keeps quiet-Agrees req.target_path req.volume_context sized-Agrees,
            attach_disk-Good view rel req.volume_id h old,
            observe-Keeps quiet-Agrees,
          )
          depth 16

    settle-Agrees : (r : Result Unit) → Keeps Agrees (settle ns req r)
    unfolding settle
    settle-Agrees (ok _) = search keeps_rules
    settle-Agrees (err e) = search (keeps_rules, clean_up-Good view rel req.volume_id h)

    publish_fresh-Agrees : (filesystem : Str) → Keeps Agrees (publish_fresh ns req filesystem)
    unfolding publish_fresh
    publish_fresh-Agrees filesystem =
        Keeps-seq _ _ (drop_stale_state-Good view rel req.volume_id h)
          (Keeps-bind _ _ (Keeps-attempt _ (publish_body-Agrees filesystem)) settle-Agrees)

    publish_over-Agrees :
        (filesystem : Str) (src : Option Str) → Keeps Agrees (publish_over ns req filesystem src)
    unfolding publish_over
    publish_over-Agrees filesystem none = publish_fresh-Agrees filesystem
    publish_over-Agrees filesystem (some src) =
        search
          (
            keeps_rules,
            observe-Keeps quiet-Agrees,
            unmount_best_effort-Keeps quiet-Agrees,
            publish_fresh-Agrees,
          )
          depth 8

    node_publish_volume-Agrees : Keeps Agrees (node_publish_volume ns req)
    unfolding node_publish_volume
    node_publish_volume-Agrees =
        search
          (
            keeps_rules,
            validate_publish-Keeps quiet-Agrees,
            find_mount_source-Keeps quiet-Agrees,
            publish_over-Agrees,
          )
          depth 8

    -- Run alone, a publish of a volume with a plain name, successful or not, leads from a state in which
    -- every device that a state file names is an NBD device reserved by that file's volume to such a
    -- state again. Notes and creates are reliable, and a device whose reservation is older than two
    -- hours is connected.
    pub node_publish_volume-Exclusive :
        (s : Sys E)
        → IsExclusive view s.world
        → IsExclusive view (node_publish_volume ns req s).1.world
    node_publish_volume-Exclusive = node_publish_volume-Agrees.holds

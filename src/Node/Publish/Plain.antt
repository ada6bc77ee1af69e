-- ===== src/Node/Publish/Plain.antt =====
-- A publish keeps what every plain call keeps, if sections under the lock and the format of a
-- blank device keep it too.
use zerofs_csi_driver.Base.{ℕ, ◌≡◌, Bool, true, Option, none, some, [], ◌∷◌, Str, codes}
use zerofs_csi_driver.Base.Text.{lookup}
use zerofs_csi_driver.Host.{Env, Sys, Exec, Call, Result, ok, err, perform, with_lock}
use zerofs_csi_driver.Host.Keeps.{
  Keeps, Keeps-pure, Keeps-bind, Keeps-seq, Keeps-attempt, keeps_rules,
}
use zerofs_csi_driver.Host.Calls.{is_quiet, is_plain}
use zerofs_csi_driver.Nbd.Devices.Quiet.{
  is_nbd_connected-Keeps, find_mount_source-Keeps, unmount_best_effort-Keeps, detach-Keeps,
}
use zerofs_csi_driver.Nbd.State.Quiet.{read_volume_nbd_state-Keeps, clear_volume_nbd_state-Keeps}
use zerofs_csi_driver.Mounter.Objects.{IsOwnChange}
use zerofs_csi_driver.Mounter.Quiet.{create_pod-Keeps, remove_pod-Keeps}
use zerofs_csi_driver.Node.Request.{Service, PublishRequest}
use zerofs_csi_driver.Node.Request.Quiet.{
  observe-Keeps, fail_stage-Keeps, context_value-Keeps, validate_publish-Keeps,
}
use zerofs_csi_driver.Node.Disk.Quiet.{make_target-Keeps, prepare_disk-Keeps}
use zerofs_csi_driver.Node.Disk.{disk_path}
use zerofs_csi_driver.Node.Attach.{format_if_blank}
use zerofs_csi_driver.Node.Attach.Plain.{IsPlainExec, quiet_of, attach_disk-Keeps}
use zerofs_csi_driver.Node.Publish.{
  detach_if_connected, drop_stale, drop_recorded, drop_stale_state, release, clean_up, pod_created,
  publish_body, settle, publish_fresh, publish_over, node_publish_volume,
}

module _ {E : Env} {P : Sys E → Type 0}
    (quiet : (c : Call) → is_quiet c ≡ true → Keeps P (perform c)) where
  pub detach_if_connected-Keeps :
      (dev : Str) (r : Result Bool) → Keeps P (detach_if_connected dev r)
  unfolding detach_if_connected
  detach_if_connected-Keeps dev (ok true) = detach-Keeps quiet dev
  detach_if_connected-Keeps dev _ = search keeps_rules

  pub pod_created-Keeps : (r : Result Unit) → Keeps P (pod_created r)
  unfolding pod_created
  pod_created-Keeps (ok _) = observe-Keeps quiet _ _
  pod_created-Keeps (err e) = fail_stage-Keeps quiet _ _ _ _

module _ {E : Env} {P : Sys E → Type 0}
    (plain : (c : Call) → is_plain c ≡ true → Keeps P (perform c)) where
  drop_stale-Keeps : (volume : Str) (dev : Option Str) → Keeps P (drop_stale volume dev)
  unfolding drop_stale
  drop_stale-Keeps volume none = search keeps_rules
  drop_stale-Keeps volume (some dev) =
      search
        (
          keeps_rules,
          is_nbd_connected-Keeps (quiet_of plain),
          detach_if_connected-Keeps (quiet_of plain),
          clear_volume_nbd_state-Keeps plain,
        )
        depth 8

  drop_recorded-Keeps : (volume : Str) → Keeps P (drop_recorded volume)
  unfolding drop_recorded
  drop_recorded-Keeps volume =
      search (keeps_rules, read_volume_nbd_state-Keeps (quiet_of plain), drop_stale-Keeps)

  release-Keeps : (volume : Str) (dev : Option Str) → Keeps P (release volume dev)
  unfolding release
  release-Keeps volume none = search keeps_rules
  release-Keeps volume (some dev) =
      search (keeps_rules, detach-Keeps (quiet_of plain), clear_volume_nbd_state-Keeps plain)

  pub clean_up-Keeps :
      (namespace volume target : Str)
      → ((c : Call) → IsOwnChange namespace volume c → Keeps P (perform c))
      → Keeps P (clean_up namespace volume target)
  unfolding clean_up
  clean_up-Keeps namespace volume target own =
      let removed = Keeps-attempt _ (remove_pod-Keeps (quiet_of plain) namespace volume own) in
      Keeps-seq _ _ (unmount_best_effort-Keeps (quiet_of plain) target) (
        Keeps-bind _ _ (read_volume_nbd_state-Keeps (quiet_of plain) volume)
          (λ dev. Keeps-seq _ _ (release-Keeps volume dev) (Keeps-seq _ _ removed (Keeps-pure tt))))

module _ {E : Env} {P : Sys E → Type 0}
    (plain : (c : Call) → is_plain c ≡ true → Keeps P (perform c))
    (locks : (A : Type 0) (m : Exec E A) → IsPlainExec m → Keeps P (with_lock m))
    (formats : (lower_rune : ℕ → ℕ) (filesystem dev : Str)
      → Keeps P (format_if_blank lower_rune filesystem dev))
    (ns : Service) (req : PublishRequest)
    (own : (c : Call) → IsOwnChange ns.namespace req.volume_id c → Keeps P (perform c))
    (sized : (capacity : Str)
      → lookup (codes "capacity_bytes") req.volume_context ≡ some capacity
      → Keeps P (
          perform (
            Call.exec
              (codes "truncate")
              (codes "-s" ∷ capacity ∷ disk_path req.target_path ∷ [])))) where
  drop_stale_state-Keeps : (volume : Str) → Keeps P (drop_stale_state volume)
  unfolding drop_stale_state
  drop_stale_state-Keeps volume =
      locks _ (drop_recorded volume) (λ Q k. drop_recorded-Keeps k volume)

  publish_body-Keeps : (filesystem : Str) → Keeps P (publish_body ns req filesystem)
  unfolding publish_body
  publish_body-Keeps filesystem =
      search
        (
          keeps_rules,
          plain,
          make_target-Keeps (quiet_of plain),
          context_value-Keeps (quiet_of plain),
          create_pod-Keeps (quiet_of plain) ns.namespace req.volume_id own,
          pod_created-Keeps (quiet_of plain),
          prepare_disk-Keeps (quiet_of plain) req.target_path req.volume_context sized,
          attach_disk-Keeps plain locks formats,
          observe-Keeps (quiet_of plain),
        )
        depth 16

  settle-Keeps : (r : Result Unit) → Keeps P (settle ns req r)
  unfolding settle
  settle-Keeps (ok _) = search keeps_rules
  settle-Keeps (err e) =
      search (keeps_rules, clean_up-Keeps plain ns.namespace req.volume_id req.target_path own)

  pub publish_fresh-Keeps : (filesystem : Str) → Keeps P (publish_fresh ns req filesystem)
  unfolding publish_fresh
  publish_fresh-Keeps filesystem =
      search (keeps_rules, drop_stale_state-Keeps, publish_body-Keeps, settle-Keeps) depth 8

  publish_over-Keeps :
      (filesystem : Str) (src : Option Str) → Keeps P (publish_over ns req filesystem src)
  unfolding publish_over
  publish_over-Keeps filesystem none = publish_fresh-Keeps filesystem
  publish_over-Keeps filesystem (some src) =
      search
        (
          keeps_rules,
          observe-Keeps (quiet_of plain),
          unmount_best_effort-Keeps (quiet_of plain),
          publish_fresh-Keeps,
        )
        depth 8

  pub node_publish_volume-Keeps : Keeps P (node_publish_volume ns req)
  unfolding node_publish_volume
  node_publish_volume-Keeps =
      search
        (
          keeps_rules,
          validate_publish-Keeps (quiet_of plain),
          find_mount_source-Keeps (quiet_of plain),
          publish_over-Keeps,
        )
        depth 8

-- ===== src/Mounter/Quiet.antt =====
-- The operations of the mounter keep whatever every quiet call keeps.
use zerofs_csi_driver.Base.{ℕ, zero, suc, ◌≡◌, refl, true, [], ◌∷◌, Option, Str}
use zerofs_csi_driver.Base.Text.{Dict}
use zerofs_csi_driver.Base.Text.Decimal.{ℤ}
use zerofs_csi_driver.Kube.{Quantity, Secret, Pod}
use zerofs_csi_driver.Host.{Env, Sys, Exec, Call, Answer, got, refused, Result, ok, err, perform}
use zerofs_csi_driver.Host.Keeps.{Keeps, keeps_rules}
use zerofs_csi_driver.Host.Calls.{is_quiet}
use zerofs_csi_driver.Mounter.Wait.{
  deletion_tick, deletion_ticks, wait_for_pod_deletion, ready_tick, ready_ticks, wait_for_pod_ready,
}
use zerofs_csi_driver.Mounter.Remove.{escalate, await_deletion, delete_if_there, remove_pod}
use zerofs_csi_driver.Mounter.Create.{
  required, not_empty, put_secret, submit, replace_pod, apply_pod, wrapped, get_daemon_set_uid,
  new_secret, launch, create_pod,
}
use zerofs_csi_driver.Mounter.Manifest.{pod_name_of, secret_name_of, pod_manifest}
use zerofs_csi_driver.Mounter.Manifest.Named.{pod_manifest-own}
use zerofs_csi_driver.Mounter.Objects.{IsOwnChange}

module _ {E : Env} {P : Sys E → Type 0}
    (quiet : (c : Call) → is_quiet c ≡ true → Keeps P (perform c)) where
  deletion_tick-Keeps :
      (pod namespace : Str) (next : Exec E Unit)
      → Keeps P next
      → Keeps P (deletion_tick pod namespace next)
  unfolding deletion_tick
  deletion_tick-Keeps pod namespace next k = search (keeps_rules, quiet)

  deletion_ticks-Keeps : (pod namespace : Str) (n : ℕ) → Keeps P (deletion_ticks pod namespace n)
  unfolding deletion_ticks
  deletion_ticks-Keeps pod namespace zero = search keeps_rules
  deletion_ticks-Keeps pod namespace (suc n) =
      deletion_tick-Keeps pod namespace _ (deletion_ticks-Keeps pod namespace n)

  pub wait_for_pod_deletion-Keeps :
      (pod namespace : Str) (t : ℤ) → Keeps P (wait_for_pod_deletion pod namespace t)
  unfolding wait_for_pod_deletion
  wait_for_pod_deletion-Keeps pod namespace t = search (keeps_rules, quiet, deletion_ticks-Keeps)

  ready_tick-Keeps :
      (pod namespace : Str) (next : Exec E Unit)
      → Keeps P next
      → Keeps P (ready_tick pod namespace next)
  unfolding ready_tick
  ready_tick-Keeps pod namespace next k = search (keeps_rules, quiet)

  ready_ticks-Keeps : (pod namespace : Str) (n : ℕ) → Keeps P (ready_ticks pod namespace n)
  unfolding ready_ticks
  ready_ticks-Keeps pod namespace zero = search keeps_rules
  ready_ticks-Keeps pod namespace (suc n) =
      ready_tick-Keeps pod namespace _ (ready_ticks-Keeps pod namespace n)

  pub wait_for_pod_ready-Keeps :
      (pod namespace : Str) (t : ℤ) → Keeps P (wait_for_pod_ready pod namespace t)
  unfolding wait_for_pod_ready
  wait_for_pod_ready-Keeps pod namespace t = search (keeps_rules, quiet, ready_ticks-Keeps)

module _ {E : Env} {P : Sys E → Type 0}
    (quiet : (c : Call) → is_quiet c ≡ true → Keeps P (perform c)) (namespace volume : Str)
    (own : (c : Call) → IsOwnChange namespace volume c → Keeps P (perform c)) where
  deleted-Keeps : Keeps P (perform (Call.delete_pod namespace (pod_name_of volume)))
  deleted-Keeps = own (Call.delete_pod namespace (pod_name_of volume)) (refl, refl)

  forced-Keeps : Keeps P (perform (Call.force_delete_pod namespace (pod_name_of volume)))
  forced-Keeps = own (Call.force_delete_pod namespace (pod_name_of volume)) (refl, refl)

  secret_deleted-Keeps : Keeps P (perform (Call.delete_secret namespace (secret_name_of volume)))
  secret_deleted-Keeps = own (Call.delete_secret namespace (secret_name_of volume)) (refl, refl)

  escalate-Keeps : (r : Result Unit) → Keeps P (escalate namespace (pod_name_of volume) r)
  unfolding escalate
  escalate-Keeps (ok _) = search keeps_rules
  escalate-Keeps (err e) =
      search (keeps_rules, forced-Keeps, wait_for_pod_deletion-Keeps quiet) depth 8

  await_deletion-Keeps :
      (a : Answer Unit) → Keeps P (await_deletion namespace (pod_name_of volume) a)
  unfolding await_deletion
  await_deletion-Keeps (refused text) = search keeps_rules
  await_deletion-Keeps (got _) =
      search (keeps_rules, wait_for_pod_deletion-Keeps quiet, escalate-Keeps)

  delete_if_there-Keeps :
      (a : Answer Pod) → Keeps P (delete_if_there namespace (pod_name_of volume) a)
  unfolding delete_if_there
  delete_if_there-Keeps (refused text) = search keeps_rules
  delete_if_there-Keeps (got _) = search (keeps_rules, deleted-Keeps, await_deletion-Keeps)

  pub remove_pod-Keeps : Keeps P (remove_pod namespace volume)
  unfolding remove_pod
  remove_pod-Keeps =
      search (keeps_rules, quiet, secret_deleted-Keeps, delete_if_there-Keeps) depth 8

module _ {E : Env} {P : Sys E → Type 0} where
  pub required-Keeps :
      {A : Type 0} (message : Str) (a : Answer A) → Keeps P (required {E = E} message a)
  unfolding required
  required-Keeps message (got a) = search keeps_rules
  required-Keeps message (refused text) = search keeps_rules

  pub not_empty-Keeps : (message s : Str) → Keeps P (not_empty {E = E} message s)
  unfolding not_empty
  not_empty-Keeps message [] = search keeps_rules
  not_empty-Keeps message (c ∷ s) = search keeps_rules

  wrapped-Keeps : (message : Str) (r : Result Unit) → Keeps P (wrapped {E = E} message r)
  unfolding wrapped
  wrapped-Keeps message (ok _) = search keeps_rules
  wrapped-Keeps message (err e) = search keeps_rules

module _ {E : Env} {P : Sys E → Type 0}
    (quiet : (c : Call) → is_quiet c ≡ true → Keeps P (perform c)) where
  get_daemon_set_uid-Keeps : (namespace : Str) → Keeps P (get_daemon_set_uid namespace)
  unfolding get_daemon_set_uid
  get_daemon_set_uid-Keeps namespace = search (keeps_rules, quiet, required-Keeps)

module _ {E : Env} {P : Sys E → Type 0}
    (quiet : (c : Call) → is_quiet c ≡ true → Keeps P (perform c)) (namespace volume : Str)
    (own : (c : Call) → IsOwnChange namespace volume c → Keeps P (perform c)) where
  put_secret-Keeps :
      (secret : Secret) (a : Answer Secret)
      → secret.namespace ≡ namespace
      → secret.name ≡ secret_name_of volume
      → Keeps P (put_secret secret a)
  unfolding put_secret
  put_secret-Keeps secret (refused text) h k =
      let created = own (Call.create_secret secret) (h, k) in
      search (keeps_rules, created, required-Keeps)
  put_secret-Keeps secret (got existing) h k =
      let updated =
        own
          (Call.update_secret
            (record secret { resource_version = existing.resource_version; kind = existing.kind }))
          (h, k) in
      search (keeps_rules, updated, required-Keeps)

  module _ (pod : Pod) (placed : pod.namespace ≡ namespace)
      (named : pod.name ≡ pod_name_of volume) where
    submit-Keeps : Keeps P (submit pod)
    unfolding submit
    submit-Keeps =
        let created = own (Call.create_pod pod) (placed, named) in
        search (keeps_rules, created, required-Keeps)

    named_deleted-Keeps : Keeps P (perform (Call.delete_pod namespace pod.name))
    named_deleted-Keeps = own (Call.delete_pod namespace pod.name) (refl, named)

    replace_pod-Keeps : Keeps P (replace_pod namespace pod)
    unfolding replace_pod
    replace_pod-Keeps =
        search
          (
            keeps_rules,
            named_deleted-Keeps,
            required-Keeps,
            wait_for_pod_deletion-Keeps quiet,
            submit-Keeps,
          )
          depth 10

    apply_pod-Keeps : (node : Str) (a : Answer Pod) → Keeps P (apply_pod namespace node pod a)
    unfolding apply_pod
    apply_pod-Keeps node (refused text) = search (keeps_rules, submit-Keeps)
    apply_pod-Keeps node (got existing) = search (keeps_rules, replace_pod-Keeps) depth 8

  module _ (parse : Str → Option Quantity) where
    put_new-Keeps :
        (text : Str) (a : Answer Secret) → Keeps P (put_secret (new_secret namespace volume text) a)
    put_new-Keeps text a = put_secret-Keeps (new_secret namespace volume text) a refl refl

    apply_manifest-Keeps :
        (config : Dict) (node uid : Str) (a : Answer Pod)
        → Keeps P (apply_pod namespace node (pod_manifest parse namespace config volume node uid) a)
    apply_manifest-Keeps config node uid a =
        let (placed, named) = pod_manifest-own parse namespace config volume node uid in
        apply_pod-Keeps _ placed named node a

    launch-Keeps :
        (config : Dict) (node text : Str) → Keeps P (launch parse namespace config volume node text)
    unfolding launch
    launch-Keeps config node text =
        search
          (
            keeps_rules,
            quiet,
            put_new-Keeps,
            get_daemon_set_uid-Keeps quiet,
            apply_manifest-Keeps,
            wait_for_pod_ready-Keeps quiet,
            wrapped-Keeps,
          )
          depth 16

    pub create_pod-Keeps :
        (node config_map : Str) → Keeps P (create_pod parse namespace volume node config_map)
    unfolding create_pod
    create_pod-Keeps node config_map =
        search (keeps_rules, quiet, required-Keeps, not_empty-Keeps, launch-Keeps) depth 20

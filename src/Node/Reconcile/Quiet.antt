-- ===== src/Node/Reconcile/Quiet.antt =====
-- The start-up reconciler keeps whatever every quiet call keeps.
use zerofs_csi_driver.Base.{◌≡◌, Bool, true, false, Option, List, [], ◌∷◌, Str}
use zerofs_csi_driver.Host.{Env, Sys, Exec, Call, Result, ok, err, perform}
use zerofs_csi_driver.Host.Keeps.{Keeps, Keeps-bind, Keeps-attempt, keeps_rules}
use zerofs_csi_driver.Host.Calls.{is_quiet}
use zerofs_csi_driver.Nbd.Devices.Quiet.{
  detach-Keeps, is_nbd_connected-Keeps, list_nbd_devices-Keeps,
}
use zerofs_csi_driver.Node.Reconcile.{
  Counters, detach_orphan, reconcile_connected, reconcile_device, reconcile_round, reconcile_loop,
  reconcile_listed, reconcile_orphaned_nbd_devices,
}

module _ {E : Env} {P : Sys E → Type 0}
    (quiet : (c : Call) → is_quiet c ≡ true → Keeps P (perform c)) where
  detach_orphan-Keeps : (n : Counters) (dev : Str) (o : Bool) → Keeps P (detach_orphan n dev o)
  unfolding detach_orphan
  detach_orphan-Keeps n dev true = search keeps_rules
  detach_orphan-Keeps n dev false = search (keeps_rules, detach-Keeps quiet)

  reconcile_connected-Keeps :
      (n : Counters) (dev : Str) (r : Result Bool) → Keeps P (reconcile_connected n dev r)
  unfolding reconcile_connected
  reconcile_connected-Keeps n dev (ok true) = search (keeps_rules, quiet, detach_orphan-Keeps)
  reconcile_connected-Keeps n dev (ok false) = search keeps_rules
  reconcile_connected-Keeps n dev (err e) = search keeps_rules

  reconcile_device-Keeps : (n : Counters) (dev : Str) → Keeps P (reconcile_device n dev)
  unfolding reconcile_device
  reconcile_device-Keeps n dev =
      search (keeps_rules, is_nbd_connected-Keeps quiet, reconcile_connected-Keeps)

  reconcile_round-Keeps :
      (n : Counters) (dev : Str) (next : Counters → Exec E (Option Counters))
      → ((m : Counters) → Keeps P (next m))
      → Keeps P (reconcile_round n dev next)
  unfolding reconcile_round
  reconcile_round-Keeps n dev next k = search (keeps_rules, quiet, reconcile_device-Keeps) depth 8

  reconcile_loop-Keeps : (n : Counters) (devs : List Str) → Keeps P (reconcile_loop n devs)
  unfolding reconcile_loop
  reconcile_loop-Keeps n [] = search keeps_rules
  reconcile_loop-Keeps n (dev ∷ devs) =
      reconcile_round-Keeps n dev _ (λ m. reconcile_loop-Keeps m devs)

  reconcile_listed-Keeps : (r : Result (List Str)) → Keeps P (reconcile_listed r)
  unfolding reconcile_listed
  reconcile_listed-Keeps (ok devs) = search (keeps_rules, reconcile_loop-Keeps)
  reconcile_listed-Keeps (err e) = search keeps_rules

  pub reconcile-Keeps : Keeps P reconcile_orphaned_nbd_devices
  unfolding reconcile_orphaned_nbd_devices
  reconcile-Keeps =
      Keeps-bind _ _ (Keeps-attempt _ (list_nbd_devices-Keeps quiet)) reconcile_listed-Keeps

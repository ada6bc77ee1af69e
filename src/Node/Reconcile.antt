-- ===== src/Node/Reconcile.antt =====
-- pkg/csi/node.go: `reconcileOrphanedNBDDevices`. The result is the pair of counters of its last
-- log line; `none` where it returns early.
pub mod Orphans
pub mod Quiet
use zerofs_csi_driver.Base.{
  ℕ, ◌+◌, Bool, true, false, not, ◌&&◌, Option, none, some, List, [], ◌∷◌, Str, codes, is_blank,
  if◌then◌else◌,
}
use zerofs_csi_driver.Host.{
  Env, Exec, Call, Output, Result, ok, err, perform, pure, attempt, ◌>>=◌, ◌>>◌,
}
use zerofs_csi_driver.Nbd.Devices.{
  list_nbd_devices, is_nbd_connected, detach_nbd_device_best_effort,
}

-- Devices detached, and devices left alone because they are mounted.
pub record Counters : Type 0 where
  pub detached : ℕ
  pub skipped_mounted : ℕ

abbrev pub is_mounted : Output → Bool
is_mounted o = not o.failed && not (is_blank o.text)

abbrev pub findmnt_args : Str → List Str
findmnt_args dev = codes "-n" ∷ codes "-S" ∷ dev ∷ []

module _ {E : Env} where
  unfoldable pub detach_orphan : Counters → Str → Bool → Exec E Counters
  detach_orphan n dev true = pure (record n { skipped_mounted = n.skipped_mounted + 1 })
  detach_orphan n dev false = do
    detach_nbd_device_best_effort dev
    pure (record n { detached = n.detached + 1 })

  unfoldable pub reconcile_connected : Counters → Str → Result Bool → Exec E Counters
  reconcile_connected n dev (ok true) = do
    o ← perform (Call.exec (codes "findmnt") (findmnt_args dev))
    detach_orphan n dev (is_mounted o)
  reconcile_connected n dev _ = pure n

  -- A round of the loop.
  unfoldable pub reconcile_device : Counters → Str → Exec E Counters
  reconcile_device n dev = do
    result ← attempt (is_nbd_connected dev)
    reconcile_connected n dev result

  unfoldable pub reconcile_round :
      Counters → Str → (Counters → Exec E (Option Counters)) → Exec E (Option Counters)
  reconcile_round n dev next = do
    stopped ← perform Call.ctx_done
    if stopped then pure none else (reconcile_device n dev >>= next)

  unfoldable pub reconcile_loop : Counters → List Str → Exec E (Option Counters)
  reconcile_loop n [] = pure (some n)
  reconcile_loop n (dev ∷ devs) = reconcile_round n dev (λ m. reconcile_loop m devs)

  unfoldable pub reconcile_listed : Result (List Str) → Exec E (Option Counters)
  reconcile_listed (ok devs) = reconcile_loop (record { detached = 0; skipped_mounted = 0 }) devs
  reconcile_listed (err e) = pure none

  unfoldable pub reconcile_orphaned_nbd_devices : Exec E (Option Counters)
  reconcile_orphaned_nbd_devices = do listed ← attempt list_nbd_devices; reconcile_listed listed

-- ===== src/Node/Reconcile/Orphans.antt =====
-- The start-up reconciler detaches only devices that `findmnt` found no mount of.
use zerofs_csi_driver.Base.{
  ℕ, zero, suc, ◌+◌, ◌≡◌, refl, ◌⊎◌, inl, inr, Bool, true, false, Option, List, [], ◌∷◌, Str, codes,
  trim_space,
}
use zerofs_csi_driver.Host.{
  Env, Sys, Exec, Call, Reply, Event, did, Result, ok, err, perform, pure, ◌>>=◌,
}
use zerofs_csi_driver.Host.Keeps.{Keeps, Keeps-pure, Keeps-bind, Keeps-attempt, keeps_rules}
use zerofs_csi_driver.Nbd.Devices.{
  is_nbd_connected, list_nbd_devices, detach_attempt, detach_attempts,
  detach_nbd_device_best_effort,
}
use zerofs_csi_driver.Nbd.Devices.Quiet.{pid_state-Keeps, listed-Keeps}
use zerofs_csi_driver.Node.Reconcile.{
  Counters, is_mounted, findmnt_args, detach_orphan, reconcile_connected, reconcile_device,
  reconcile_round, reconcile_loop, reconcile_listed, reconcile_orphaned_nbd_devices,
}

abbrev pub detach_args : Str → List Str
detach_args dev = codes "-d" ∷ trim_space dev ∷ []

-- The last call, but for pauses and attempts to detach the device, looked for a mount of the device
-- and found none.
abbrev pub UnmountedSeen : Str → List Event → Type 0
UnmountedSeen dev (did (Call.sleep n) u ∷ log) = UnmountedSeen dev log
UnmountedSeen dev (did (Call.exec program args) o ∷ log) =
    ((program ≡ codes "nbd-client") × (args ≡ detach_args dev) × UnmountedSeen dev log)
    ⊎ ((program ≡ codes "findmnt") × (args ≡ findmnt_args dev) × (is_mounted o ≡ false))
UnmountedSeen dev _ = ⊥

abbrev pub IsForOrphan : Event → List Event → Type 0
IsForOrphan (did (Call.exec program args) o) log =
    program ≡ codes "nbd-client" → (dev : Str) × (args ≡ detach_args dev) × UnmountedSeen dev log
IsForOrphan _ log = Unit

-- Each run of nbd-client in the log detaches a device that was seen not to be mounted.
abbrev pub DetachesOnlyOrphans : List Event → Type 0
DetachesOnlyOrphans [] = Unit
DetachesOnlyOrphans (e ∷ log) = IsForOrphan e log × DetachesOnlyOrphans log

abbrev is_calm : Call → Bool
is_calm (Call.exec program args) = false
is_calm _ = true

calm-IsForOrphan :
    (c : Call) → is_calm c ≡ true → (r : Reply c) (log : List Event) → IsForOrphan (did c r) log
calm-IsForOrphan (Call.exec program args) h r log = absurd (cc)
calm-IsForOrphan _ h r log = tt

findmnt-not_client : codes "findmnt" ≡ codes "nbd-client" → ⊥
findmnt-not_client e = absurd (cc)

module _ {E : Env} where
  abbrev IsTidy : Sys E → Type 0
  IsTidy s = DetachesOnlyOrphans s.log

  abbrev IsReady : Str → Sys E → Type 0
  IsReady dev s = DetachesOnlyOrphans s.log × UnmountedSeen dev s.log

  calm-IsTidy : (c : Call) → is_calm c ≡ true → Keeps {E = E} IsTidy (perform c)
  unfolding perform
  calm-IsTidy c h = record { holds = λ s k. (calm-IsForOrphan c h _ s.log, k) }

  sleep-IsReady : (dev : Str) (n : ℕ) → Keeps {E = E} (IsReady dev) (perform (Call.sleep n))
  unfolding perform
  sleep-IsReady dev n = record { holds = λ s k. ((tt, k.0), k.1) }

  client-IsReady :
      (dev : Str)
      → Keeps {E = E} (IsReady dev) (perform (Call.exec (codes "nbd-client") (detach_args dev)))
  unfolding perform
  client-IsReady dev = record {
    holds = λ s k. (((λ _. (dev, refl, k.1)), k.0), inl (refl, refl, k.1));
  }

  detach_attempt-IsReady :
      (dev : Str) (next : Exec E Unit)
      → Keeps (IsReady dev) next
      → Keeps (IsReady dev) (detach_attempt (trim_space dev) next)
  unfolding detach_attempt
  detach_attempt-IsReady dev next k =
      Keeps-bind _ _ (client-IsReady dev) (λ o. search (keeps_rules, sleep-IsReady))

  detach_attempts-IsReady :
      (dev : Str) (left : ℕ) → Keeps {E = E} (IsReady dev) (detach_attempts left (trim_space dev))
  unfolding detach_attempts
  detach_attempts-IsReady dev zero = search keeps_rules
  detach_attempts-IsReady dev (suc left) =
      detach_attempt-IsReady dev _ (detach_attempts-IsReady dev left)

  detach-IsReady : (dev : Str) → Keeps {E = E} (IsReady dev) (detach_nbd_device_best_effort dev)
  unfolding detach_nbd_device_best_effort
  detach-IsReady dev = search (keeps_rules, detach_attempts-IsReady)

  -- Once `findmnt` has replied.
  detach_orphan-IsTidy :
      (n : Counters) (dev : Str) (mounted : Bool) (s : Sys E)
      → IsTidy s
      → (mounted ≡ false → UnmountedSeen dev s.log)
      → IsTidy (detach_orphan n dev mounted s).1
  unfolding detach_orphan ◌>>=◌
  detach_orphan-IsTidy n dev true s h k = h
  detach_orphan-IsTidy n dev false s h k =
      let tail : (u : Unit)
          → Keeps {E = E} (IsReady dev) (pure (record n { detached = n.detached + 1 })) =
        λ u. Keeps-pure _ in
      ((Keeps-bind _ _ (detach-IsReady dev) tail).holds s (h, k refl)).0

  reconcile_connected-IsTidy :
      (n : Counters) (dev : Str) (r : Result Bool)
      → Keeps {E = E} IsTidy (reconcile_connected n dev r)
  unfolding reconcile_connected perform ◌>>=◌
  reconcile_connected-IsTidy n dev (ok true) = record {
    holds = λ s h.
        detach_orphan-IsTidy n dev _ _ ((λ e. absurd (findmnt-not_client e)), h)
          (λ e. inr (refl, refl, e));
  }
  reconcile_connected-IsTidy n dev _ = search keeps_rules

  connected-IsTidy : (dev : Str) → Keeps {E = E} IsTidy (is_nbd_connected dev)
  unfolding is_nbd_connected
  connected-IsTidy dev = search (keeps_rules, calm-IsTidy, pid_state-Keeps)

  reconcile_device-IsTidy :
      (n : Counters) (dev : Str) → Keeps {E = E} IsTidy (reconcile_device n dev)
  unfolding reconcile_device
  reconcile_device-IsTidy n dev = search (keeps_rules, connected-IsTidy, reconcile_connected-IsTidy)

  reconcile_round-IsTidy :
      (n : Counters) (dev : Str) (next : Counters → Exec E (Option Counters))
      → ((m : Counters) → Keeps IsTidy (next m))
      → Keeps IsTidy (reconcile_round n dev next)
  unfolding reconcile_round
  reconcile_round-IsTidy n dev next k =
      search (keeps_rules, calm-IsTidy, reconcile_device-IsTidy) depth 8

  reconcile_loop-IsTidy :
      (n : Counters) (devs : List Str) → Keeps {E = E} IsTidy (reconcile_loop n devs)
  unfolding reconcile_loop
  reconcile_loop-IsTidy n [] = search keeps_rules
  reconcile_loop-IsTidy n (dev ∷ devs) =
      reconcile_round-IsTidy n dev _ (λ m. reconcile_loop-IsTidy m devs)

  reconcile_listed-IsTidy : (r : Result (List Str)) → Keeps {E = E} IsTidy (reconcile_listed r)
  unfolding reconcile_listed
  reconcile_listed-IsTidy (ok devs) = reconcile_loop-IsTidy _ devs
  reconcile_listed-IsTidy (err e) = search keeps_rules

  list_nbd_devices-IsTidy : Keeps {E = E} IsTidy list_nbd_devices
  unfolding list_nbd_devices
  list_nbd_devices-IsTidy = search (keeps_rules, calm-IsTidy, listed-Keeps)

  reconcile-IsTidy : Keeps {E = E} IsTidy reconcile_orphaned_nbd_devices
  unfolding reconcile_orphaned_nbd_devices
  reconcile-IsTidy =
      Keeps-bind _ _ (Keeps-attempt _ list_nbd_devices-IsTidy) reconcile_listed-IsTidy

-- The start-up reconciler runs nbd-client only to detach a device, and only if the last command that
-- it ran before the attempts on that device was a `findmnt -S` of it, which failed or printed nothing
-- but white space: if this holds of the calls made before, it holds of those made by its end.
pub reconcile-DetachesOnlyOrphans :
    {E : Env} (s : Sys E)
    → DetachesOnlyOrphans s.log
    → DetachesOnlyOrphans (reconcile_orphaned_nbd_devices s).1.log
reconcile-DetachesOnlyOrphans s h = reconcile-IsTidy.holds s h

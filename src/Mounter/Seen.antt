-- ===== src/Mounter/Seen.antt =====
-- A wait that returns no error has seen what it waits for; so `CreatePod` ends on a ready pod.
use zerofs_csi_driver.Base.{
  ◌≡◌, refl, ℕ, zero, suc, true, Bool-cases, inl, inr, List, ◌∷◌, Option, Str, codes, if◌then◌else◌,
}
use zerofs_csi_driver.Base.Text.{Dict}
use zerofs_csi_driver.Base.Text.Decimal.{ℤ}
use zerofs_csi_driver.Kube.{Quantity, Pod}
use zerofs_csi_driver.Host.{
  Env, Sys, Exec, Event, did, Call, Answer, got, refused, unknown, Result, ok, err, pure, fail,
  attempt, on_answer, ◌>>=◌,
}
use zerofs_csi_driver.Host.Ends.{Ends, Ends-bind, Ends-fail, ends_rules}
use zerofs_csi_driver.Mounter.Manifest.{pod_name_of}
use zerofs_csi_driver.Mounter.Wait.{
  says_not_found, is_ready, deletion_tick, deletion_ticks, wait_for_pod_deletion, ready_tick,
  ready_ticks, wait_for_pod_ready,
}
use zerofs_csi_driver.Mounter.Create.{wrapped, launch, create_pod}

-- The last call asked for the pod, and the error that came back says "not found".
abbrev pub SawNone : Str → Str → List Event → Type 0
SawNone namespace pod (did (Call.get_pod ns n) (refused text) ∷ log) =
    (ns ≡ namespace) × (n ≡ pod) × (says_not_found text ≡ true)
SawNone namespace pod _ = ⊥

-- The last call asked for the pod, and it was ready.
abbrev pub SawReady : Str → Str → List Event → Type 0
SawReady namespace pod (did (Call.get_pod ns n) (got p) ∷ log) =
    (ns ≡ namespace) × (n ≡ pod) × (is_ready p.conditions ≡ true)
SawReady namespace pod _ = ⊥

module _ {E : Env} (pod namespace : Str) where
  deletion_reply-SawNone :
      (next : Exec E Unit)
      → Ends (SawNone namespace pod) next
      → (r : Answer Pod) (w : E.World) (log : List Event) (a : Unit)
      → let s : Sys E = record { world = w; log = did (Call.get_pod namespace pod) r ∷ log } in
        let m : Exec E Unit =
          on_answer r
            (λ _. next)
            (λ text.
              if says_not_found text
              then pure tt
              else fail unknown (codes "error checking pod status")) in
        (m s).0 ≡ ok a → SawNone namespace pod (m s).1.log
  unfolding on_answer pure fail
  deletion_reply-SawNone next k (got p) w log a = k.holds _ a
  deletion_reply-SawNone next k (refused text) w log a = elim (Bool-cases (says_not_found text)) [
    | inl e ↦ rw e (λ h. (refl, refl, e))
    | inr e ↦ rw e (λ h. absurd (cc))
  ]

  deletion_tick-SawNone :
      (next : Exec E Unit)
      → Ends (SawNone namespace pod) next
      → Ends (SawNone namespace pod) (deletion_tick pod namespace next)
  unfolding deletion_tick ◌>>=◌
  deletion_tick-SawNone next k = record {
    holds = λ s a.
        deletion_reply-SawNone next k (E.answer (Call.get_pod namespace pod) s.world).0
          (E.answer (Call.get_pod namespace pod) s.world).1 s.log a;
  }

  deletion_ticks-SawNone :
      (ticks : ℕ) → Ends {E = E} (SawNone namespace pod) (deletion_ticks pod namespace ticks)
  unfolding deletion_ticks
  deletion_ticks-SawNone zero = Ends-fail _ _
  deletion_ticks-SawNone (suc ticks) = deletion_tick-SawNone _ (deletion_ticks-SawNone ticks)

  wait_for_pod_deletion-Ends :
      (timeout : ℤ)
      → Ends {E = E} (SawNone namespace pod) (wait_for_pod_deletion pod namespace timeout)
  unfolding wait_for_pod_deletion
  wait_for_pod_deletion-Ends timeout = Ends-bind _ _ deletion_ticks-SawNone

  ready_reply-SawReady :
      (next : Exec E Unit)
      → Ends (SawReady namespace pod) next
      → (r : Answer Pod) (w : E.World) (log : List Event) (a : Unit)
      → let s : Sys E = record { world = w; log = did (Call.get_pod namespace pod) r ∷ log } in
        let m : Exec E Unit =
          on_answer r (λ p. if is_ready p.conditions then pure tt else next) (λ _. next) in
        (m s).0 ≡ ok a → SawReady namespace pod (m s).1.log
  unfolding on_answer pure
  ready_reply-SawReady next k (refused text) w log a = k.holds _ a
  ready_reply-SawReady next k (got p) w log a = elim (Bool-cases (is_ready p.conditions)) [
    | inl e ↦ rw e (λ h. (refl, refl, e))
    | inr e ↦ rw e (k.holds _ a)
  ]

  ready_tick-SawReady :
      (next : Exec E Unit)
      → Ends (SawReady namespace pod) next
      → Ends (SawReady namespace pod) (ready_tick pod namespace next)
  unfolding ready_tick ◌>>=◌
  ready_tick-SawReady next k = record {
    holds = λ s a.
        ready_reply-SawReady next k (E.answer (Call.get_pod namespace pod) s.world).0
          (E.answer (Call.get_pod namespace pod) s.world).1 s.log a;
  }

  ready_ticks-SawReady :
      (ticks : ℕ) → Ends {E = E} (SawReady namespace pod) (ready_ticks pod namespace ticks)
  unfolding ready_ticks
  ready_ticks-SawReady zero = Ends-fail _ _
  ready_ticks-SawReady (suc ticks) = ready_tick-SawReady _ (ready_ticks-SawReady ticks)

  wait_for_pod_ready-Ends :
      (timeout : ℤ)
      → Ends {E = E} (SawReady namespace pod) (wait_for_pod_ready pod namespace timeout)
  unfolding wait_for_pod_ready
  wait_for_pod_ready-Ends timeout = Ends-bind _ _ ready_ticks-SawReady

  wrapped-result :
      (message : Str) (r : Result Unit) (s : Sys E) (a : Unit)
      → ((b : Unit) → r ≡ ok b → SawReady namespace pod s.log)
      → (wrapped message r s).0 ≡ ok a
      → SawReady namespace pod (wrapped message r s).1.log
  unfolding wrapped pure fail
  wrapped-result message (ok b) s a k h = k b refl
  wrapped-result message (err e) s a k h = absurd (cc)

  wrapped-SawReady :
      (message : Str) (m : Exec E Unit)
      → Ends (SawReady namespace pod) m
      → Ends (SawReady namespace pod) (attempt m >>= wrapped message)
  unfolding ◌>>=◌
  wrapped-SawReady message m k = record {
    holds = λ s a. wrapped-result message (m s).0 (m s).1 a (k.holds s);
  }

module _ {E : Env} (parse_quantity : Str → Option Quantity) (namespace : Str) where
  awaited-SawReady :
      (volume message : Str) (timeout : ℤ)
      → Ends {E = E}
          (SawReady namespace (pod_name_of volume))
          (attempt (wait_for_pod_ready (pod_name_of volume) namespace timeout) >>= wrapped message)
  awaited-SawReady volume message timeout =
      wrapped-SawReady (pod_name_of volume) namespace message _
        (wait_for_pod_ready-Ends (pod_name_of volume) namespace timeout)

  launch-Ends :
      (config : Dict) (volume node text : Str)
      → Ends {E = E}
          (SawReady namespace (pod_name_of volume))
          (launch parse_quantity namespace config volume node text)
  unfolding launch
  launch-Ends config volume node text = search (ends_rules, awaited-SawReady volume) depth 12

  create_pod-Ends :
      (volume node config_map : Str)
      → Ends {E = E}
          (SawReady namespace (pod_name_of volume))
          (create_pod parse_quantity namespace volume node config_map)
  unfolding create_pod
  create_pod-Ends volume node config_map = search (ends_rules, launch-Ends) depth 16

-- If the wait for the deletion of a pod returns no error, then the last call that it made asked for
-- that pod, and the reply was an error whose text says "not found".
pub wait_for_pod_deletion-SawNone :
    {E : Env} (pod namespace : Str) (timeout : ℤ) (s : Sys E)
    → (wait_for_pod_deletion pod namespace timeout s).0 ≡ ok tt
    → SawNone namespace pod (wait_for_pod_deletion pod namespace timeout s).1.log
wait_for_pod_deletion-SawNone pod namespace timeout s =
    (wait_for_pod_deletion-Ends pod namespace timeout).holds s tt

-- If CreatePod returns no error, then the last call that it made asked for the pod of the volume, in
-- the mounter's namespace, and the reply was a pod with a condition Ready that is True.
pub create_pod-SawReady :
    {E : Env} (parse_quantity : Str → Option Quantity) (namespace volume node config_map : Str)
    (s : Sys E)
    → (create_pod parse_quantity namespace volume node config_map s).0 ≡ ok tt
    → SawReady namespace
        (pod_name_of volume)
        (create_pod parse_quantity namespace volume node config_map s).1.log
create_pod-SawReady parse_quantity namespace volume node config_map s =
    (create_pod-Ends parse_quantity namespace volume node config_map).holds s tt

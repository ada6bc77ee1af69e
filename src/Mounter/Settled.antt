-- ===== src/Mounter/Settled.antt =====
-- pkg/csi/zerofs.go: what `RemovePod` has seen or done when it returns no error.
use zerofs_csi_driver.Base.{◌≡◌, refl, true, Bool-cases, inl, inr, ◌⊎◌, List, [], ◌∷◌, Str}
use zerofs_csi_driver.Kube.{Pod}
use zerofs_csi_driver.Host.{
  Env, Sys, Exec, Event, did, Call, Answer, got, refused, Result, ok, err, Err, perform, pure, fail,
  attempt, resume, ◌>>=◌, ◌>>◌,
}
use zerofs_csi_driver.Host.Keeps.{Keeps, Keeps-seq, Keeps-pure, Keeps-attempt}
use zerofs_csi_driver.Host.Ends.{Ends}
use zerofs_csi_driver.Mounter.Seen.{SawNone, wait_for_pod_deletion-SawNone}
use zerofs_csi_driver.Mounter.Quiet.{wait_for_pod_deletion-Keeps}
use zerofs_csi_driver.Mounter.Timeout.{seconds}
use zerofs_csi_driver.Mounter.Manifest.{pod_name_of, secret_name_of}
use zerofs_csi_driver.Mounter.Wait.{says_not_found, wait_for_pod_deletion}
use zerofs_csi_driver.Mounter.Remove.{escalate, await_deletion, delete_if_there, remove_pod}

-- The pod could not be read, was not there to delete, or was told to go without grace.
abbrev pub IsSettling : Str → Str → Event → Type 0
IsSettling namespace pod (did (Call.get_pod ns n) (refused text)) = (ns ≡ namespace) × (n ≡ pod)
IsSettling namespace pod (did (Call.delete_pod ns n) (refused text)) =
    (ns ≡ namespace) × (n ≡ pod) × (says_not_found text ≡ true)
IsSettling namespace pod (did (Call.force_delete_pod ns n) r) = (ns ≡ namespace) × (n ≡ pod)
IsSettling namespace pod _ = ⊥

abbrev pub Settled : Str → Str → List Event → Type 0
Settled namespace pod [] = ⊥
Settled namespace pod (e ∷ log) = IsSettling namespace pod e ⊎ Settled namespace pod log

SawNone-Settled :
    (namespace pod : Str) (log : List Event) → SawNone namespace pod log → Settled namespace pod log
SawNone-Settled namespace pod [] h = absurd h
SawNone-Settled namespace pod (did (Call.get_pod ns n) (refused text) ∷ log) (a, b, c) = inl (a, b)
SawNone-Settled namespace pod _ h = absurd h

failed_or :
    {P : Type 0} (r : Result Unit) → ((a : Unit) → r ≡ ok a → P) → ((e : Err) × (r ≡ err e)) ⊎ P
failed_or (ok a) h = inr (h a refl)
failed_or (err e) h = inl (e, refl)

module _ {E : Env} (namespace pod : Str) where
  abbrev IsSettled : Sys E → Type 0
  IsSettled s = Settled namespace pod s.log

  still-Settled : (c : Call) → Keeps IsSettled (perform c)
  unfolding perform
  still-Settled c = record { holds = λ s h. inr h }

  waited-Settled :
      Keeps IsSettled (attempt (wait_for_pod_deletion pod namespace (seconds 30)) >> pure tt)
  waited-Settled =
      Keeps-seq _ _
        (Keeps-attempt _
          (wait_for_pod_deletion-Keeps (λ c h. still-Settled c) pod namespace (seconds 30)))
        (Keeps-pure tt)

  escalate-Settled :
      (r : Result Unit) (s : Sys E)
      → ((a : Unit) → r ≡ ok a → IsSettled s)
      → IsSettled (escalate namespace pod r s).1
  unfolding escalate perform pure ◌>>=◌
  escalate-Settled (ok a) s h = h a refl
  escalate-Settled (err e) s h = waited-Settled.holds _ (inl (refl, refl))

  waits-Settled :
      Ends {E = E}
        (Settled namespace pod)
        (attempt (wait_for_pod_deletion pod namespace (seconds 45)) >>= escalate namespace pod)
  unfolding attempt ◌>>=◌
  waits-Settled = record {
    holds = λ s a h. escalate-Settled _ _ (λ b e.
        SawNone-Settled namespace pod _
          (wait_for_pod_deletion-SawNone pod namespace (seconds 45) s e));
  }

module _ (E : Env) (namespace pod : Str) where
  await_deletion-Settled :
      (r : Answer Unit) (w : E.World) (log : List Event) (a : Unit)
      → let s : Sys E = record { world = w; log = did (Call.delete_pod namespace pod) r ∷ log } in
        (await_deletion {E = E} namespace pod r s).0 ≡ ok a
        → Settled namespace pod (await_deletion {E = E} namespace pod r s).1.log
  unfolding await_deletion pure fail
  await_deletion-Settled (got _) w log a = (waits-Settled namespace pod).holds _ a
  await_deletion-Settled (refused text) w log a = elim (Bool-cases (says_not_found text)) [
    | inl e ↦ rw e (λ h. inl (refl, refl, e))
    | inr e ↦ rw e (λ h. absurd (cc))
  ]

  delete_if_there-Settled :
      (r : Answer Pod) (w : E.World) (log : List Event) (a : Unit)
      → let s : Sys E = record { world = w; log = did (Call.get_pod namespace pod) r ∷ log } in
        (delete_if_there {E = E} namespace pod r s).0 ≡ ok a
        → Settled namespace pod (delete_if_there {E = E} namespace pod r s).1.log
  unfolding delete_if_there pure perform ◌>>=◌
  delete_if_there-Settled (refused text) w log a h = inl (refl, refl)
  delete_if_there-Settled (got p) w log a h =
      let reply = E.answer (Call.delete_pod namespace pod) w in
      await_deletion-Settled reply.0 reply.1 _ a h

module _ {E : Env} (namespace volume : Str) where
  -- The deletion of the secret comes last.
  abbrev secret_deleted : Exec E Unit
  secret_deleted = perform (Call.delete_secret namespace (secret_name_of volume)) >> pure tt

  then-Settled :
      (r : Result Unit) (t : Sys E) (a : Unit)
      → ((b : Unit) → r ≡ ok b → Settled namespace (pod_name_of volume) t.log)
      → (resume r (λ _. secret_deleted) t).0 ≡ ok a
      → Settled namespace (pod_name_of volume) (resume r (λ _. secret_deleted) t).1.log
  then-Settled (ok b) t a h k =
      (Keeps-seq _ _
          (still-Settled namespace (pod_name_of volume)
            (Call.delete_secret namespace (secret_name_of volume)))
          (Keeps-pure tt)).holds
        t (h b refl)
  then-Settled (err e) t a h k = absurd (cc)

  pub remove_pod-Settled :
      Ends {E = E} (Settled namespace (pod_name_of volume)) (remove_pod namespace volume)
  unfolding remove_pod perform pure ◌>>=◌
  remove_pod-Settled = record {
    holds = λ s a.
        let reply = E.answer (Call.get_pod namespace (pod_name_of volume)) s.world in
        then-Settled _ _ a
          (delete_if_there-Settled E namespace (pod_name_of volume) reply.0 reply.1 s.log);
  }

  -- Either the removal returns an error, or the pod is settled.
  pub remove_pod-FailedOrSettled :
      (s : Sys E)
      → ((e : Err) × ((remove_pod namespace volume s).0 ≡ err e))
        ⊎ Settled namespace (pod_name_of volume) (remove_pod namespace volume s).1.log
  remove_pod-FailedOrSettled s =
      failed_or (remove_pod namespace volume s).0 (remove_pod-Settled.holds s)

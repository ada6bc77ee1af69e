-- ===== src/Mounter/Bounded.antt =====
-- pkg/csi/zerofs.go: the removal of a volume's pod ends, and what it has done then.
use zerofs_csi_driver.Mounter.Settled.{Settled, remove_pod-FailedOrSettled}
use zerofs_csi_driver.Base.{◌≡◌, ◌⊎◌, [], ℕ, zero, suc, ◌+◌, ◌*◌, ◌≤◌, Str, length, arith}
use zerofs_csi_driver.Base.Text.Decimal.{ℤ}
use zerofs_csi_driver.Kube.{Pod}
use zerofs_csi_driver.Host.{
  Env, Sys, Call, Result, Err, ok, err, Answer, got, refused, perform, ◌>>=◌,
}
use zerofs_csi_driver.Host.Costs.{
  Costs, Costs-weaken, Costs-pure, Costs-fail, Costs-perform, Costs-attempt, Costs-bind,
  Costs-on_answer, Costs-if,
}
use zerofs_csi_driver.Mounter.Timeout.{seconds}
use zerofs_csi_driver.Mounter.Manifest.{pod_name_of, secret_name_of}
use zerofs_csi_driver.Mounter.Wait.{deletion_tick, deletion_ticks, wait_for_pod_deletion}
use zerofs_csi_driver.Mounter.Remove.{escalate, await_deletion, delete_if_there, remove_pod}

-- Before its deadline, no timer grants more ticks than this.
abbrev pub TicksAtMost : Env → ℕ → Type 0
TicksAtMost E most = (t : ℤ) (w : E.World) → (E.answer (Call.start_timer t) w).0 ≤ most

module _ {E : Env} where
  deletion_ticks-Costs :
      (pod namespace : Str) (n : ℕ) → Costs {E = E} n (deletion_ticks pod namespace n)
  unfolding deletion_ticks deletion_tick
  deletion_ticks-Costs pod namespace zero = Costs-fail 0 _ _
  deletion_ticks-Costs pod namespace (suc n) = Costs-weaken _ (omega arith) (
      Costs-bind 1 n _ _ (Costs-perform (Call.get_pod namespace pod)) (λ a.
        Costs-on_answer a _ _ (λ p. deletion_ticks-Costs pod namespace n)
          (λ text. Costs-if _ _ _ (Costs-pure n tt) (Costs-fail n _ _))))

  module _ (most : ℕ) (timers : TicksAtMost E most) where
    wait-Costs :
        (pod namespace : Str) (t : ℤ)
        → Costs {E = E} (1 + most) (wait_for_pod_deletion pod namespace t)
    unfolding wait_for_pod_deletion perform ◌>>=◌
    wait-Costs pod namespace t = record {
      holds = λ s. omega (
        arith,
        timers t s.world,
        (deletion_ticks-Costs pod namespace (E.answer (Call.start_timer t) s.world).0).holds
            (perform (Call.start_timer t) s).1,
      );
    }

    escalate-Costs :
        (namespace pod : Str) (r : Result Unit)
        → Costs {E = E} (2 + most) (escalate namespace pod r)
    unfolding escalate
    escalate-Costs namespace pod (ok _) = Costs-pure _ tt
    escalate-Costs namespace pod (err e) = Costs-weaken _ (omega arith) (
        Costs-bind 1 (1 + most + 0) _ _ (Costs-perform (Call.force_delete_pod namespace pod)) (λ _.
          Costs-bind (1 + most) 0 _ _ (Costs-attempt _ (wait-Costs pod namespace (seconds 30)))
            (λ _. Costs-pure 0 tt)))

    await_deletion-Costs :
        (namespace pod : Str) (a : Answer Unit)
        → Costs {E = E} (3 + 2 * most) (await_deletion namespace pod a)
    unfolding await_deletion
    await_deletion-Costs namespace pod (refused text) =
        Costs-if _ _ _ (Costs-pure _ tt) (Costs-fail _ _ _)
    await_deletion-Costs namespace pod (got _) = Costs-weaken _ (omega arith) (
        Costs-bind (1 + most) (2 + most) _ _
          (Costs-attempt _ (wait-Costs pod namespace (seconds 45))) (escalate-Costs namespace pod))

    delete_if_there-Costs :
        (namespace pod : Str) (a : Answer Pod)
        → Costs {E = E} (4 + 2 * most) (delete_if_there namespace pod a)
    unfolding delete_if_there
    delete_if_there-Costs namespace pod (refused text) = Costs-pure _ tt
    delete_if_there-Costs namespace pod (got _) = Costs-weaken _ (omega arith) (
        Costs-bind 1 (3 + 2 * most) _ _ (Costs-perform (Call.delete_pod namespace pod))
          (await_deletion-Costs namespace pod))

    remove_pod-Costs :
        (namespace volume : Str) → Costs {E = E} (6 + 2 * most) (remove_pod namespace volume)
    unfolding remove_pod
    remove_pod-Costs namespace volume = Costs-weaken _ (omega arith) (
        Costs-bind 1 (4 + 2 * most + (1 + 0)) _ _
          (Costs-perform (Call.get_pod namespace (pod_name_of volume)))
          (λ a. Costs-bind (4 + 2 * most) (1 + 0) _ _ (delete_if_there-Costs namespace _ a) (λ _.
            Costs-bind 1 0 _ _
              (Costs-perform (Call.delete_secret namespace (secret_name_of volume)))
              (λ _. Costs-pure 0 tt))))

module _ (E : Env) (most : ℕ) (timers : TicksAtMost E most) where
  -- Where each timer grants at most so many ticks, RemovePod, from an empty log, ends after at most
  -- twice that many calls and six more, whatever they reply. Then it returns an error, or one of
  -- these calls asked for the volume's pod and was refused, was told on deleting the pod that it
  -- is not found, or deleted the pod without grace.
  pub remove_pod-ends :
      (namespace volume : Str) (w : E.World)
      → let (r, t) = remove_pod {E = E} namespace volume (record { world = w; log = [] }) in
        (length t.log ≤ 6 + 2 * most)
        × (((e : Err) × (r ≡ err e)) ⊎ Settled namespace (pod_name_of volume) t.log)
  remove_pod-ends namespace volume w =
      let s : Sys E = record { world = w; log = [] } in
      let calls = (remove_pod-Costs most timers namespace volume).holds s in
      (omega (arith, calls), remove_pod-FailedOrSettled namespace volume s)

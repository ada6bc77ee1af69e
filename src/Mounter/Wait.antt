-- ===== src/Mounter/Wait.antt =====
-- pkg/csi/zerofs.go: `waitForPodDeletion` and `waitForPodReady`. The timer's reply says how often
-- the `select` takes the ticker before the deadline, so each loop is a recursion on that number.
use zerofs_csi_driver.Base.{
  ℕ, zero, suc, Bool, false, ◌&&◌, ◌||◌, Str, List, [], ◌∷◌, codes, ◌===◌, if◌then◌else◌,
}
use zerofs_csi_driver.Base.Text.{contains}
use zerofs_csi_driver.Base.Text.Decimal.{ℤ}
use zerofs_csi_driver.Kube.{Condition}
use zerofs_csi_driver.Host.{Env, Exec, Call, unknown, perform, pure, fail, on_answer, ◌>>=◌}

-- `strings.Contains(err.Error(), "not found")`
abbrev pub says_not_found : Str → Bool
says_not_found text = contains text (codes "not found")

-- A condition `Ready` with status `True`.
abbrev pub is_ready : List Condition → Bool
is_ready [] = false
is_ready ((kind, status) ∷ rest) =
    (kind === codes "Ready" && status === codes "True") || is_ready rest

module _ {E : Env} where
  -- A tick, and what follows one that finds the pod.
  unfoldable pub deletion_tick : Str → Str → Exec E Unit → Exec E Unit
  deletion_tick pod namespace next = do
    answer ← perform (Call.get_pod namespace pod)
    on_answer answer (λ _. next)
        λ text.
          if says_not_found text then pure tt else fail unknown (codes "error checking pod status")

  unfoldable pub deletion_ticks : Str → Str → ℕ → Exec E Unit
  deletion_ticks pod namespace zero = fail unknown (codes "timeout waiting for pod to be deleted")
  deletion_ticks pod namespace (suc ticks) =
      deletion_tick pod namespace (deletion_ticks pod namespace ticks)

  unfoldable pub wait_for_pod_deletion : Str → Str → ℤ → Exec E Unit
  wait_for_pod_deletion pod namespace timeout = do
    ticks ← perform (Call.start_timer timeout)
    deletion_ticks pod namespace ticks

  -- A tick, and what follows one that finds the pod not ready, or no pod.
  unfoldable pub ready_tick : Str → Str → Exec E Unit → Exec E Unit
  ready_tick pod namespace next = do
    answer ← perform (Call.get_pod namespace pod)
    on_answer answer (λ p. if is_ready p.conditions then pure tt else next) (λ _. next)

  unfoldable pub ready_ticks : Str → Str → ℕ → Exec E Unit
  ready_ticks pod namespace zero = fail unknown (codes "timeout waiting for pod to be ready")
  ready_ticks pod namespace (suc ticks) = ready_tick pod namespace (ready_ticks pod namespace ticks)

  unfoldable pub wait_for_pod_ready : Str → Str → ℤ → Exec E Unit
  wait_for_pod_ready pod namespace timeout = do
    ticks ← perform (Call.start_timer timeout)
    ready_ticks pod namespace ticks

-- ===== src/Mounter/Remove.antt =====
-- pkg/csi/zerofs.go: `RemovePod`.
use zerofs_csi_driver.Base.{Str, codes, if◌then◌else◌}
use zerofs_csi_driver.Kube.{Pod}
use zerofs_csi_driver.Host.{
  Env, Exec, Call, Answer, got, refused, Result, ok, err, unknown, perform, pure, fail, attempt,
  ◌>>=◌, ◌>>◌,
}
use zerofs_csi_driver.Mounter.Timeout.{seconds}
use zerofs_csi_driver.Mounter.Manifest.{pod_name_of, secret_name_of}
use zerofs_csi_driver.Mounter.Wait.{says_not_found, wait_for_pod_deletion}

module _ {E : Env} where
  -- The pod did not go in time: delete it with no grace, and wait again.
  unfoldable pub escalate : Str → Str → Result Unit → Exec E Unit
  escalate namespace pod (ok _) = pure tt
  escalate namespace pod (err e) = do
    perform (Call.force_delete_pod namespace pod)
    attempt (wait_for_pod_deletion pod namespace (seconds 30))
    pure tt

  unfoldable pub await_deletion : Str → Str → Answer Unit → Exec E Unit
  await_deletion namespace pod (refused text) =
      if says_not_found text then pure tt else fail unknown (codes "failed to delete pod")
  await_deletion namespace pod (got _) = do
    gone ← attempt (wait_for_pod_deletion pod namespace (seconds 45))
    escalate namespace pod gone

  unfoldable pub delete_if_there : Str → Str → Answer Pod → Exec E Unit
  delete_if_there namespace pod (refused text) = pure tt
  delete_if_there namespace pod (got _) = do
    deleted ← perform (Call.delete_pod namespace pod)
    await_deletion namespace pod deleted

  -- The mounter's namespace, and the volume.
  unfoldable pub remove_pod : Str → Str → Exec E Unit
  remove_pod namespace volume = do
    there ← perform (Call.get_pod namespace (pod_name_of volume))
    delete_if_there namespace (pod_name_of volume) there
    perform (Call.delete_secret namespace (secret_name_of volume))
    pure tt

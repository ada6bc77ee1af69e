-- ===== src/Mounter/Create.antt =====
-- pkg/csi/zerofs.go: `CreatePod`.
use zerofs_csi_driver.Base.{Option, [], ◌∷◌, Str, codes, ◌===◌, if◌then◌else◌}
use zerofs_csi_driver.Base.Text.{Dict, value_of, or_default}
use zerofs_csi_driver.Kube.{Quantity, Secret, Pod}
use zerofs_csi_driver.Host.{
  Env, Exec, Call, Answer, got, refused, Result, ok, err, unknown, perform, pure, fail, attempt,
  ◌>>=◌, ◌>>◌,
}
use zerofs_csi_driver.Mounter.Timeout.{seconds, pod_ready_timeout}
use zerofs_csi_driver.Mounter.Config.{config_values, render_config}
use zerofs_csi_driver.Mounter.Manifest.{pod_name_of, secret_name_of, pod_manifest}
use zerofs_csi_driver.Mounter.Wait.{wait_for_pod_deletion, wait_for_pod_ready}

-- Without the DaemonSet's UID the pod has no owner.
abbrev pub or_empty : Result Str → Str
or_empty (ok uid) = uid
or_empty (err e) = []

abbrev pub new_secret : Str → Str → Str → Secret
new_secret namespace volume text = record {
  name = secret_name_of volume;
  namespace = namespace;
  resource_version = [];
  kind = [];
  entries = (codes "config.toml", text) ∷ [];
}

module _ {E : Env} where
  -- `if err != nil { return fmt.Errorf(message, err) }`
  unfoldable pub required : {A : Type 0} → Str → Answer A → Exec E A
  required message (got a) = pure a
  required message (refused text) = fail unknown message

  unfoldable pub get_daemon_set_uid : Str → Exec E Str
  get_daemon_set_uid namespace = do
    answer ← perform (Call.get_daemon_set namespace (codes "zerofs-csi-node"))
    required (codes "failed to get DaemonSet") answer

  unfoldable pub not_empty : Str → Str → Exec E Unit
  not_empty message [] = fail unknown message
  not_empty message (c ∷ s) = pure tt

  -- Any error of the `Get` leads to a `Create`.
  unfoldable pub put_secret : Secret → Answer Secret → Exec E Unit
  put_secret secret (refused text) = do
    answer ← perform (Call.create_secret secret)
    required (codes "failed to create secret") answer
  put_secret secret (got existing) = do
    answer ← perform (
        Call.update_secret
          (record secret { resource_version = existing.resource_version; kind = existing.kind }))
    required (codes "failed to update secret") answer

  unfoldable pub submit : Pod → Exec E Unit
  submit pod = do
    answer ← perform (Call.create_pod pod)
    required (codes "failed to create pod") answer

  -- The pod is on another node: delete it, wait for at most 30 seconds, and create it here.
  unfoldable pub replace_pod : Str → Pod → Exec E Unit
  replace_pod namespace pod = do
    answer ← perform (Call.delete_pod namespace pod.name)
    required (codes "failed to delete existing pod") answer
    attempt (wait_for_pod_deletion pod.name namespace (seconds 30))
    submit pod

  -- Gives the text of the error that a failed wait for readiness is wrapped in.
  unfoldable pub apply_pod : Str → Str → Pod → Answer Pod → Exec E Str
  apply_pod namespace node pod (refused text) = do
    submit pod
    pure (codes "pod failed to become ready")
  apply_pod namespace node pod (got existing) =
      if existing.node_name === node
      then pure (codes "pod exists but failed to become ready")
      else do replace_pod namespace pod; pure (codes "pod failed to become ready")

  unfoldable pub wrapped : Str → Result Unit → Exec E Unit
  wrapped message (ok _) = pure tt
  wrapped message (err e) = fail unknown message

  module _ (parse_quantity : Str → Option Quantity) (namespace : Str) where
    -- The part behind the configuration: the secret, the pod, and its readiness.
    unfoldable pub launch : Dict → Str → Str → Str → Exec E Unit
    launch config volume node text = do
      secret ← perform (Call.get_secret namespace (secret_name_of volume))
      put_secret (new_secret namespace volume text) secret
      uid ← attempt (get_daemon_set_uid namespace)
      let pod = pod_manifest parse_quantity namespace config volume node (or_empty uid)
      there ← perform (Call.get_pod namespace (pod_name_of volume))
      message ← apply_pod namespace node pod there
      ready ← attempt (wait_for_pod_ready (pod_name_of volume) namespace (pod_ready_timeout config))
      wrapped message ready

    -- Volume, node and config map.
    unfoldable pub create_pod : Str → Str → Str → Exec E Unit
    create_pod volume node config_map = do
      found_config ← perform (Call.get_config_map namespace config_map)
      config ← required (codes "failed to get zerofs configmap") found_config
      found_password ←
          perform
            (Call.get_secret namespace (value_of (codes "encryptionPasswordSecretName") config))
      password_secret ← required (codes "failed to get zerofs password secret") found_password
      let password = value_of (codes "password") password_secret.entries
      not_empty (codes "failed to get zerofs password: 'password' is empty") password
      found_aws ←
          perform (Call.get_secret namespace (value_of (codes "awsCredentialsSecretName") config))
      aws ← required (codes "failed to get aws secret") found_aws
      let access_key =
          or_default (value_of (codes "AWS_ACCESS_KEY_ID") aws.entries)
            (value_of (codes "username") aws.entries)
      not_empty (codes "failed to get aws access key id: all checked fields are empty") access_key
      let secret_key =
          or_default (value_of (codes "AWS_SECRET_ACCESS_KEY") aws.entries)
            (value_of (codes "password") aws.entries)
      not_empty (codes "failed to get aws secret access key: all checked fields are empty")
          secret_key
      launch config volume node
          (render_config (config_values config volume password access_key secret_key))

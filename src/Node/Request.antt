-- ===== src/Node/Request.antt =====
-- pkg/csi/node.go: the service, the requests of the node, their validation, and the calls of
-- pkg/csi/metrics.go.
pub mod Quiet
use zerofs_csi_driver.Base.{ℕ, Option, none, some, List, [], ◌∷◌, Str, codes}
use zerofs_csi_driver.Base.Text.{Dict, lookup}
use zerofs_csi_driver.Kube.{Quantity}
use zerofs_csi_driver.Host.{
  Env, Exec, Call, Code, invalid_argument, perform, pure, fail, on_option, ◌>>=◌, ◌>>◌,
}

-- `nodeService` with its mounter's namespace, and what it uses of libraries: `ParseQuantity`, and
-- `unicode.ToLower` outside ASCII.
pub record Service : Type 0 where
  pub node_id : Str
  pub namespace : Str
  pub parse_quantity : Str → Option Quantity
  pub lower_rune : ℕ → ℕ

-- `capability` is nil, or holds the mount flags (none for a block volume).
pub record PublishRequest : Type 0 where
  pub volume_id : Str
  pub target_path : Str
  pub capability : Option (List Str)
  pub volume_context : Dict

pub record UnpublishRequest : Type 0 where
  pub volume_id : Str
  pub target_path : Str

-- `NodeStageVolumeRequest` and `NodeUnstageVolumeRequest`
pub record StageRequest : Type 0 where
  pub volume_id : Str
  pub staging_target_path : Str

abbrev pub node_publish : Str
node_publish = codes "node_publish"

abbrev pub node_unpublish : Str
node_unpublish = codes "node_unpublish"

module _ {E : Env} where
  -- `stageTimer.observe`
  unfoldable pub observe : Str → Str → Exec E Unit
  observe operation stage = do perform (Call.observe operation stage); pure tt

  unfoldable pub record_stage_error : Str → Str → Exec E Unit
  record_stage_error operation stage = do perform (Call.stage_error operation stage); pure tt

  -- `recordStageError`, then `return nil, status.Error(…)`.
  unfoldable pub fail_stage : {A : Type 0} → Str → Str → Code → Str → Exec E A
  fail_stage operation stage code message = do record_stage_error operation stage; fail code message

  unfoldable pub present : Str → Str → Str → Exec E Unit
  present operation message [] = fail_stage operation (codes "validate") invalid_argument message
  present operation message (c ∷ s) = pure tt

  unfoldable pub has_capability : Option (List Str) → Exec E Unit
  has_capability none =
      fail_stage node_publish (codes "validate") invalid_argument
        (codes "volume capability cannot be empty")
  has_capability (some flags) = pure tt

  -- A key of the volume context that must be there.
  unfoldable pub context_value : Str → Str → Dict → Exec E Str
  context_value key message context =
      on_option (lookup key context) pure
        (fail_stage node_publish (codes "validate") invalid_argument message)

  -- The guards of `NodePublishVolume`; gives the filesystem.
  unfoldable pub validate_publish : PublishRequest → Exec E Str
  validate_publish req = do
    present node_publish (codes "volume ID cannot be empty") req.volume_id
    present node_publish (codes "target path cannot be empty") req.target_path
    has_capability req.capability
    context_value (codes "filesystem") (codes "failed to determine filesystem for volume")
        req.volume_context

  unfoldable pub validate_unpublish : UnpublishRequest → Exec E Unit
  validate_unpublish req = do
    present node_unpublish (codes "volume ID cannot be empty") req.volume_id
    present node_unpublish (codes "target path cannot be empty") req.target_path

  unfoldable pub given : Str → Str → Exec E Unit
  given message [] = fail invalid_argument message
  given message (c ∷ s) = pure tt

  unfoldable pub node_stage_volume : StageRequest → Exec E Unit
  node_stage_volume req = do
    given (codes "volume ID cannot be empty") req.volume_id
    given (codes "staging target path cannot be empty") req.staging_target_path

  unfoldable pub node_unstage_volume : StageRequest → Exec E Unit
  node_unstage_volume req = do
    given (codes "volume ID cannot be empty") req.volume_id
    given (codes "staging target path cannot be empty") req.staging_target_path

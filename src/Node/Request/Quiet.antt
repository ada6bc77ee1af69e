-- ===== src/Node/Request/Quiet.antt =====
-- Validation and metrics keep whatever every quiet call keeps.
use zerofs_csi_driver.Base.{◌≡◌, true, [], ◌∷◌, Option, none, some, List, Str}
use zerofs_csi_driver.Base.Text.{Dict}
use zerofs_csi_driver.Host.{Env, Sys, Call, Code, perform}
use zerofs_csi_driver.Host.Keeps.{Keeps, keeps_rules}
use zerofs_csi_driver.Host.Calls.{is_quiet}
use zerofs_csi_driver.Node.Request.{
  PublishRequest, UnpublishRequest, observe, record_stage_error, fail_stage, present,
  has_capability, context_value, validate_publish, validate_unpublish,
}

module _ {E : Env} {P : Sys E → Type 0}
    (quiet : (c : Call) → is_quiet c ≡ true → Keeps P (perform c)) where
  pub observe-Keeps : (operation stage : Str) → Keeps P (observe operation stage)
  unfolding observe
  observe-Keeps operation stage = search (keeps_rules, quiet)

  pub record_stage_error-Keeps :
      (operation stage : Str) → Keeps P (record_stage_error operation stage)
  unfolding record_stage_error
  record_stage_error-Keeps operation stage = search (keeps_rules, quiet)

  pub fail_stage-Keeps :
      {A : Type 0} (operation stage : Str) (c : Code) (message : Str)
      → Keeps P (fail_stage {A = A} operation stage c message)
  unfolding fail_stage
  fail_stage-Keeps operation stage c message = search (keeps_rules, record_stage_error-Keeps)

  present-Keeps : (operation message s : Str) → Keeps P (present operation message s)
  unfolding present
  present-Keeps operation message [] = fail_stage-Keeps _ _ _ _
  present-Keeps operation message (c ∷ s) = search keeps_rules

  has_capability-Keeps : (c : Option (List Str)) → Keeps P (has_capability c)
  unfolding has_capability
  has_capability-Keeps none = fail_stage-Keeps _ _ _ _
  has_capability-Keeps (some flags) = search keeps_rules

  pub context_value-Keeps :
      (key message : Str) (context : Dict) → Keeps P (context_value key message context)
  unfolding context_value
  context_value-Keeps key message context = search (keeps_rules, fail_stage-Keeps)

  pub validate_publish-Keeps : (req : PublishRequest) → Keeps P (validate_publish req)
  unfolding validate_publish
  validate_publish-Keeps req =
      search (keeps_rules, present-Keeps, has_capability-Keeps, context_value-Keeps) depth 10

  pub validate_unpublish-Keeps : (req : UnpublishRequest) → Keeps P (validate_unpublish req)
  unfolding validate_unpublish
  validate_unpublish-Keeps req = search (keeps_rules, present-Keeps)

-- ===== src/Node/Publish/Rejects.antt =====
-- A publish whose request lacks a field.
use zerofs_csi_driver.Base.{
  ◌≡◌, ◌≢◌, refl, Bool, true, false, ◌||◌, Bool-cases, Option-cases, inl, inr, Option, none, some,
  List, [], ◌∷◌, Str, codes, ◌===◌, ===_iff,
}
use zerofs_csi_driver.Base.Text.{lookup}
use zerofs_csi_driver.Host.{Env, Sys, did, Call, Result, err, invalid_argument, ◌>>=◌}
use zerofs_csi_driver.Node.Request.{
  PublishRequest, Service, node_publish, record_stage_error, fail_stage, present, has_capability,
  context_value, validate_publish,
}
use zerofs_csi_driver.Node.Unpublish.Returns.{present-given}
use zerofs_csi_driver.Node.Publish.{node_publish_volume}

abbrev is_none : {A : Type 0} → Option A → Bool
is_none none = true
is_none (some a) = false

-- No identifier, target path, capability or filesystem.
abbrev pub is_incomplete : PublishRequest → Bool
is_incomplete req =
    (req.volume_id === [])
    || (req.target_path === [])
    || is_none req.capability
    || is_none (lookup (codes "filesystem") req.volume_context)

-- An invalid argument, and no call but the count of an error in the stage `validate`.
abbrev pub IsRejected : {E : Env} → Sys E → Result Unit × Sys E → Type 0
IsRejected s out =
    (message : Str) × (out.0 ≡ err (record { code = invalid_argument; message = message }))
    × (out.1.log ≡ did (Call.stage_error node_publish (codes "validate")) tt ∷ s.log)

module _ {E : Env} (ns : Service) (req : PublishRequest) (s : Sys E) where
  no_filesystem :
      (flags : List Str)
      → req.volume_id ≢ []
      → req.target_path ≢ []
      → req.capability ≡ some flags
      → lookup (codes "filesystem") req.volume_context ≡ none
      → IsRejected s (node_publish_volume ns req s)
  unfolding node_publish_volume validate_publish has_capability context_value fail_stage
      record_stage_error ◌>>=◌
  no_filesystem flags v t c f =
      rw
        (
          present-given node_publish (codes "volume ID cannot be empty") req.volume_id v,
          present-given node_publish (codes "target path cannot be empty") req.target_path t,
          c,
          f,
        )
        (_, refl, refl)

  no_capability :
      req.volume_id ≢ []
      → req.target_path ≢ []
      → req.capability ≡ none
      → IsRejected s (node_publish_volume ns req s)
  unfolding node_publish_volume validate_publish has_capability fail_stage record_stage_error ◌>>=◌
  no_capability v t c =
      rw
        (
          present-given node_publish (codes "volume ID cannot be empty") req.volume_id v,
          present-given node_publish (codes "target path cannot be empty") req.target_path t,
          c,
        )
        (_, refl, refl)

  no_target :
      req.volume_id ≢ [] → req.target_path ≡ [] → IsRejected s (node_publish_volume ns req s)
  unfolding node_publish_volume validate_publish present fail_stage record_stage_error ◌>>=◌
  no_target v t =
      rw (present-given node_publish (codes "volume ID cannot be empty") req.volume_id v, t)
        (_, refl, refl)

  no_volume : req.volume_id ≡ [] → IsRejected s (node_publish_volume ns req s)
  unfolding node_publish_volume validate_publish present fail_stage record_stage_error ◌>>=◌
  no_volume v = rw v (_, refl, refl)

false-true : false ≡ true → ⊥
false-true e = absurd (cc)

not_nil : (s : Str) → (s === []) ≡ false → s ≢ []
not_nil [] h = absurd (cc)
not_nil (c ∷ s) h = λ e. absurd (cc)

-- A publish whose request lacks the identifier, the target path, the capability or the filesystem
-- fails with an invalid argument, and makes no call but to count an error of the stage validate.
pub node_publish_volume-IsRejected :
    {E : Env} (ns : Service) (req : PublishRequest) (s : Sys E)
    → is_incomplete req ≡ true
    → IsRejected s (node_publish_volume ns req s)
node_publish_volume-IsRejected ns req s h = elim (Bool-cases (req.volume_id === [])) [
  | inl v ↦ no_volume ns req s ((===_iff req.volume_id []).0 v)
  | inr v ↦ elim (Bool-cases (req.target_path === [])) [
    | inl t ↦ no_target ns req s (not_nil _ v) ((===_iff req.target_path []).0 t)
    | inr t ↦ elim (Option-cases req.capability) [
      | inl c ↦ no_capability ns req s (not_nil _ v) (not_nil _ t) c
      | inr (flags, c) ↦ elim (Option-cases (lookup (codes "filesystem") req.volume_context)) [
        | inl f ↦ no_filesystem ns req s flags (not_nil _ v) (not_nil _ t) c f
        | inr (x, f) ↦ absurd (false-true (rw (v, t, c, f) at h))
      ]
    ]
  ]
]

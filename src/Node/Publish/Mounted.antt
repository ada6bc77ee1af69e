-- ===== src/Node/Publish/Mounted.antt =====
-- A publish that returns no error leaves the target mounted.
use zerofs_csi_driver.Base.{
  ◌≡◌, refl, true, false, Bool-cases, ◌⊎◌, inl, inr, List, ◌∷◌, Option, none, some, Str, codes,
}
use zerofs_csi_driver.Host.{
  Env, Sys, Event, did, Call, Output, Result, ok, err, Err, pure, ◌>>=◌, ◌>>◌,
}
use zerofs_csi_driver.Host.Ends.{Ends, Ends-bind, Ends-seq, Ends-then, ends_rules}
use zerofs_csi_driver.Nbd.Devices.{source_args, source_of, find_mount_source, unmount_best_effort}
use zerofs_csi_driver.Node.Request.{
  Service, PublishRequest, node_publish, observe, record_stage_error,
}
use zerofs_csi_driver.Node.Attach.{
  mount_args, disconnect_and_fail, mounted_fs, mount_fs, attach_disk,
}
use zerofs_csi_driver.Node.Publish.{
  is_nbd_source, flags_of, publish_body, settle, publish_fresh, publish_over, node_publish_volume,
}

-- The last command was a `mount` on the target, and it succeeded.
abbrev pub JustMounted : Str → List Str → Str → List Event → Type 0
JustMounted filesystem flags target
      (did (Call.observe a b) u ∷ did (Call.exec program args) o ∷ log) =
    (dev : Str) × (program ≡ codes "mount")
    × (args ≡ mount_args filesystem flags dev target)
    × (o.failed ≡ false)
JustMounted filesystem flags target _ = ⊥

abbrev pub Mounted : Str → List Str → Str → List Event → Type 0
Mounted filesystem flags target (did (Call.observe a b) u ∷ log) =
    JustMounted filesystem flags target log
Mounted filesystem flags target _ = ⊥

module _ (E : Env) (filesystem : Str) (flags : List Str) (dev target : Str) where
  mount_reply-JustMounted :
      (o : Output) (w : E.World) (log : List Event) (a : Unit)
      → let s : Sys E = record {
        world = w;
        log = did (Call.exec (codes "mount") (mount_args filesystem flags dev target)) o ∷ log;
      } in
        (mounted_fs {E = E} dev o.failed s).0 ≡ ok a
        → JustMounted filesystem flags target (mounted_fs {E = E} dev o.failed s).1.log
  unfolding mounted_fs observe disconnect_and_fail record_stage_error ◌>>=◌
  mount_reply-JustMounted o w log a = elim (Bool-cases o.failed) [
    | inl e ↦ rw e (λ h. absurd (cc))
    | inr e ↦ rw e (λ h. (dev, refl, refl, refl))
  ]

  mount_fs-JustMounted :
      Ends {E = E} (JustMounted filesystem flags target) (mount_fs filesystem flags dev target)
  unfolding mount_fs ◌>>=◌
  mount_fs-JustMounted = record {
    holds = λ s a.
        let c = Call.exec (codes "mount") (mount_args filesystem flags dev target) in
        mount_reply-JustMounted (E.answer c s.world).0 (E.answer c s.world).1 s.log a;
  }

module _ {E : Env} (ns : Service) (req : PublishRequest) (filesystem : Str) where
  attach_disk-JustMounted :
      (flags : List Str)
      → Ends {E = E}
          (JustMounted filesystem flags req.target_path)
          (attach_disk ns.lower_rune req.volume_id req.target_path filesystem flags)
  unfolding attach_disk
  attach_disk-JustMounted flags =
      search (ends_rules, mount_fs-JustMounted E filesystem flags) depth 8

  observe-Mounted :
      (flags : List Str) (o t : Str) (s : Sys E)
      → JustMounted filesystem flags req.target_path s.log
      → Mounted filesystem flags req.target_path (observe o t s).1.log
  unfolding observe ◌>>=◌
  observe-Mounted flags o t s h = h

  attached-Mounted :
      (flags : List Str)
      → Ends {E = E} (Mounted filesystem flags req.target_path) (
          attach_disk ns.lower_rune req.volume_id req.target_path filesystem flags
          >> observe node_publish (codes "total"))
  attached-Mounted flags =
      Ends-then {R = JustMounted filesystem flags req.target_path} _ _
        (attach_disk-JustMounted flags) (λ _. observe-Mounted flags node_publish (codes "total"))

  publish_body-Mounted :
      Ends {E = E}
        (Mounted filesystem (flags_of req.capability) req.target_path)
        (publish_body ns req filesystem)
  unfolding publish_body
  publish_body-Mounted = search (ends_rules, attached-Mounted) depth 14

  failed-Mounted :
      (e : Err)
      → Ends {E = E}
          (Mounted filesystem (flags_of req.capability) req.target_path)
          (settle ns req (err e))
  unfolding settle
  failed-Mounted e = search ends_rules

  settled-Mounted :
      (r : Result Unit) (s : Sys E) (a : Unit)
      → ((b : Unit) → r ≡ ok b → Mounted filesystem (flags_of req.capability) req.target_path s.log)
      → (settle ns req r s).0 ≡ ok a
      → Mounted filesystem (flags_of req.capability) req.target_path (settle ns req r s).1.log
  unfolding settle pure
  settled-Mounted (ok b) s a k h = k b refl
  settled-Mounted (err e) s a k h = (failed-Mounted e).holds s a h

  publish_fresh-Mounted :
      Ends {E = E}
        (Mounted filesystem (flags_of req.capability) req.target_path)
        (publish_fresh ns req filesystem)
  unfolding publish_fresh ◌>>=◌
  publish_fresh-Mounted = Ends-seq _ _ (record {
    holds = λ s a.
        settled-Mounted (publish_body ns req filesystem s).0 (publish_body ns req filesystem s).1 a
          (publish_body-Mounted.holds s);
  })

-- `findmnt` on the target printed a source with this prefix.
abbrev pub AlreadyMounted : Str → List Event → Type 0
AlreadyMounted target (did (Call.observe a b) u ∷ did (Call.exec program args) o ∷ log) =
    (src : Str) × (program ≡ codes "findmnt")
    × (args ≡ source_args target)
    × (source_of o ≡ some src)
    × (is_nbd_source src ≡ true)
AlreadyMounted target _ = ⊥

-- Either way to be published.
abbrev pub IsPublished : PublishRequest → List Event → Type 0
IsPublished req log =
    AlreadyMounted req.target_path log
    ⊎ ((filesystem : Str) × Mounted filesystem (flags_of req.capability) req.target_path log)

module _ (E : Env) (ns : Service) (req : PublishRequest) (filesystem : Str) where
  fresh-IsPublished : Ends {E = E} (IsPublished req) (publish_fresh ns req filesystem)
  fresh-IsPublished = record {
    holds = λ s a h. inr (filesystem, (publish_fresh-Mounted ns req filesystem).holds s a h);
  }

  again-IsPublished :
      Ends {E = E}
        (IsPublished req)
        (unmount_best_effort req.target_path >> publish_fresh ns req filesystem)
  again-IsPublished = Ends-seq _ _ fresh-IsPublished

  -- The branch, once `findmnt` has replied.
  over-IsPublished :
      (o : Output) (w : E.World) (log : List Event) (a : Unit) (src : Option Str)
      → source_of o ≡ src
      → let s : Sys E = record {
        world = w;
        log = did (Call.exec (codes "findmnt") (source_args req.target_path)) o ∷ log;
      } in
        (publish_over {E = E} ns req filesystem src s).0 ≡ ok a
        → IsPublished req (publish_over {E = E} ns req filesystem src s).1.log
  unfolding publish_over observe ◌>>=◌
  over-IsPublished o w log a none e = fresh-IsPublished.holds _ a
  over-IsPublished o w log a (some src) e = elim (Bool-cases (is_nbd_source src)) [
    | inl nbd ↦ rw nbd (λ h. inl (src, refl, refl, e, nbd))
    | inr other ↦ rw other (
        again-IsPublished.holds
          (record {
            world = w;
            log = did (Call.exec (codes "findmnt") (source_args req.target_path)) o ∷ log;
          })
          a)
  ]

  found-IsPublished :
      Ends {E = E}
        (IsPublished req)
        (find_mount_source req.target_path >>= publish_over ns req filesystem)
  unfolding find_mount_source pure ◌>>=◌
  found-IsPublished = record {
    holds = λ s a.
        let c = Call.exec (codes "findmnt") (source_args req.target_path) in
        over-IsPublished (E.answer c s.world).0 (E.answer c s.world).1 s.log a _ refl;
  }

-- If NodePublishVolume returns no error, then the last command that it ran on the host either was a
-- `mount` of a device on the target path, with the flags of the request, which succeeded, or was the
-- `findmnt` of the target path, and it printed a source that starts with /dev/nbd.
pub node_publish_volume-IsPublished :
    {E : Env} (ns : Service) (req : PublishRequest) (s : Sys E)
    → (node_publish_volume ns req s).0 ≡ ok tt
    → IsPublished req (node_publish_volume ns req s).1.log
unfolding node_publish_volume
node_publish_volume-IsPublished {E} ns req s =
    (Ends-bind _ _ (found-IsPublished E ns req)).holds s tt

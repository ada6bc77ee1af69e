-- ===== src/Node/Publish/Agrees.antt =====
-- pkg/csi/node.go: the steps of a publish that reserve or give up a device keep the agreement of state
-- files and reservations.
use zerofs_csi_driver.Base.{
  ℕ, ◌≡◌, refl, ◌∙◌, Bool, true, false, Option, none, some, List, [], ◌∷◌, Str, codes,
}
use zerofs_csi_driver.Host.{
  Env, Sys, Exec, Call, resource_exhausted, Result, ok, err, perform, attempt, ◌>>=◌,
}
use zerofs_csi_driver.Host.Keeps.{
  Keeps, Keeps-pure, keeps_rules, Keeps-bind, Keeps-seq, Keeps-attempt,
}
use zerofs_csi_driver.Host.Triple.{
  Triple, Outcome, Triple-pure, Triple-fail, Triple-bind, Triple-seq, Triple-weaken, Triple-state,
  Triple-attempt, Keeps-Triple, Triple-end, Triple-with_lock,
}
use zerofs_csi_driver.Host.Calls.{is_quiet}
use zerofs_csi_driver.Host.Files.{touches, IsReliable}
use zerofs_csi_driver.Nbd.Devices.Quiet.{
  is_nbd_connected-Keeps, unmount_best_effort-Keeps, detach-Keeps,
}
use zerofs_csi_driver.Nbd.State.{clear_volume_nbd_state}
use zerofs_csi_driver.Nbd.State.Paths.{IsVolume}
use zerofs_csi_driver.Nbd.Exclusive.{IsSame-call, IsExclusive-same, same-recorded}
use zerofs_csi_driver.Nbd.Exclusive.Collect.{Safe, changes-Safe, quiet-touches}
use zerofs_csi_driver.Nbd.Exclusive.Claim.{Found}
use zerofs_csi_driver.Nbd.Exclusive.Scan.{IsBusyWhenOld}
use zerofs_csi_driver.Nbd.Exclusive.Clear.{clear-Safe}
use zerofs_csi_driver.Nbd.Exclusive.Reserve.{
  read_volume_nbd_state-Found, reserve_nbd_device-Exclusive,
}
use zerofs_csi_driver.Mounter.Objects.{own_of}
use zerofs_csi_driver.Mounter.Remove.{remove_pod}
use zerofs_csi_driver.Mounter.Quiet.{remove_pod-Keeps}
use zerofs_csi_driver.Node.Request.{fail_stage}
use zerofs_csi_driver.Node.Request.Quiet.{observe-Keeps, record_stage_error-Keeps, fail_stage-Keeps}
use zerofs_csi_driver.Node.Mkfs.{mkfs_command}
use zerofs_csi_driver.Node.Attach.{
  connect_args, reserved, reserve_locked, connected, connect_nbd, format_blank, format_if_blank,
  attach_disk,
}
use zerofs_csi_driver.Node.Attach.Plain.{formatted-Keeps, mount_fs-Keeps}
use zerofs_csi_driver.Node.Publish.{drop_stale, drop_recorded, drop_stale_state, release, clean_up}
use zerofs_csi_driver.Node.Publish.Plain.{detach_if_connected-Keeps}

module _ {E : Env} (view : E.World → Str → Option Str) (rel : IsReliable E view) (v : Str)
    (h : IsVolume v) where
  abbrev Good : Sys E → Type 0
  Good = Safe view rel.files

  -- The state file names the device, if there is one.
  abbrev Kept : Option Str → Sys E → Type 0
  Kept = Found E view v

  abbrev IsHarmless : Call → Type 0
  IsHarmless c = (p : Str) → touches c p ≡ false

  harmless-Good : (c : Call) → IsHarmless c → Keeps Good (perform c)
  unfolding perform
  harmless-Good c q = record {
    holds = λ s x. IsExclusive-same view _ _ (IsSame-call view rel.files c s.world q) x;
  }

  harmless-Kept : (d : Str) (c : Call) → IsHarmless c → Keeps (Kept (some d)) (perform c)
  unfolding perform
  harmless-Kept d c q = record {
    holds = λ s (x, e).
        let same = IsSame-call view rel.files c s.world q in
        (IsExclusive-same view _ _ same x, same-recorded view _ _ v h same ∙ e);
  }

  quiet : (c : Call) → is_quiet c ≡ true → Keeps Good (perform c)
  quiet c q = harmless-Good c (λ p. quiet-touches c p q)

  quiet_device : (d : Str) (c : Call) → is_quiet c ≡ true → Keeps (Kept (some d)) (perform c)
  quiet_device d c q = harmless-Kept d c (λ p. quiet-touches c p q)

  -- While the device is recorded, an action that keeps it may come before one that gives it up.
  before :
      {A B : Type 0} (d : Str) (m : Exec E A) (f : A → Exec E B)
      → Keeps (Kept (some d)) m
      → ((a : A) → Triple (Kept (some d)) (f a) (λ _. Good) Good)
      → Triple (Kept (some d)) (m >>= f) (λ _. Good) Good
  before d m f k l =
      Triple-bind m f (Triple-weaken m (λ s x. x) (λ a s x. x) (λ s x. x.0) (Keeps-Triple m k)) l

  clear-Good : (d : Str) → Triple (Kept (some d)) (clear_volume_nbd_state v d) (λ _. Good) Good
  clear-Good d = Triple-state _ (λ s x. clear-Safe view rel v h d s x.0 x.1)

  drop_stale-Good : (o : Option Str) → Triple (Kept o) (drop_stale v o) (λ _. Good) Good
  unfolding drop_stale
  drop_stale-Good none = Triple-pure tt (λ s x. x.0)
  drop_stale-Good (some d) =
      before d _ _ (Keeps-attempt _ (is_nbd_connected-Keeps (quiet_device d) d))
        (λ r. before d _ _ (detach_if_connected-Keeps (quiet_device d) d r) (λ _. clear-Good d))

  pub drop_stale_state-Good : Keeps Good (drop_stale_state v)
  unfolding drop_stale_state drop_recorded
  drop_stale_state-Good =
      Triple-end _ (λ a s x. x)
        (Triple-with_lock _ (harmless-Good Call.lock (λ p. refl))
          (Triple-bind _ _ (read_volume_nbd_state-Found view rel v h) drop_stale-Good)
          (λ a. harmless-Good Call.unlock (λ p. refl)) (harmless-Good Call.unlock (λ p. refl)))

  release-Good : (o : Option Str) → Triple (Kept o) (release v o) (λ _. Good) Good
  unfolding release
  release-Good none = Triple-pure tt (λ s x. x.0)
  release-Good (some d) = before d _ _ (detach-Keeps (quiet_device d) d) (λ _. clear-Good d)

  removed : (namespace : Str) → Keeps Good (attempt (remove_pod namespace v))
  removed namespace =
      Keeps-attempt _
        (remove_pod-Keeps quiet namespace v (own_of (changes-Safe view rel.files) namespace v))

  pub clean_up-Good : (namespace target : Str) → Keeps Good (clean_up namespace v target)
  unfolding clean_up
  clean_up-Good namespace target = Keeps-seq _ _ (unmount_best_effort-Keeps quiet target) (
      Triple-end _ (λ a s x. x)
        (Triple-bind _ _ (read_volume_nbd_state-Found view rel v h) (λ o.
          Triple-seq _ _ (release-Good o)
            (λ _. Keeps-Triple _ (Keeps-seq _ _ (removed namespace) (Keeps-pure tt))))))

  connected-Good :
      (d : Str) (failed : Bool) → Triple (Kept (some d)) (connected v d failed) (λ _. Good) Good
  unfolding connected
  connected-Good d false =
      Triple-weaken _ (λ s x. x.0) (λ a s x. x) (λ s x. x)
        (Keeps-Triple _ (observe-Keeps quiet _ _))
  connected-Good d true =
      Triple-seq _ _
        (Triple-with_lock _ (harmless-Kept d Call.lock (λ p. refl)) (clear-Good d)
          (λ a. harmless-Good Call.unlock (λ p. refl)) (harmless-Good Call.unlock (λ p. refl)))
        (λ _. Keeps-Triple _ (fail_stage-Keeps quiet _ _ _ _))

  connect_nbd-Good : (d : Str) → Triple (Kept (some d)) (connect_nbd v d) (λ _. Good) Good
  unfolding connect_nbd
  connect_nbd-Good d =
      before d _ _ (quiet_device d (Call.exec (codes "nbd-client") (connect_args v d)) refl)
        (λ o. connected-Good d o.failed)

  format_blank-Good :
      (lower_rune : ℕ → ℕ) (filesystem d t : Str)
      → Keeps Good (format_blank lower_rune filesystem d t)
  unfolding format_blank
  format_blank-Good lower_rune filesystem d (c ∷ t) = search keeps_rules
  format_blank-Good lower_rune filesystem d [] =
      let (program, args) = mkfs_command lower_rune filesystem d in
      Keeps-bind _ _ (harmless-Good (Call.exec program args) (λ p. refl))
        (λ o. formatted-Keeps quiet d o.failed)

  format_if_blank-Good :
      (lower_rune : ℕ → ℕ) (filesystem d : Str)
      → Keeps Good (format_if_blank lower_rune filesystem d)
  unfolding format_if_blank
  format_if_blank-Good lower_rune filesystem d = search (keeps_rules, quiet, format_blank-Good)

  module _ (old : IsBusyWhenOld E) where
    reserved-Kept :
        (r : Result Str)
        → Triple (Outcome (λ d. Kept (some d)) Good r) (reserved r) (λ d. Kept (some d)) Good
    unfolding reserved fail_stage
    reserved-Kept (ok d) = Triple-pure d (λ s x. x)
    reserved-Kept (err e) =
        Triple-seq _ _ (Keeps-Triple _ (record_stage_error-Keeps quiet _ _))
          (λ _. Triple-fail resource_exhausted _ (λ s x. x))

    unlock-Outcome :
        (r : Result Str) → Keeps (Outcome (λ d. Kept (some d)) Good r) (perform Call.unlock)
    unlock-Outcome (ok d) = harmless-Kept d Call.unlock (λ p. refl)
    unlock-Outcome (err e) = harmless-Good Call.unlock (λ p. refl)

    reserve_locked-Kept : Triple Good (reserve_locked v) (λ d. Kept (some d)) Good
    unfolding reserve_locked
    reserve_locked-Kept =
        Triple-bind _ _
          (Triple-with_lock _ (harmless-Good Call.lock (λ p. refl))
            (Triple-attempt _ (reserve_nbd_device-Exclusive view rel v h old)) unlock-Outcome
            (harmless-Good Call.unlock (λ p. refl)))
          reserved-Kept

    pub attach_disk-Good :
        (lower_rune : ℕ → ℕ) (target filesystem : Str) (flags : List Str)
        → Keeps Good (attach_disk lower_rune v target filesystem flags)
    unfolding attach_disk
    attach_disk-Good lower_rune target filesystem flags =
        Triple-end _ (λ a s x. x)
          (Triple-bind _ _ reserve_locked-Kept (λ d. Triple-seq _ _ (connect_nbd-Good d) (λ _.
            Keeps-Triple _ (search (keeps_rules, format_if_blank-Good, mount_fs-Keeps quiet)))))

-- ===== src/Node/Publish/Forgets.antt =====
-- A publish that fails leaves no device recorded for its volume.
use zerofs_csi_driver.Base.{
  ℕ, zero, suc, ◌≡◌, refl, sym, ◌∙◌, ap, Bool, true, false, Option, none, some, Str,
}
use zerofs_csi_driver.Host.{
  Env, Sys, Exec, Call, Result, ok, err, Err, perform, pure, attempt, ◌>>=◌, ◌>>◌,
}
use zerofs_csi_driver.Host.Keeps.{Keeps, Keeps-pure, Keeps-seq, Keeps-attempt, Keeps-fail}
use zerofs_csi_driver.Host.Succeeds.{Succeeds, Post, succeeds_rules, Post-bind, Post-keep}
use zerofs_csi_driver.Host.Calls.{is_quiet}
use zerofs_csi_driver.Host.Files.{touches, change-touches, is_own, read_of, IsFileSystem}
use zerofs_csi_driver.Nbd.Devices.{
  unmount_found, unmount_best_effort, detach_attempt, detach_attempts,
  detach_nbd_device_best_effort,
}
use zerofs_csi_driver.Nbd.State.{
  volume_nbd_state_path, device_in, read_volume_nbd_state, clear_volume_nbd_state,
}
use zerofs_csi_driver.Mounter.Objects.{own_of}
use zerofs_csi_driver.Mounter.Remove.{remove_pod}
use zerofs_csi_driver.Mounter.Quiet.{remove_pod-Keeps}
use zerofs_csi_driver.Node.Request.{Service, PublishRequest}
use zerofs_csi_driver.Node.Unpublish.Returns.{
  clear_volume_nbd_state-Succeeds, find_mount_source-Succeeds,
}
use zerofs_csi_driver.Node.Unpublish.Clears.{clear-Absent}
use zerofs_csi_driver.Node.Publish.{
  detach_if_connected, drop_stale, drop_recorded, drop_stale_state, release, clean_up, settle,
  publish_fresh,
}

module _ {E : Env} where
  unmount_found-Succeeds :
      (target : Str) (src : Option Str) → Succeeds {E = E} (unmount_found target src)
  unfolding unmount_found
  unmount_found-Succeeds target none = search succeeds_rules
  unmount_found-Succeeds target (some src) = search succeeds_rules

  unmount_best_effort-Succeeds : (target : Str) → Succeeds {E = E} (unmount_best_effort target)
  unfolding unmount_best_effort
  unmount_best_effort-Succeeds target =
      search (succeeds_rules, find_mount_source-Succeeds, unmount_found-Succeeds)

  detach_attempt-Succeeds :
      (dev : Str) (next : Exec E Unit) → Succeeds next → Succeeds (detach_attempt dev next)
  unfolding detach_attempt
  detach_attempt-Succeeds dev next k = search succeeds_rules depth 8

  detach_attempts-Succeeds : (left : ℕ) (dev : Str) → Succeeds {E = E} (detach_attempts left dev)
  unfolding detach_attempts
  detach_attempts-Succeeds zero dev = search succeeds_rules
  detach_attempts-Succeeds (suc left) dev =
      detach_attempt-Succeeds dev _ (detach_attempts-Succeeds left dev)

  detach-Succeeds : (dev : Str) → Succeeds {E = E} (detach_nbd_device_best_effort dev)
  unfolding detach_nbd_device_best_effort
  detach-Succeeds dev = search (succeeds_rules, detach_attempts-Succeeds)

  read_volume-Succeeds : (volume : Str) → Succeeds {E = E} (read_volume_nbd_state volume)
  unfolding read_volume_nbd_state
  read_volume-Succeeds volume = search succeeds_rules

  detach_if_connected-Succeeds :
      (dev : Str) (r : Result Bool) → Succeeds {E = E} (detach_if_connected dev r)
  unfolding detach_if_connected
  detach_if_connected-Succeeds dev (ok true) = detach-Succeeds dev
  detach_if_connected-Succeeds dev _ = search succeeds_rules

  drop_stale-Succeeds : (volume : Str) (dev : Option Str) → Succeeds {E = E} (drop_stale volume dev)
  unfolding drop_stale
  drop_stale-Succeeds volume none = search succeeds_rules
  drop_stale-Succeeds volume (some dev) =
      search (succeeds_rules, detach_if_connected-Succeeds, clear_volume_nbd_state-Succeeds) depth 8

  drop_stale_state-Succeeds : (volume : Str) → Succeeds {E = E} (drop_stale_state volume)
  unfolding drop_stale_state drop_recorded
  drop_stale_state-Succeeds volume =
      search (succeeds_rules, read_volume-Succeeds, drop_stale-Succeeds) depth 8

  release-Succeeds : (volume : Str) (dev : Option Str) → Succeeds {E = E} (release volume dev)
  unfolding release
  release-Succeeds volume none = search succeeds_rules
  release-Succeeds volume (some dev) =
      search (succeeds_rules, detach-Succeeds, clear_volume_nbd_state-Succeeds)

-- A call that changes no file of its own changes none of the driver's.
is_quiet-touches : (c : Call) (p : Str) → is_quiet c ≡ true → touches c p ≡ false
is_quiet-touches (Call.write_file q x) p h = absurd (cc)
is_quiet-touches (Call.create_excl q) p h = absurd (cc)
is_quiet-touches (Call.write_string q x) p h = absurd (cc)
is_quiet-touches (Call.remove q) p h = absurd (cc)
is_quiet-touches _ p h = refl

-- The device that the volume's state file names.
abbrev pub recorded : {E : Env} → (E.World → Str → Option Str) → Str → Sys E → Option Str
recorded view volume s = device_in (read_of (view s.world (volume_nbd_state_path volume)))

module _ {E : Env} (view : E.World → Str → Option Str) (fs : IsFileSystem E view) (volume : Str)
    (own : is_own (volume_nbd_state_path volume) ≡ true) where
  abbrev Forgotten : Sys E → Type 0
  Forgotten s = recorded view volume s ≡ none

  harmless-Forgotten :
      (c : Call)
      → touches c (volume_nbd_state_path volume) ≡ false
      → Keeps {E = E} Forgotten (perform c)
  unfolding perform
  harmless-Forgotten c h = record {
    holds = λ s k.
        ap (λ (x : Option Str). device_in (read_of x))
          (fs.untouched c s.world (volume_nbd_state_path volume) own h)
        ∙ k;
  }

  clear-Forgotten : (dev : Str) → Post {E = E} Forgotten (clear_volume_nbd_state volume dev)
  clear-Forgotten dev = record {
    holds = λ s.
        ap (λ (x : Option Str). device_in (read_of x))
          ((clear-Absent view fs volume own dev).holds s);
  }

  release-Forgotten :
      (dev : Option Str) (t : Sys E)
      → (dev ≡ none → Forgotten t)
      → Forgotten (release volume dev t).1
  unfolding release pure
  release-Forgotten none t h = h refl
  release-Forgotten (some dev) t h =
      (Post-bind _ _ (detach-Succeeds dev) (λ _. clear-Forgotten dev)).holds t

  read-Forgotten :
      (s : Sys E)
      → let path = volume_nbd_state_path volume in
        device_in (E.answer (Call.read_file path) s.world).0 ≡ none
        → Forgotten (perform (Call.read_file path) s).1
  unfolding perform
  read-Forgotten s e =
      ap (λ (x : Option Str). device_in (read_of x))
        (fs.untouched (Call.read_file (volume_nbd_state_path volume)) s.world _ own refl)
      ∙ (ap device_in (sym (fs.read s.world _ own)) ∙ e)

  -- The middle of `clean_up`, and what follows.
  released-Forgotten :
      (rest : Exec E Unit)
      → Keeps Forgotten rest
      → Post {E = E} Forgotten (read_volume_nbd_state volume >>= λ dev. release volume dev >> rest)
  unfolding read_volume_nbd_state pure perform ◌>>=◌
  released-Forgotten rest k = record {
    holds = λ s.
        rw (release-Succeeds volume _).returns
          (k.holds _ (release-Forgotten _ _ (read-Forgotten s)));
  }

  quiet-Forgotten : (c : Call) → is_quiet c ≡ true → Keeps {E = E} Forgotten (perform c)
  quiet-Forgotten c h = harmless-Forgotten c (is_quiet-touches c _ h)

  removed-Forgotten : (namespace : Str) → Keeps Forgotten (attempt (remove_pod namespace volume))
  removed-Forgotten namespace = Keeps-attempt _ (
      remove_pod-Keeps quiet-Forgotten namespace volume
        (own_of (λ c h. harmless-Forgotten c (change-touches c _ h)) namespace volume))

  clean_up-Forgotten :
      (namespace target : Str) → Post {E = E} Forgotten (clean_up namespace volume target)
  unfolding clean_up
  clean_up-Forgotten namespace target =
      Post-bind _ _ (unmount_best_effort-Succeeds target)
        λ _. released-Forgotten _ (Keeps-seq _ _ (removed-Forgotten namespace) (Keeps-pure tt))

  settled-Forgotten :
      (ns : Service) (req : PublishRequest) (r : Result Unit) (s : Sys E) (e : Err)
      → req.volume_id ≡ volume
      → (settle ns req r s).0 ≡ err e
      → Forgotten (settle ns req r s).1
  unfolding settle pure
  settled-Forgotten ns req (ok b) s e v h = absurd (cc)
  settled-Forgotten ns req (err f) s e v h = rw v (
      (Post-keep _ _ (clean_up-Forgotten ns.namespace req.target_path)
          (λ _. Keeps-fail f.code f.message)).holds
        s)

-- If a publish fails behind its guards and behind the check for a volume that is mounted already, then
-- the state file of the volume names no device any more: it is not there, or blank. The file system
-- is as assumed, and the path of the state file is in the driver's directory.
pub publish_fresh-forgets :
    {E : Env} (view : E.World → Str → Option Str)
    → IsFileSystem E view
    → (ns : Service) (req : PublishRequest) (filesystem : Str) (s : Sys E) (e : Err)
    → is_own (volume_nbd_state_path req.volume_id) ≡ true
    → (publish_fresh ns req filesystem s).0 ≡ err e
    → recorded view req.volume_id (publish_fresh ns req filesystem s).1 ≡ none
unfolding publish_fresh ◌>>=◌
publish_fresh-forgets view fs ns req filesystem s e own =
    rw (drop_stale_state-Succeeds req.volume_id).returns
      (settled-Forgotten view fs req.volume_id own ns req _ _ e refl)

-- ===== src/Node/Publish/Locking.antt =====
-- `NodePublishVolume` uses the service's mutex well.
use zerofs_csi_driver.Base.{ℕ, ◌≡◌, refl, true, false, some, [], ◌∷◌, Str, codes}
use zerofs_csi_driver.Host.{Env, Sys, Exec, Call, perform, with_lock}
use zerofs_csi_driver.Host.Keeps.{Keeps, Keeps-bind, keeps_rules}
use zerofs_csi_driver.Host.Calls.{is_plain, is_change}
use zerofs_csi_driver.Host.Locking.{
  mutex, uses_mutex, Holds, other-Holds, change-uses_mutex, with_lock-Holds,
}
use zerofs_csi_driver.Mounter.Objects.{own_of}
use zerofs_csi_driver.Node.Request.{Service, PublishRequest}
use zerofs_csi_driver.Node.Mkfs.{mkfs_command}
use zerofs_csi_driver.Node.Attach.{format_blank, format_if_blank}
use zerofs_csi_driver.Nbd.State.Quiet.{is_quiet-plain}
use zerofs_csi_driver.Node.Attach.Plain.{IsPlainExec, formatted-Keeps}
use zerofs_csi_driver.Node.Publish.{node_publish_volume}
use zerofs_csi_driver.Node.Publish.Plain.{node_publish_volume-Keeps}

plain-uses_mutex : (c : Call) → is_plain c ≡ true → uses_mutex c ≡ false
plain-uses_mutex Call.lock h = absurd (cc)
plain-uses_mutex Call.unlock h = absurd (cc)
plain-uses_mutex _ h = refl

module _ {E : Env} where
  pub plain-Holds :
      (held : _) (c : Call) → is_plain c ≡ true → Keeps {E = E} (Holds held) (perform c)
  plain-Holds held c h = other-Holds held c (plain-uses_mutex c h)

  pub changes-Holds : (c : Call) → is_change c ≡ true → Keeps {E = E} (Holds false) (perform c)
  changes-Holds c h = other-Holds false c (change-uses_mutex c h)

  pub section-Holds :
      (A : Type 0) (m : Exec E A) → IsPlainExec m → Keeps (Holds false) (with_lock m)
  section-Holds A m k = with_lock-Holds m (k _ (plain-Holds true))

  format_blank-Holds :
      (lower_rune : ℕ → ℕ) (filesystem dev fs_type : Str)
      → Keeps {E = E} (Holds false) (format_blank lower_rune filesystem dev fs_type)
  unfolding format_blank
  format_blank-Holds lower_rune filesystem dev (c ∷ fs_type) = search keeps_rules
  format_blank-Holds lower_rune filesystem dev [] =
      let (program, args) = mkfs_command lower_rune filesystem dev in
      Keeps-bind _ _ (other-Holds false (Call.exec program args) refl)
        (λ o. formatted-Keeps (λ c h. plain-Holds false c (is_quiet-plain c h)) dev o.failed)

  format_if_blank-Holds :
      (lower_rune : ℕ → ℕ) (filesystem dev : Str)
      → Keeps {E = E} (Holds false) (format_if_blank lower_rune filesystem dev)
  unfolding format_if_blank
  format_if_blank-Holds lower_rune filesystem dev =
      search (keeps_rules, plain-Holds, format_blank-Holds)

-- If the mutex is free and was used well before a publish, so it is after it, whatever the calls
-- reply and on each error path: it is never locked while held, nor unlocked while free.
pub node_publish_volume-Holds :
    {E : Env} (ns : Service) (req : PublishRequest) (s : Sys E)
    → mutex s.log ≡ some false
    → mutex (node_publish_volume ns req s).1.log ≡ some false
node_publish_volume-Holds ns req s h =
    (node_publish_volume-Keeps (plain-Holds false) section-Holds format_if_blank-Holds ns req
        (own_of changes-Holds ns.namespace req.volume_id)
        (λ capacity e. other-Holds false (Call.exec (codes "truncate") _) refl)).holds
      s h

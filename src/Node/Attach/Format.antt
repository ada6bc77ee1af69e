-- ===== src/Node/Attach/Format.antt =====
-- Devices are formatted only when they are blank.
use zerofs_csi_driver.Base.{
  ℕ, ◌≡◌, refl, Bool, true, false, not, ◌&&◌, some, [], ◌∷◌, List, Str, codes, is_blank, get_last?,
}
use zerofs_csi_driver.Host.{Env, Sys, Exec, Call, Reply, Event, did, perform, with_lock, ◌>>=◌}
use zerofs_csi_driver.Host.Keeps.{Keeps, Keeps-with_lock}
use zerofs_csi_driver.Host.Calls.{is_mkfs, is_truncate, is_change, is_plain}
use zerofs_csi_driver.Node.Mkfs.{mkfs_command, get_last?-mkfs_command}
use zerofs_csi_driver.Node.Attach.{blkid_args, format_blank, format_if_blank}
use zerofs_csi_driver.Nbd.State.Quiet.{is_quiet-plain}
use zerofs_csi_driver.Node.Attach.Plain.{IsPlainExec, formatted-Keeps}

-- The call before is a `blkid` of the last argument, and it printed nothing but white space.
abbrev pub BlankSeen : List Str → List Event → Type 0
BlankSeen args (did (Call.exec program asked) o ∷ log) =
    (dev : Str) × (program ≡ codes "blkid")
    × (asked ≡ blkid_args dev)
    × (is_blank o.text ≡ true)
    × (get_last? args ≡ some dev)
BlankSeen args _ = ⊥

-- An event, after the calls of the log.
abbrev pub IsGuarded : Event → List Event → Type 0
IsGuarded (did (Call.exec program args) o) log = is_mkfs program ≡ true → BlankSeen args log
IsGuarded _ log = Unit

-- Every format in the log follows a `blkid` that found nothing on the same device.
abbrev pub FormatsOnlyBlank : List Event → Type 0
FormatsOnlyBlank [] = Unit
FormatsOnlyBlank (e ∷ log) = IsGuarded e log × FormatsOnlyBlank log

is_plain-not_mkfs : (b c : Bool) → (not b && not c) ≡ true → b ≡ true → ⊥
is_plain-not_mkfs true c h e = cc
is_plain-not_mkfs false c h e = cc

plain-IsGuarded :
    (c : Call) → is_plain c ≡ true → (r : Reply c) (log : List Event) → IsGuarded (did c r) log
plain-IsGuarded (Call.exec program args) h r log =
    λ m. absurd (is_plain-not_mkfs (is_mkfs program) (is_truncate program) h m)
plain-IsGuarded Call.lock h r log = tt
plain-IsGuarded _ h r log = tt

change-IsGuarded :
    (c : Call) → is_change c ≡ true → (r : Reply c) (log : List Event) → IsGuarded (did c r) log
change-IsGuarded (Call.exec program args) h r log = absurd (cc)
change-IsGuarded _ h r log = tt

truncate-not_mkfs : is_mkfs (codes "truncate") ≡ true → ⊥
truncate-not_mkfs h = absurd (cc (h))

module _ {E : Env} where
  abbrev pub IsSafe : Sys E → Type 0
  IsSafe s = FormatsOnlyBlank s.log

  perform-IsSafe :
      (c : Call)
      → ((r : Reply c) (log : List Event) → IsGuarded (did c r) log)
      → Keeps {E = E} IsSafe (perform c)
  unfolding perform
  perform-IsSafe c g = record { holds = λ s h. (g _ s.log, h) }

  pub plain-IsSafe : (c : Call) → is_plain c ≡ true → Keeps {E = E} IsSafe (perform c)
  plain-IsSafe c h = perform-IsSafe c (plain-IsGuarded c h)

  pub changes-IsSafe : (c : Call) → is_change c ≡ true → Keeps {E = E} IsSafe (perform c)
  changes-IsSafe c h = perform-IsSafe c (change-IsGuarded c h)

  pub truncate-IsSafe :
      (args : List Str) → Keeps {E = E} IsSafe (perform (Call.exec (codes "truncate") args))
  truncate-IsSafe args =
      perform-IsSafe (Call.exec (codes "truncate") args) (λ r log m. absurd (truncate-not_mkfs m))

  pub with_lock-IsSafe : (A : Type 0) (m : Exec E A) → IsPlainExec m → Keeps IsSafe (with_lock m)
  with_lock-IsSafe A m k =
      Keeps-with_lock m (perform-IsSafe Call.lock (λ r log. tt)).holds (k _ plain-IsSafe)
        (perform-IsSafe Call.unlock (λ r log. tt)).holds

  format_blank-IsSafe :
      (lower_rune : ℕ → ℕ) (filesystem dev fs_type : Str) (s : Sys E)
      → ((args : List Str) → fs_type ≡ [] → get_last? args ≡ some dev → BlankSeen args s.log)
      → IsSafe s
      → IsSafe (format_blank lower_rune filesystem dev fs_type s).1
  unfolding format_blank ◌>>=◌
  format_blank-IsSafe lower_rune filesystem dev (c ∷ fs_type) s seen h = h
  format_blank-IsSafe lower_rune filesystem dev [] s seen h =
      (formatted-Keeps (λ c h. plain-IsSafe c (is_quiet-plain c h)) dev _).holds _ (
        (λ _.
            seen (mkfs_command lower_rune filesystem dev).1 refl
              (get_last?-mkfs_command lower_rune filesystem dev)),
        h,
      )

  pub format_if_blank-IsSafe :
      (lower_rune : ℕ → ℕ) (filesystem dev : Str)
      → Keeps {E = E} IsSafe (format_if_blank lower_rune filesystem dev)
  unfolding format_if_blank ◌>>=◌
  format_if_blank-IsSafe lower_rune filesystem dev = record {
    holds = λ s h.
        format_blank-IsSafe lower_rune filesystem dev _ _
          (λ args e last. (dev, refl, refl, rw e refl, last)) ((λ m. absurd (cc)), h);
  }

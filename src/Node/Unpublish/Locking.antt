-- ===== src/Node/Unpublish/Locking.antt =====
-- pkg/csi/node.go: `NodeUnpublishVolume` changes the driver's files under the service's mutex.
use zerofs_csi_driver.Base.{◌≡◌, refl, Bool, true, false, some, List, [], ◌∷◌}
use zerofs_csi_driver.Host.{Env, Sys, Exec, Call, Event, did, perform, with_lock}
use zerofs_csi_driver.Host.Keeps.{Keeps, Keeps-with_lock}
use zerofs_csi_driver.Host.Calls.{is_change, is_plain, is_quiet}
use zerofs_csi_driver.Host.Locking.{mutex}
use zerofs_csi_driver.Mounter.Objects.{own_of}
use zerofs_csi_driver.Nbd.State.Quiet.{is_quiet-plain}
use zerofs_csi_driver.Node.Attach.Plain.{IsPlainExec}
use zerofs_csi_driver.Node.Request.{Service, UnpublishRequest}
use zerofs_csi_driver.Node.Publish.Locking.{plain-Holds, changes-Holds}
use zerofs_csi_driver.Node.Unpublish.{node_unpublish_volume}
use zerofs_csi_driver.Node.Unpublish.Plain.{node_unpublish_volume-Keeps}

-- The calls that write, create or remove a file.
abbrev pub is_file_change : Call → Bool
is_file_change (Call.write_file p x) = true
is_file_change (Call.create_excl p) = true
is_file_change (Call.write_string p x) = true
is_file_change (Call.remove p) = true
is_file_change _ = false

abbrev HeldIf : Bool → List Event → Type 0
HeldIf true log = mutex log ≡ some true
HeldIf false log = Unit

-- Each of them was made while the mutex was held.
abbrev pub ChangesHeld : List Event → Type 0
ChangesHeld [] = Unit
ChangesHeld (did c r ∷ log) = HeldIf (is_file_change c) log × ChangesHeld log

HeldIf-never : (b : Bool) (log : List Event) → b ≡ false → HeldIf b log
HeldIf-never true log h = absurd (cc)
HeldIf-never false log h = tt

HeldIf-held : (b : Bool) (log : List Event) → mutex log ≡ some true → HeldIf b log
HeldIf-held true log h = h
HeldIf-held false log h = tt

quiet-no_change : (c : Call) → is_quiet c ≡ true → is_file_change c ≡ false
quiet-no_change (Call.write_file p x) h = absurd (cc)
quiet-no_change (Call.create_excl p) h = absurd (cc)
quiet-no_change (Call.write_string p x) h = absurd (cc)
quiet-no_change (Call.remove p) h = absurd (cc)
quiet-no_change _ h = refl

object-no_change : (c : Call) → is_change c ≡ true → is_file_change c ≡ false
object-no_change (Call.write_file p x) h = absurd (cc)
object-no_change (Call.create_excl p) h = absurd (cc)
object-no_change (Call.write_string p x) h = absurd (cc)
object-no_change (Call.remove p) h = absurd (cc)
object-no_change _ h = refl

module _ {E : Env} where
  abbrev Guarded : Bool → Sys E → Type 0
  Guarded held s = (mutex s.log ≡ some held) × ChangesHeld s.log

  apart-Guarded :
      (c : Call)
      → is_file_change c ≡ false
      → Keeps {E = E} (λ s. mutex s.log ≡ some false) (perform c)
      → Keeps (Guarded false) (perform c)
  unfolding perform
  apart-Guarded c n k = record { holds = λ s (m, l). (k.holds s m, (HeldIf-never _ s.log n, l)) }

  quiet-Guarded : (c : Call) → is_quiet c ≡ true → Keeps (Guarded false) (perform c)
  quiet-Guarded c h =
      apart-Guarded c (quiet-no_change c h) (plain-Holds false c (is_quiet-plain c h))

  object-Guarded : (c : Call) → is_change c ≡ true → Keeps (Guarded false) (perform c)
  object-Guarded c h = apart-Guarded c (object-no_change c h) (changes-Holds c h)

  held-Guarded : (c : Call) → is_plain c ≡ true → Keeps (Guarded true) (perform c)
  unfolding perform
  held-Guarded c h = record {
    holds = λ s (m, l). ((plain-Holds true c h).holds s m, (HeldIf-held _ s.log m, l));
  }

  section-Guarded :
      (A : Type 0) (m : Exec E A) → IsPlainExec m → Keeps (Guarded false) (with_lock m)
  unfolding perform
  section-Guarded A m k =
      Keeps-with_lock m (λ s (h, l). (rw h refl, (tt, l))) (k (Guarded true) held-Guarded)
        (λ s (h, l). (rw h refl, (tt, l)))

-- If the mutex is free and was used well before an unpublish, and each file was written, created or
-- removed while it was held, then so it is behind the unpublish, whatever the calls reply: what
-- the unpublish changes of the files, it changes under the mutex, and it gives the mutex back.
pub node_unpublish_volume-Guarded :
    {E : Env} (ns : Service) (req : UnpublishRequest) (s : Sys E)
    → mutex s.log ≡ some false
    → ChangesHeld s.log
    → let t = (node_unpublish_volume ns req s).1 in (mutex t.log ≡ some false) × ChangesHeld t.log
node_unpublish_volume-Guarded ns req s h l =
    (node_unpublish_volume-Keeps quiet-Guarded section-Guarded ns req
        (own_of object-Guarded ns.namespace req.volume_id)).holds
      s (h, l)

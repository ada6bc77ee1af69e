-- ===== src/Host/Locking.antt =====
-- The discipline of the service's mutex, read off the log: whether it is held, or was taken twice or
-- given back while free.
use zerofs_csi_driver.Base.{◌≡◌, refl, Bool, true, false, Option, none, some, List, [], ◌∷◌}
use zerofs_csi_driver.Host.{Env, Sys, Exec, Call, Reply, Event, did, perform, with_lock}
use zerofs_csi_driver.Host.Calls.{is_change}
use zerofs_csi_driver.Host.Keeps.{Keeps, Keeps-with_lock}

-- `some held` behind calls that use the mutex well, `none` behind calls that do not: to lock it
-- while it is held blocks for ever, and to unlock it while it is free panics.
abbrev taken : Option Bool → Option Bool
taken (some false) = some true
taken _ = none

abbrev given_back : Option Bool → Option Bool
given_back (some true) = some false
given_back _ = none

abbrev pub mutex : List Event → Option Bool
mutex [] = some false
mutex (did Call.lock r ∷ log) = taken (mutex log)
mutex (did Call.unlock r ∷ log) = given_back (mutex log)
mutex (did _ r ∷ log) = mutex log

abbrev pub uses_mutex : Call → Bool
uses_mutex Call.lock = true
uses_mutex Call.unlock = true
uses_mutex _ = false

pub change-uses_mutex : (c : Call) → is_change c ≡ true → uses_mutex c ≡ false
change-uses_mutex Call.lock h = absurd (cc)
change-uses_mutex Call.unlock h = absurd (cc)
change-uses_mutex _ h = refl

mutex-other :
    (c : Call) (r : Reply c) (log : List Event)
    → uses_mutex c ≡ false
    → mutex (did c r ∷ log) ≡ mutex log
mutex-other Call.lock r log h = absurd (cc)
mutex-other Call.unlock r log h = absurd (cc)
mutex-other _ r log h = refl

module _ {E : Env} where
  abbrev pub Holds : Bool → Sys E → Type 0
  Holds held s = mutex s.log ≡ some held

  pub other-Holds :
      (held : Bool) (c : Call) → uses_mutex c ≡ false → Keeps {E = E} (Holds held) (perform c)
  unfolding perform
  other-Holds held c h = record { holds = λ s k. rw (mutex-other c _ s.log h) k }

  pub with_lock-Holds :
      {A : Type 0} (m : Exec E A) → Keeps (Holds true) m → Keeps (Holds false) (with_lock m)
  unfolding perform
  with_lock-Holds m k = Keeps-with_lock m (λ s h. rw h refl) k (λ s h. rw h refl)

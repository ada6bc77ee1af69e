-- ===== src/Host/Since.antt =====
-- The calls that an action adds to the log: each of them has a property.
use zerofs_csi_driver.Base.{List, ◌∷◌}
use zerofs_csi_driver.Host.{Env, Sys, Exec, Call, Reply, Event, did, perform, with_lock}
use zerofs_csi_driver.Host.Keeps.{Keeps, Keeps-with_lock}

-- The log grew from `base`, by events with `P`.
pub data Since (P : Event → Type 0) (base : List Event) : List Event → Type 0 where
  nothing_new : Since P base base
  one_new : (e : Event) (log : List Event) → P e → Since P base log → Since P base (e ∷ log)

module _ {E : Env} (P : Event → Type 0) (base : List Event) where
  abbrev pub Grown : Sys E → Type 0
  Grown s = Since P base s.log

  pub perform-Grown : (c : Call) → ((r : Reply c) → P (did c r)) → Keeps Grown (perform c)
  unfolding perform
  perform-Grown c h = record { holds = λ s k. Since.one_new _ _ (h _) k }

  pub with_lock-Grown :
      {A : Type 0} (m : Exec E A)
      → ((r : Reply Call.lock) → P (did Call.lock r))
      → ((r : Reply Call.unlock) → P (did Call.unlock r))
      → Keeps Grown m
      → Keeps Grown (with_lock m)
  with_lock-Grown m h k l =
      Keeps-with_lock m (perform-Grown Call.lock h).holds l (perform-Grown Call.unlock k).holds

pub Since-map :
    {P Q : Event → Type 0} {base log : List Event}
    → ((e : Event) → P e → Q e)
    → Since P base log
    → Since Q base log
Since-map f Since.nothing_new = Since.nothing_new
Since-map f (Since.one_new e log h r) = Since.one_new e log (f e h) (Since-map f r)

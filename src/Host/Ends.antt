-- ===== src/Host/Ends.antt =====
-- What holds of the calls made when an action returns without an error.
use zerofs_csi_driver.Base.{◌≡◌, refl, Bool, true, false, Str, List, if◌then◌else◌}
use zerofs_csi_driver.Host.{Env, Sys, Exec, Event, Code, Result, ok, err, fail, resume, ◌>>=◌, ◌>>◌}

pub record Ends {E : Env} {A : Type 0} (Q : List Event → Type 0) (m : Exec E A) : Type 0 where
  pub holds : (s : Sys E) (a : A) → (m s).0 ≡ ok a → Q (m s).1.log

module _ {E : Env} (Q R : List Event → Type 0) where
  Ends-resumed :
      {A B : Type 0} (r : Result A) (f : A → Exec E B) (s : Sys E) (b : B)
      → ((a : A) → r ≡ ok a → R s.log)
      → ((a : A) (t : Sys E) → R t.log → Q (f a t).1.log)
      → (resume r f s).0 ≡ ok b
      → Q (resume r f s).1.log
  Ends-resumed (ok a) f s b k l h = l a s (k a refl)
  Ends-resumed (err e) f s b k l h = absurd (cc)

module _ {E : Env} {Q : List Event → Type 0} where
  pub Ends-fail : {A : Type 0} (c : Code) (m : Str) → Ends {E = E} Q (fail {A = A} c m)
  unfolding fail
  Ends-fail c m = record { holds = λ s a h. absurd (cc) }

  Ends-resume :
      {A B : Type 0} (r : Result A) (f : A → Exec E B)
      → ((a : A) → Ends Q (f a))
      → Ends Q (resume r f)
  Ends-resume (ok a) f k = record { holds = (k a).holds }
  Ends-resume (err e) f k = record { holds = λ s b h. absurd (cc) }

  -- The last action decides.
  pub Ends-bind :
      {A B : Type 0} (m : Exec E A) (f : A → Exec E B) → ((a : A) → Ends Q (f a)) → Ends Q (m >>= f)
  unfolding ◌>>=◌
  Ends-bind m f k = record { holds = λ s b h. (Ends-resume (m s).0 f k).holds (m s).1 b h }

  -- What follows turns one condition into the other.
  pub Ends-then :
      {A B : Type 0} {R : List Event → Type 0} (m : Exec E A) (f : A → Exec E B)
      → Ends R m
      → ((a : A) (s : Sys E) → R s.log → Q (f a s).1.log)
      → Ends Q (m >>= f)
  unfolding ◌>>=◌
  Ends-then {R = R} m f k l = record {
    holds = λ s b h. Ends-resumed Q R (m s).0 f (m s).1 b (k.holds s) l h;
  }

  pub Ends-seq : {A B : Type 0} (m : Exec E A) (n : Exec E B) → Ends Q n → Ends Q (m >> n)
  Ends-seq m n k = Ends-bind m (λ _. n) (λ _. k)

  pub Ends-if :
      {A : Type 0} (b : Bool) (m n : Exec E A) → Ends Q m → Ends Q n → Ends Q (if b then m else n)
  Ends-if true m n k l = k
  Ends-if false m n k l = l

pub ruleset ends_rules = (Ends-fail, Ends-bind, Ends-seq, Ends-if)

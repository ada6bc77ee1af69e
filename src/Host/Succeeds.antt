-- ===== src/Host/Succeeds.antt =====
-- Actions that never return an error, and conditions that hold after an action from any state.
use zerofs_csi_driver.Base.{◌≡◌, refl, Bool, true, false, if◌then◌else◌}
use zerofs_csi_driver.Host.{
  Env, Sys, Exec, Call, Result, ok, err, perform, pure, attempt, resume, with_lock, ◌>>=◌, ◌>>◌,
}
use zerofs_csi_driver.Host.Keeps.{Keeps, Keeps-pure}

pub record Succeeds {E : Env} {A : Type 0} (m : Exec E A) : Type 0 where
  pub value : Sys E → A
  pub returns : (s : Sys E) → (m s).0 ≡ ok (value s)

pub record Post {E : Env} {A : Type 0} (P : Sys E → Type 0) (m : Exec E A) : Type 0 where
  pub holds : (s : Sys E) → P (m s).1

module _ {E : Env} where
  pub Succeeds-pure : {A : Type 0} (a : A) → Succeeds {E = E} (pure a)
  unfolding pure
  Succeeds-pure a = record { value = λ s. a; returns = λ s. refl }

  pub Succeeds-perform : (c : Call) → Succeeds {E = E} (perform c)
  unfolding perform
  Succeeds-perform c = record { value = λ s. (E.answer c s.world).0; returns = λ s. refl }

  pub Succeeds-attempt : {A : Type 0} (m : Exec E A) → Succeeds (attempt m)
  unfolding attempt
  Succeeds-attempt m = record { value = λ s. (m s).0; returns = λ s. refl }

  pub Succeeds-bind :
      {A B : Type 0} (m : Exec E A) (f : A → Exec E B)
      → Succeeds m
      → ((a : A) → Succeeds (f a))
      → Succeeds (m >>= f)
  unfolding ◌>>=◌
  Succeeds-bind m f k l = record {
    value = λ s. (l (k.value s)).value (m s).1;
    returns = λ s. rw k.returns ((l (k.value s)).returns (m s).1);
  }

  pub Succeeds-seq :
      {A B : Type 0} (m : Exec E A) (n : Exec E B) → Succeeds m → Succeeds n → Succeeds (m >> n)
  Succeeds-seq m n k l = Succeeds-bind m (λ _. n) k (λ _. l)

  pub Succeeds-with_lock : {A : Type 0} (m : Exec E A) → Succeeds m → Succeeds (with_lock m)
  unfolding with_lock ◌>>=◌
  Succeeds-with_lock m k = record {
    value = λ s. k.value (perform Call.lock s).1;
    returns = λ s. rw k.returns refl;
  }

  pub Succeeds-if :
      {A : Type 0} (b : Bool) (m n : Exec E A)
      → Succeeds m
      → Succeeds n
      → Succeeds (if b then m else n)
  Succeeds-if true m n k l = k
  Succeeds-if false m n k l = l

  module _ {P : Sys E → Type 0} where
    -- The condition comes from the second action.
    pub Post-bind :
        {A B : Type 0} (m : Exec E A) (f : A → Exec E B)
        → Succeeds m
        → ((a : A) → Post P (f a))
        → Post P (m >>= f)
    unfolding ◌>>=◌
    Post-bind m f k l = record { holds = λ s. rw k.returns ((l (k.value s)).holds (m s).1) }

    Keeps-resume :
        {A B : Type 0} (r : Result A) (f : A → Exec E B) (s : Sys E)
        → ((a : A) → Keeps P (f a))
        → P s
        → P (resume r f s).1
    Keeps-resume (ok a) f s k h = (k a).holds s h
    Keeps-resume (err e) f s k h = h

    -- The condition comes from the first action, and the second one keeps it.
    pub Post-keep :
        {A B : Type 0} (m : Exec E A) (f : A → Exec E B)
        → Post P m
        → ((a : A) → Keeps P (f a))
        → Post P (m >>= f)
    unfolding ◌>>=◌
    Post-keep m f k l = record { holds = λ s. Keeps-resume (m s).0 f (m s).1 l (k.holds s) }

    pub Post-with_lock :
        {A : Type 0} (m : Exec E A)
        → Post P m
        → Keeps P (perform Call.unlock)
        → Post P (with_lock m)
    unfolding with_lock ◌>>=◌
    Post-with_lock m k l = record {
      holds = λ s.
          Keeps-resume (m (perform Call.lock s).1).0 pure _ (λ a. Keeps-pure a)
            (l.holds _ (k.holds (perform Call.lock s).1));
    }

pub ruleset succeeds_rules = (
  Succeeds-pure, Succeeds-perform, Succeeds-attempt, Succeeds-bind, Succeeds-seq, Succeeds-if,
  Succeeds-with_lock,
)

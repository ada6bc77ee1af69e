-- ===== src/Host/Keeps.antt =====
-- Invariants of the calls and of the world: `Keeps P m` says that `m` carries `P` over, whether it
-- returns or fails. One rule for each way to build an action.
use zerofs_csi_driver.Base.{◌≡◌, refl, Bool, true, false, Str, ℕ, Option, none, some, if◌then◌else◌}
use zerofs_csi_driver.Host.{
  Env, Sys, Exec, Code, Result, ok, err, pure, fail, attempt, resume, ◌>>=◌, ◌>>◌, Answer, perform,
  with_lock, Call, got, refused, Stat, found, not_exist, stat_error, on_option, on_answer, on_stat,
}

pub record Keeps {E : Env} {A : Type 0} (P : Sys E → Type 0) (m : Exec E A) : Type 0 where
  pub holds : (s : Sys E) → P s → P (m s).1

module _ {E : Env} {P : Sys E → Type 0} where
  pub Keeps-pure : {A : Type 0} (a : A) → Keeps P (pure a)
  unfolding pure
  Keeps-pure a = record { holds = λ s h. h }

  pub Keeps-fail : {A : Type 0} (c : Code) (m : Str) → Keeps P (fail {A = A} c m)
  unfolding fail
  Keeps-fail c m = record { holds = λ s h. h }

  pub Keeps-attempt : {A : Type 0} (m : Exec E A) → Keeps P m → Keeps P (attempt m)
  unfolding attempt
  Keeps-attempt m k = record { holds = λ s h. k.holds s h }

  Keeps-resume :
      {A B : Type 0} (r : Result A) (f : A → Exec E B)
      → ((a : A) → Keeps P (f a))
      → Keeps P (resume r f)
  Keeps-resume (ok a) f k = record { holds = (k a).holds }
  Keeps-resume (err e) f k = record { holds = λ s h. h }

  pub Keeps-bind :
      {A B : Type 0} (m : Exec E A) (f : A → Exec E B)
      → Keeps P m
      → ((a : A) → Keeps P (f a))
      → Keeps P (m >>= f)
  unfolding ◌>>=◌
  Keeps-bind m f k l = record {
    holds = λ s h. let (r, t) = m s in (Keeps-resume r f l).holds t (k.holds s h);
  }

  pub Keeps-seq :
      {A B : Type 0} (m : Exec E A) (n : Exec E B) → Keeps P m → Keeps P n → Keeps P (m >> n)
  Keeps-seq m n k l = Keeps-bind m (λ _. n) k (λ _. l)

  pub Keeps-if :
      {A : Type 0} (b : Bool) (m n : Exec E A)
      → (b ≡ true → Keeps P m)
      → (b ≡ false → Keeps P n)
      → Keeps P (if b then m else n)
  Keeps-if true m n k l = k refl
  Keeps-if false m n k l = l refl

  pub Keeps-on_option :
      {A B : Type 0} (o : Option A) (f : A → Exec E B) (n : Exec E B)
      → ((a : A) → o ≡ some a → Keeps P (f a))
      → (o ≡ none → Keeps P n)
      → Keeps P (on_option o f n)
  unfolding on_option
  Keeps-on_option (some a) f n k l = k a refl
  Keeps-on_option none f n k l = l refl

  pub Keeps-on_answer :
      {A B : Type 0} (o : Answer A) (f : A → Exec E B) (g : Str → Exec E B)
      → ((a : A) → o ≡ got a → Keeps P (f a))
      → ((text : Str) → o ≡ refused text → Keeps P (g text))
      → Keeps P (on_answer o f g)
  unfolding on_answer
  Keeps-on_answer (got a) f g k l = k a refl
  Keeps-on_answer (refused text) f g k l = l text refl

  pub Keeps-on_stat :
      {B : Type 0} (o : Stat) (f : ℕ → Exec E B) (m n : Exec E B)
      → ((age : ℕ) → Keeps P (f age))
      → Keeps P m
      → Keeps P n
      → Keeps P (on_stat o f m n)
  unfolding on_stat
  Keeps-on_stat (found age) f m n k l h = k age
  Keeps-on_stat not_exist f m n k l h = l
  Keeps-on_stat stat_error f m n k l h = h

module _ {E : Env} where
  resume-pure : {A : Type 0} (r : Result A) (s : Sys E) → (resume r pure s).1 ≡ s
  unfolding pure
  resume-pure (ok a) s = refl
  resume-pure (err e) s = refl

module _ {E : Env} {P Q : Sys E → Type 0} where
  -- The condition `Q` holds under the lock, `P` outside.
  pub Keeps-with_lock :
      {A : Type 0} (m : Exec E A)
      → ((s : Sys E) → P s → Q (perform Call.lock s).1)
      → Keeps Q m
      → ((s : Sys E) → Q s → P (perform Call.unlock s).1)
      → Keeps P (with_lock m)
  unfolding with_lock ◌>>=◌
  Keeps-with_lock m enter k leave = record {
    holds = λ s h. rw resume-pure (leave _ (k.holds _ (enter s h)));
  }

pub ruleset keeps_rules = (
  Keeps-pure, Keeps-fail, Keeps-attempt, Keeps-bind, Keeps-seq, Keeps-if, Keeps-on_option,
  Keeps-on_answer, Keeps-on_stat,
)

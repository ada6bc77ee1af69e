-- ===== src/Host/Costs.antt =====
-- How many calls an action makes at most.
use zerofs_csi_driver.Base.{ℕ, ◌+◌, ◌≤◌, Bool, true, false, Str, length, arith, if◌then◌else◌}
use zerofs_csi_driver.Host.{
  Env, Sys, Exec, Call, Code, Result, ok, err, Answer, got, refused, perform, pure, fail, attempt,
  resume, on_answer, ◌>>=◌,
}

pub record Costs {E : Env} {A : Type 0} (n : ℕ) (m : Exec E A) : Type 0 where
  pub holds : (s : Sys E) → length (m s).1.log ≤ n + length s.log

module _ {E : Env} where
  pub Costs-weaken : {A : Type 0} {a b : ℕ} (m : Exec E A) → a ≤ b → Costs a m → Costs b m
  Costs-weaken m h k = record { holds = λ s. omega (arith, h, k.holds s) }

  pub Costs-pure : {A : Type 0} (n : ℕ) (a : A) → Costs {E = E} n (pure a)
  unfolding pure
  Costs-pure n a = record { holds = λ s. omega arith }

  pub Costs-fail : {A : Type 0} (n : ℕ) (c : Code) (x : Str) → Costs {E = E} n (fail {A = A} c x)
  unfolding fail
  Costs-fail n c x = record { holds = λ s. omega arith }

  pub Costs-perform : (c : Call) → Costs {E = E} 1 (perform c)
  unfolding perform
  Costs-perform c = record { holds = λ s. omega arith }

  pub Costs-attempt : {A : Type 0} {n : ℕ} (m : Exec E A) → Costs n m → Costs n (attempt m)
  unfolding attempt
  Costs-attempt m k = record { holds = k.holds }

  Costs-resume :
      {A B : Type 0} {n : ℕ} (r : Result A) (f : A → Exec E B)
      → ((a : A) → Costs n (f a))
      → Costs n (resume r f)
  Costs-resume (ok a) f k = record { holds = (k a).holds }
  Costs-resume (err e) f k = record { holds = λ s. omega arith }

  pub Costs-bind :
      {A B : Type 0} (a b : ℕ) (m : Exec E A) (f : A → Exec E B)
      → Costs a m
      → ((x : A) → Costs b (f x))
      → Costs (a + b) (m >>= f)
  unfolding ◌>>=◌
  Costs-bind a b m f k l = record {
    holds = λ s. omega (arith, k.holds s, (Costs-resume (m s).0 f l).holds (m s).1);
  }

  pub Costs-on_answer :
      {A B : Type 0} {n : ℕ} (o : Answer A) (f : A → Exec E B) (g : Str → Exec E B)
      → ((a : A) → Costs n (f a))
      → ((text : Str) → Costs n (g text))
      → Costs n (on_answer o f g)
  unfolding on_answer
  Costs-on_answer (got a) f g k l = k a
  Costs-on_answer (refused text) f g k l = l text

  pub Costs-if :
      {A : Type 0} {n : ℕ} (b : Bool) (m p : Exec E A)
      → Costs n m
      → Costs n p
      → Costs n (if b then m else p)
  Costs-if true m p k l = k
  Costs-if false m p k l = l

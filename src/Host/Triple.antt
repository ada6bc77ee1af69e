-- ===== src/Host/Triple.antt =====
-- Triples: from a state with `P`, an action returns a value with `Q`, or fails in a state with `R`.
pub mod Known
use zerofs_csi_driver.Base.{◌≡◌, refl, subst, Option, none, some}
use zerofs_csi_driver.Host.{
  Env, Sys, Exec, Code, Result, ok, err, Call, Reply, perform, pure, fail, attempt, resume,
  with_lock, on_option, ◌>>=◌, ◌>>◌,
}
use zerofs_csi_driver.Host.Keeps.{Keeps}
use zerofs_csi_driver.Base.{Str}

ok-same : {A : Type 0} (a b : A) → ok a ≡ ok b → a ≡ b
ok-same a b e = cc

module _ {E : Env} where
  abbrev pub Outcome :
      {A : Type 0} → (A → Sys E → Type 0) → (Sys E → Type 0) → Result A → Sys E → Type 0
  Outcome Q R (ok a) t = Q a t
  Outcome Q R (err e) t = R t

  pub record Triple {A : Type 0} (P : Sys E → Type 0) (m : Exec E A) (Q : A → Sys E → Type 0)
      (R : Sys E → Type 0) : Type 0 where
    pub holds : (s : Sys E) → P s → Outcome Q R (m s).0 (m s).1

  Outcome-resume :
      {A B : Type 0} {S : B → Sys E → Type 0} {R : Sys E → Type 0} (Q : A → Sys E → Type 0)
      (r : Result A) (f : A → Exec E B) (t : Sys E)
      → Outcome Q R r t
      → ((a : A) → Triple (Q a) (f a) S R)
      → Outcome S R (resume r f t).0 (resume r f t).1
  Outcome-resume Q (ok a) f t h k = (k a).holds t h
  Outcome-resume Q (err e) f t h k = h

  module _ {P R : Sys E → Type 0} where
    pub Triple-pure :
        {A : Type 0} {Q : A → Sys E → Type 0} (a : A)
        → ((s : Sys E) → P s → Q a s)
        → Triple P (pure a) Q R
    unfolding pure
    Triple-pure a h = record { holds = h }

    pub Triple-fail :
        {A : Type 0} {Q : A → Sys E → Type 0} (c : Code) (m : Str)
        → ((s : Sys E) → P s → R s)
        → Triple P (fail c m) Q R
    unfolding fail
    Triple-fail c m h = record { holds = h }

    pub Triple-perform :
        (c : Call) (Q : Reply c → Sys E → Type 0)
        → ((s : Sys E) → P s → Q (E.answer c s.world).0 (perform c s).1)
        → Triple P (perform c) Q R
    unfolding perform
    Triple-perform c Q h = record { holds = h }

    pub Triple-bind :
        {A B : Type 0} {Q : A → Sys E → Type 0} {S : B → Sys E → Type 0} (m : Exec E A)
        (f : A → Exec E B)
        → Triple P m Q R
        → ((a : A) → Triple (Q a) (f a) S R)
        → Triple P (m >>= f) S R
    unfolding ◌>>=◌
    Triple-bind m f k l = record {
      holds = λ s h. Outcome-resume _ (m s).0 f (m s).1 (k.holds s h) l;
    }

    pub Triple-seq :
        {A B : Type 0} {Q : A → Sys E → Type 0} {S : B → Sys E → Type 0} (m : Exec E A)
        (n : Exec E B)
        → Triple P m Q R
        → ((a : A) → Triple (Q a) n S R)
        → Triple P (m >> n) S R
    Triple-seq m n k l = Triple-bind m (λ _. n) k l

    pub Triple-attempt :
        {A : Type 0} {Q : A → Sys E → Type 0} {F : Sys E → Type 0} (m : Exec E A)
        → Triple P m Q R
        → Triple P (attempt m) (Outcome Q R) F
    unfolding attempt
    Triple-attempt m k = record { holds = k.holds }

    pub Triple-on_option :
        {A B : Type 0} {Q : B → Sys E → Type 0} (o : Option A) (f : A → Exec E B) (n : Exec E B)
        → ((a : A) → o ≡ some a → Triple P (f a) Q R)
        → (o ≡ none → Triple P n Q R)
        → Triple P (on_option o f n) Q R
    unfolding on_option
    Triple-on_option (some a) f n k l = k a refl
    Triple-on_option none f n k l = l refl

  Outcome-weaken :
      {A : Type 0} (Q S : A → Sys E → Type 0) (R F : Sys E → Type 0) (r : Result A) (t : Sys E)
      → ((a : A) → Q a t → S a t)
      → (R t → F t)
      → Outcome Q R r t
      → Outcome S F r t
  Outcome-weaken Q S R F (ok a) t f g h = f a h
  Outcome-weaken Q S R F (err e) t f g h = g h

  pub Triple-weaken :
      {A : Type 0} {P O : Sys E → Type 0} {Q S : A → Sys E → Type 0} {R F : Sys E → Type 0}
      (m : Exec E A)
      → ((s : Sys E) → O s → P s)
      → ((a : A) (s : Sys E) → Q a s → S a s)
      → ((s : Sys E) → R s → F s)
      → Triple P m Q R
      → Triple O m S F
  Triple-weaken {Q} {S} {R} {F} m f g h k = record {
    holds = λ s p.
        Outcome-weaken Q S R F (m s).0 (m s).1 (λ a. g a (m s).1) (h (m s).1) (k.holds s (f s p));
  }

  Outcome-kept :
      {A : Type 0} (P : Sys E → Type 0) (r : Result A) (t : Sys E)
      → P t
      → Outcome {A = A} (λ _. P) P r t
  Outcome-kept P (ok a) t h = h
  Outcome-kept P (err e) t h = h

  pub Triple-state :
      {A : Type 0} {P Q : Sys E → Type 0} (m : Exec E A)
      → ((s : Sys E) → P s → Q (m s).1)
      → Triple P m (λ _. Q) Q
  Triple-state {Q = Q} m k = record { holds = λ s h. Outcome-kept Q (m s).0 (m s).1 (k s h) }

  pub Keeps-Triple :
      {A : Type 0} {P : Sys E → Type 0} (m : Exec E A) → Keeps P m → Triple P m (λ _. P) P
  Keeps-Triple {P} m k = record { holds = λ s h. Outcome-kept P (m s).0 (m s).1 (k.holds s h) }

  Outcome-forget :
      {A : Type 0} {P : Sys E → Type 0} (Q : A → Sys E → Type 0) (r : Result A) (t : Sys E)
      → ((a : A) (s : Sys E) → Q a s → P s)
      → Outcome Q P r t
      → P t
  Outcome-forget Q (ok a) t f h = f a t h
  Outcome-forget Q (err e) t f h = h

  -- An invariant, with more known where the action returns.
  pub Triple-end :
      {A : Type 0} {P : Sys E → Type 0} {Q : A → Sys E → Type 0} (m : Exec E A)
      → ((a : A) (s : Sys E) → Q a s → P s)
      → Triple P m Q P
      → Keeps P m
  Triple-end m f k = record { holds = λ s h. Outcome-forget _ (m s).0 (m s).1 f (k.holds s h) }

  unlocked :
      {A : Type 0} {R : Sys E → Type 0} {Q : A → Sys E → Type 0} (r : Result A)
      → ((a : A) → Keeps (Q a) (perform Call.unlock))
      → Keeps R (perform Call.unlock)
      → Triple (Outcome Q R r) (perform Call.unlock) (λ _. Outcome Q R r) R
  unfolding perform
  unlocked (ok a) leave end = record { holds = λ s h. (leave a).holds s h }
  unlocked (err e) leave end = record { holds = λ s h. end.holds s h }

  given :
      {A : Type 0} {R : Sys E → Type 0} {Q : A → Sys E → Type 0} (r : Result A)
      → Triple (Outcome Q R r) (resume r pure) Q R
  unfolding pure
  given (ok a) = record { holds = λ s h. h }
  given (err e) = record { holds = λ s h. h }

  -- The lock is taken in states with `P`, and its release keeps what the section ends with.
  pub Triple-with_lock :
      {A : Type 0} {P R : Sys E → Type 0} {Q : A → Sys E → Type 0} (m : Exec E A)
      → Keeps P (perform Call.lock)
      → Triple P m Q R
      → ((a : A) → Keeps (Q a) (perform Call.unlock))
      → Keeps R (perform Call.unlock)
      → Triple P (with_lock m) Q R
  unfolding with_lock
  Triple-with_lock {P = P} m enter k leave end =
      Triple-seq _ _ (Triple-perform Call.lock (λ _. P) (λ s h. enter.holds s h)) (λ _.
        Triple-bind _ _ (Triple-attempt m k)
          (λ r. Triple-seq _ _ (unlocked r leave end) (λ _. given r)))

  Outcome-ok :
      {A : Type 0} (Q : A → Sys E → Type 0) (R : Sys E → Type 0) (r : Result A) (t : Sys E) (a : A)
      → r ≡ ok a
      → Outcome Q R r t
      → Q a t
  Outcome-ok Q R (ok b) t a e h = subst (λ x. Q x t) (ok-same b a e) h
  Outcome-ok Q R (err b) t a e h = absurd (cc)

  -- What holds where the action returns.
  pub Triple-ok :
      {A : Type 0} {P R : Sys E → Type 0} {Q : A → Sys E → Type 0} (m : Exec E A) (s : Sys E)
      (a : A)
      → Triple P m Q R
      → P s
      → (m s).0 ≡ ok a
      → Q a (m s).1
  Triple-ok m s a k h e = Outcome-ok _ _ (m s).0 (m s).1 a e (k.holds s h)

  -- What holds behind an action, whether it returns or fails.
  pub Triple-after :
      {A : Type 0} {P F : Sys E → Type 0} (m : Exec E A) (s : Sys E)
      → Triple P m (λ _. F) F
      → P s
      → F (m s).1
  Triple-after m s k h = Outcome-forget _ (m s).0 (m s).1 (λ a t x. x) (k.holds s h)

  Outcome-both :
      {A : Type 0} (Q : A → Sys E → Type 0) (R K : Sys E → Type 0) (r : Result A) (t : Sys E)
      → Outcome Q R r t
      → K t
      → Outcome (λ a x. Q a x × K x) (λ x. R x × K x) r t
  Outcome-both Q R K (ok a) t h k = (h, k)
  Outcome-both Q R K (err e) t h k = (h, k)

  -- With an invariant besides.
  pub Triple-both :
      {A : Type 0} {P R K : Sys E → Type 0} {Q : A → Sys E → Type 0} (m : Exec E A)
      → Triple P m Q R
      → Keeps K m
      → Triple (λ s. P s × K s) m (λ a s. Q a s × K s) (λ s. R s × K s)
  Triple-both m h k = record {
    holds = λ s (p, q). Outcome-both _ _ _ (m s).0 (m s).1 (h.holds s p) (k.holds s q);
  }

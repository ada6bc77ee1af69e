-- ===== src/Host/Triple/Known.antt =====
-- Triples with what is known beforehand: of the result, or of the world at the start.
use zerofs_csi_driver.Base.{◌≡◌, refl}
use zerofs_csi_driver.Host.{Env, Sys, Exec, Result, ok, err}
use zerofs_csi_driver.Host.Keeps.{Keeps}
use zerofs_csi_driver.Host.Triple.{Triple, Outcome}

module _ {E : Env} where
  Outcome-known :
      {A : Type 0} (K : Sys E → Type 0) (Q : A → Type 0) (R : Sys E → Type 0) (r : Result A)
      (t : Sys E)
      → ((a : A) → r ≡ ok a → Q a)
      → K t
      → (K t → R t)
      → Outcome (λ a x. K x × Q a) R r t
  Outcome-known K Q R (ok a) t h k f = (k, h a refl)
  Outcome-known K Q R (err e) t h k f = f k

  -- An invariant, and what is known of the value that the action would return.
  pub Triple-known :
      {A : Type 0} {K R : Sys E → Type 0} (Q : A → Type 0) (m : Exec E A)
      → Keeps K m
      → ((s : Sys E) → K s → R s)
      → Triple (λ s. K s × ((a : A) → (m s).0 ≡ ok a → Q a)) m (λ a s. K s × Q a) R
  Triple-known {K} {R} Q m k f = record {
    holds = λ s (x, h). Outcome-known K Q R (m s).0 (m s).1 h (k.holds s x) (f (m s).1);
  }

  -- What does not depend on the state may be taken out of the condition.
  pub Triple-given :
      {A K : Type 0} {P R : Sys E → Type 0} {Q : A → Sys E → Type 0} (m : Exec E A)
      → (K → Triple P m Q R)
      → Triple (λ s. P s × K) m Q R
  Triple-given m f = record { holds = λ s (x, k). (f k).holds s x }

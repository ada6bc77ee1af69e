-- ===== src/Nbd/Exclusive/Unfailing.antt =====
-- pkg/csi/nbd.go: the steps of `reserveNBDDevice` that do not fail where the driver's files can be written.
use zerofs_csi_driver.Base.{◌≡◌, refl, Bool, true, false, Option, none, some, Str}
use zerofs_csi_driver.Host.{Env, Sys, Call, Stat, Result, ok, err}
use zerofs_csi_driver.Host.Triple.{
  Triple, Outcome, Triple-pure, Triple-perform, Triple-bind, Triple-seq, Triple-weaken,
  Triple-attempt,
}
use zerofs_csi_driver.Host.Files.{is_own}
use zerofs_csi_driver.Nbd.State.{
  volume_nbd_state_path, device_reservation_path, check, ensure_run_dirs, write_volume_nbd_state,
}
use zerofs_csi_driver.Nbd.State.Paths.{IsVolume, state_path-own}
use zerofs_csi_driver.Nbd.Reserve.{
  finish_reservation, claim, take_free, collect_reservation, try_device,
}
use zerofs_csi_driver.Nbd.Reserve.Collect.{collect_reservation-Succeeds}

-- Directories can be made, state files written, and a file that is not there created.
pub record IsWritable (E : Env) (view : E.World → Str → Option Str) : Type 0 where
  pub made : (w : E.World) (p : Str) → (E.answer (Call.mkdir_all p) w).0 ≡ true
  pub written :
      (w : E.World) (p x : Str) → is_own p ≡ true → (E.answer (Call.write_file p x) w).0 ≡ true
  pub creates :
      (w : E.World) (p : Str)
      → is_own p ≡ true
      → view w p ≡ none
      → (E.answer (Call.create_excl p) w).0 ≡ true

module _ {E : Env} where
  -- It does not fail.
  abbrev pub Fails : Sys E → Type 0
  Fails s = ⊥

  abbrev pub Always : {A : Type 0} → A → Sys E → Type 0
  Always a s = Unit

  abbrev pub Any : Sys E → Type 0
  Any s = Unit

  pub returned : (r : Result Str) (t : Sys E) → Outcome Always Fails r t → (c : Str) × (r ≡ ok c)
  returned (ok c) t k = (c, refl)
  returned (err e) t k = absurd k

  abbrev pub IsTrue : Bool → Sys E → Type 0
  IsTrue b s = b ≡ true

  abbrev pub IsSome : Option Str → Sys E → Type 0
  IsSome none s = ⊥
  IsSome (some d) s = Unit

module _ {E : Env} (view : E.World → Str → Option Str) (wr : IsWritable E view) (v : Str)
    (h : IsVolume v) where
  checked : (b : Bool) (m : Str) → Triple (IsTrue b) (check {E = E} b m) (λ _. Any) Fails
  unfolding check
  checked true m = Triple-pure tt (λ s k. tt)
  checked false m = record { holds = λ s k. absurd (cc (k)) }

  pub ensure_run_dirs-Always : Triple {E = E} Any ensure_run_dirs (λ _. Any) Fails
  unfolding ensure_run_dirs
  ensure_run_dirs-Always =
      Triple-bind _ _ (Triple-perform (Call.mkdir_all _) IsTrue (λ s k. wr.made s.world _)) (λ a.
        Triple-seq _ _ (checked a _) (λ _.
          Triple-bind _ _ (Triple-perform (Call.mkdir_all _) IsTrue (λ s k. wr.made s.world _))
            (λ b. checked b _)))

  write_volume_nbd_state-Always :
      (d : Str) → Triple {E = E} Any (write_volume_nbd_state v d) (λ _. Any) Fails
  unfolding write_volume_nbd_state
  write_volume_nbd_state-Always d = Triple-seq _ _ ensure_run_dirs-Always (λ _.
      Triple-bind _ _
        (Triple-perform (Call.write_file (volume_nbd_state_path v) _) IsTrue
          (λ s k. wr.written s.world _ _ (state_path-own v h)))
        (λ b. checked b _))

  finish_reservation-Always :
      (p d : Str) (r : Result Unit)
      → Triple {E = E} (Outcome (λ _. Any) Fails r) (finish_reservation p d r) IsSome Fails
  unfolding finish_reservation
  finish_reservation-Always p d (ok _) = Triple-pure (some d) (λ s k. tt)
  finish_reservation-Always p d (err e) = record { holds = λ s k. absurd k }

  pub claim-Always : (d : Str) → Triple {E = E} Any (claim v d true) IsSome Fails
  unfolding claim
  claim-Always d = Triple-seq _ _ (Triple-perform (Call.write_string _ _) Always (λ s k. tt)) (λ _.
      Triple-bind _ _ (Triple-attempt _ (write_volume_nbd_state-Always d))
        (finish_reservation-Always _ d))

  claim-Ends : (d : Str) (created : Bool) → Triple {E = E} Any (claim v d created) Always Fails
  unfolding claim
  claim-Ends d false = Triple-pure none (λ s k. tt)
  claim-Ends d true = Triple-weaken _ (λ s k. k) (λ a s k. tt) (λ s k. k) (claim-Always d)

  collect_reservation-Always :
      (p : Str) (there : Stat) → Triple {E = E} Any (collect_reservation p there) Always Fails
  collect_reservation-Always p there = record {
    holds = λ s k. rw ((collect_reservation-Succeeds p there).returns s) tt;
  }

  take_free-Always : (d : Str) → Triple {E = E} Any (take_free v d) Always Fails
  unfolding take_free
  take_free-Always d =
      Triple-bind _ _ (Triple-perform (Call.stat (device_reservation_path d)) Always (λ s k. tt))
        (λ there. Triple-seq _ _ (collect_reservation-Always _ there) (λ _.
          Triple-bind _ _
            (Triple-perform (Call.create_excl (device_reservation_path d)) Always (λ s k. tt))
            (claim-Ends d)))

  pub try_device-Always :
      (d : Str) (r : Result Bool) → Triple {E = E} Any (try_device v d r) Always Fails
  unfolding try_device
  try_device-Always d (ok false) = take_free-Always d
  try_device-Always d (ok true) = Triple-pure none (λ s k. tt)
  try_device-Always d (err e) = Triple-pure none (λ s k. tt)

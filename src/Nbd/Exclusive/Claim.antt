-- ===== src/Nbd/Exclusive/Claim.antt =====
-- pkg/csi/nbd.go: a device is claimed in exclusion of the other volumes.
use zerofs_csi_driver.Base.{
  ◌≡◌, refl, sym, ap, subst, ◌∙◌, ◌≢◌, ◌⊎◌, inl, inr, Bool, true, false, Option, none, some, [],
  ◌∷◌, Str, trim_space, codes,
}
use zerofs_csi_driver.Base.Text.Trim.{trim_space-none}
use zerofs_csi_driver.Host.{Env, Sys, Call, Result, ok, err, unknown, perform, ◌>>=◌}
use zerofs_csi_driver.Host.Keeps.{Keeps}
use zerofs_csi_driver.Host.Triple.{
  Triple, Outcome, Triple-pure, Triple-fail, Triple-perform, Triple-bind, Triple-seq,
  Triple-attempt, Triple-weaken, Keeps-Triple,
}
use zerofs_csi_driver.Host.Calls.{is_quiet}
use zerofs_csi_driver.Host.Files.{IsReliable, read_of}
use zerofs_csi_driver.Nbd.Devices.Names.{IsDevice, IsDevice-trim, numbered}
use zerofs_csi_driver.Nbd.State.{
  volume_nbd_state_path, device_reservation_path, device_in, check, ensure_run_dirs,
  write_volume_nbd_state,
}
use zerofs_csi_driver.Nbd.State.Quiet.{ensure_run_dirs-Keeps}
use zerofs_csi_driver.Nbd.State.Paths.{IsVolume, state_path-own, reservation_path-own}
use zerofs_csi_driver.Nbd.Reserve.{remove_file, finish_reservation, claim}
use zerofs_csi_driver.Nbd.Exclusive.{
  recorded, IsExclusive, IsFree, IsSame-call, Differs-call, IsExclusive-same, IsFree-same,
  IsExclusive-reservation, IsFree-reservation, IsExclusive-state, IsFree-state,
}
use zerofs_csi_driver.Nbd.Exclusive.Collect.{Safe, quiet-touches, remove_file-Safe}

module _ (E : Env) (view : E.World → Str → Option Str) where
  -- The state file of the volume names the device.
  abbrev pub HasDevice : Str → Option Str → Sys E → Type 0
  HasDevice v none s = Unit
  HasDevice v (some d) s = recorded view s.world v ≡ some d

  -- The agreement, and the outcome of a search for a device.
  abbrev pub Found : Str → Option Str → Sys E → Type 0
  Found v o s = IsExclusive view s.world × HasDevice v o s

  abbrev pub Unclaimed : Str → Sys E → Type 0
  Unclaimed d s = IsExclusive view s.world × IsFree view s.world d

  -- The reservation of the device has a text.
  abbrev pub Noted : Str → Str → Sys E → Type 0
  Noted d x s = Unclaimed d s × (view s.world (device_reservation_path d) ≡ some x)

  -- What a write of the state file leaves.
  abbrev Written : Str → Str → Bool → Sys E → Type 0
  Written v d true s = Found v (some d) s
  Written v d false s = Unclaimed d s

device_in-device :
    (d : Str) → IsDevice d → trim_space d ≡ d → device_in (read_of (some (trim_space d))) ≡ some d
device_in-device [] h e = let (n, k) = numbered [] h in absurd (cc (k.path))
device_in-device (c ∷ d) h e = rw (e, e) refl

device_in-blank : device_in (read_of (some [])) ≡ none
device_in-blank = rw (trim_space-none [] tt) refl

device_in-empty : (d : Str) → device_in (read_of (some [])) ≢ some d
device_in-empty d e = absurd (cc (e, device_in-blank))

some-injective : (d e : Str) → some d ≡ some e → d ≡ e
some-injective d e k = cc

module _ {E : Env} (view : E.World → Str → Option Str) (rel : IsReliable E view) (v d : Str)
    (h : IsVolume v) (dev : IsDevice d) where
  abbrev res : Str
  res = device_reservation_path d

  note-Noted :
      Triple
        (Noted E view d [])
        (perform (Call.write_string res v))
        (λ _. Noted E view d v)
        (Unclaimed E view d)
  unfolding perform
  note-Noted = record {
    holds = λ s (u, text).
        let change =
          Differs-call view rel.files (Call.write_string res v) res s.world (λ q. refl) in
        (
          (
            IsExclusive-reservation view _ _ d dev change u.1 u.0,
            IsFree-reservation view _ _ d d dev change u.1,
          ),
          rel.noted s.world res v (reservation_path-own d dev) text,
        );
  }

  quiet-Noted : (c : Call) → is_quiet c ≡ true → Keeps (Noted E view d v) (perform c)
  unfolding perform
  quiet-Noted c q = record {
    holds = λ s (u, text).
        let same = IsSame-call view rel.files c s.world (λ p. quiet-touches c p q) in
        (
          (IsExclusive-same view _ _ same u.0, IsFree-same view _ _ d same u.1),
          same.all res (reservation_path-own d dev) ∙ text,
        );
  }

  -- A state file that could not be written does not name a device that was free.
  lost-device :
      (o p : Option Str)
      → (p ≡ o) ⊎ (p ≡ some [])
      → device_in (read_of o) ≢ some d
      → device_in (read_of p) ≢ some d
  lost-device o p (inl same) n e = n (ap (λ (x : Option Str). device_in (read_of x)) (sym same) ∙ e)
  lost-device o p (inr empty) n e =
      device_in-empty d (ap (λ (x : Option Str). device_in (read_of x)) (sym empty) ∙ e)

  lost-reserved :
      (w : E.World) (e : Str)
      → IsExclusive view w
      → (p : Option Str) → (p ≡ view w (volume_nbd_state_path v)) ⊎ (p ≡ some [])
      → device_in (read_of p) ≡ some e
      → IsDevice e × (view w (device_reservation_path e) ≡ some v)
  lost-reserved w e x p (inl same) k =
      x.reserved v e h (ap (λ (o : Option Str). device_in (read_of o)) (sym same) ∙ k)
  lost-reserved w e x p (inr empty) k =
      absurd (device_in-empty e (ap (λ (o : Option Str). device_in (read_of o)) (sym empty) ∙ k))

  write-Written :
      (s : Sys E)
      → Noted E view d v s
      → (r : Bool)
      → (E.answer (Call.write_file (volume_nbd_state_path v) (trim_space d)) s.world).0 ≡ r
      → Written E view v d r
          (perform (Call.write_file (volume_nbd_state_path v) (trim_space d)) s).1
  unfolding perform
  write-Written s (u, text) true k =
      let path = volume_nbd_state_path v in
      let change =
        Differs-call view rel.files (Call.write_file path (trim_space d)) path s.world
          (λ q. refl) in
      let now : recorded view (E.answer (Call.write_file path (trim_space d)) s.world).1 v
          ≡ some d =
        ap (λ (x : Option Str). device_in (read_of x))
          (rel.files.write s.world path (trim_space d) (state_path-own v h) k)
        ∙ device_in-device d dev (IsDevice-trim d dev) in
      (
        IsExclusive-state view _ _ v h change
            (λ e k'.
              let same = some-injective d e (sym now ∙ k') in
              (
                subst IsDevice same dev,
                subst (λ (x : Str). view s.world (device_reservation_path x) ≡ some v) same text,
              ))
            u.0,
        now,
      )
  write-Written s (u, text) false k =
      let path = volume_nbd_state_path v in
      let change =
        Differs-call view rel.files (Call.write_file path (trim_space d)) path s.world
          (λ q. refl) in
      let lost = rel.write_fails s.world path (trim_space d) (state_path-own v h) k in
      (
        IsExclusive-state view _ _ v h change (λ e k'. lost-reserved s.world e u.0 _ lost k') u.0,
        IsFree-state view _ _ v d h change (lost-device _ _ lost (u.1.unrecorded v h))
            (λ w wh n. u.1.unrecorded w wh),
      )

  check-Written :
      (r : Bool)
      → Triple
          (Written E view v d r)
          (check {E = E} r (codes "write"))
          (λ _. Found E view v (some d))
          (Unclaimed E view d)
  unfolding check
  check-Written true = Triple-pure tt (λ s k. k)
  check-Written false = Triple-fail unknown (codes "write") (λ s k. k)

  write_volume_nbd_state-Found :
      Triple
        (Noted E view d v)
        (write_volume_nbd_state v d)
        (λ _. Found E view v (some d))
        (Unclaimed E view d)
  unfolding write_volume_nbd_state
  write_volume_nbd_state-Found =
      Triple-seq _ _
        (Triple-weaken _ (λ s k. k) (λ a s k. k) (λ s k. k.0)
          (Keeps-Triple ensure_run_dirs (ensure_run_dirs-Keeps quiet-Noted)))
        (λ _.
          Triple-bind _ _
            (Triple-perform (Call.write_file (volume_nbd_state_path v) (trim_space d))
              (Written E view v d) (λ s k. write-Written s k _ refl))
            check-Written)

  finish_reservation-Found :
      (r : Result Unit)
      → Triple
          (Outcome (λ _. Found E view v (some d)) (Unclaimed E view d) r)
          (finish_reservation res d r)
          (Found E view v)
          (Safe view rel.files)
  unfolding finish_reservation perform remove_file ◌>>=◌
  finish_reservation-Found (ok _) = Triple-pure (some d) (λ s k. k)
  finish_reservation-Found (err e) =
      Triple-seq _ _
        (Triple-perform (Call.remove res) (λ _. Safe view rel.files)
          (λ s k. remove_file-Safe view rel.files d dev s k.1 k.0))
        (λ _. Triple-fail e.code e.message (λ s k. k))

  pub claim-Found :
      Triple (Noted E view d []) (claim v d true) (Found E view v) (Safe view rel.files)
  unfolding claim
  claim-Found =
      Triple-seq _ _ (Triple-weaken _ (λ s k. k) (λ a s k. k) (λ s k. k.0) note-Noted) (λ _.
        Triple-bind _ _ (Triple-attempt _ write_volume_nbd_state-Found) finish_reservation-Found)

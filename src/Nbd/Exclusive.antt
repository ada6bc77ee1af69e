-- ===== src/Nbd/Exclusive.antt =====
-- pkg/csi/nbd.go: the agreement of the state files with the reservations, and the changes of one file
-- that keep it.
pub mod Collect
pub mod Claim
pub mod Scan
pub mod Clear
pub mod Reserve
pub mod Steps
pub mod Frame
pub mod Refines
pub mod Unfailing
pub mod Rounds
pub mod Finds
pub mod Releases
pub mod GivesUp
use zerofs_csi_driver.Base.{
  ◌≡◌, refl, sym, ap, subst, ◌∙◌, ◌≢◌, Bool, true, false, Bool-cases, inl, inr, Option, none, some,
  Str, ◌===◌, ===_iff, ===_refl, arith,
}
use zerofs_csi_driver.Host.{Env, Call}
use zerofs_csi_driver.Host.Files.{is_own, read_of, touches, IsFileSystem}
use zerofs_csi_driver.Nbd.Devices.Names.{IsDevice}
use zerofs_csi_driver.Nbd.State.{volume_nbd_state_path, device_reservation_path, device_in}
use zerofs_csi_driver.Nbd.State.Paths.{
  IsVolume, state_path-own, reservation_path-own, state_path-injective, state_path-reservation,
  reservation_path-injective,
}

pub ===-distinct : (s t : Str) → s ≢ t → (s === t) ≡ false
===-distinct s t h = elim (Bool-cases (s === t)) [
  | inl same ↦ absurd (h ((===_iff s t).0 same))
  | inr other ↦ other
]

===-same : (s t : Str) → (s === t) ≡ true → s ≡ t
===-same s t h = (===_iff s t).0 h

===-other : (s t : Str) → (s === t) ≡ false → s ≢ t
===-other s t h e = absurd (cc (h, ===_refl s, e))

module _ {W : Type 0} (view : W → Str → Option Str) where
  -- The device that the state file of a volume names.
  abbrev pub recorded : W → Str → Option Str
  recorded w v = device_in (read_of (view w (volume_nbd_state_path v)))

  -- The device of a volume is an NBD device, and its reservation names the volume.
  pub record IsExclusive (w : W) : Type 0 where
    pub reserved :
        (v d : Str)
        → IsVolume v
        → recorded w v ≡ some d
        → IsDevice d × (view w (device_reservation_path d) ≡ some v)

  -- No volume has the device.
  pub record IsFree (w : W) (d : Str) : Type 0 where
    pub unrecorded : (v : Str) → IsVolume v → recorded w v ≢ some d

  -- At most the file at `p` changes.
  pub record Differs (p : Str) (w t : W) : Type 0 where
    pub others : (q : Str) → is_own q ≡ true → p ≢ q → view t q ≡ view w q

  pub record IsSame (w t : W) : Type 0 where
    pub all : (q : Str) → is_own q ≡ true → view t q ≡ view w q

  pub same-recorded : (w t : W) (v : Str) → IsVolume v → IsSame w t → recorded t v ≡ recorded w v
  same-recorded w t v h k =
      ap (λ (x : Option Str). device_in (read_of x))
        (k.all (volume_nbd_state_path v) (state_path-own v h))

  pub IsExclusive-same : (w t : W) → IsSame w t → IsExclusive w → IsExclusive t
  IsExclusive-same w t k x = record {
    reserved = λ v d h e.
        let (dev, text) = x.reserved v d h (sym (same-recorded w t v h k) ∙ e) in
        (dev, k.all (device_reservation_path d) (reservation_path-own d dev) ∙ text);
  }

  pub IsFree-same : (w t : W) (d : Str) → IsSame w t → IsFree w d → IsFree t d
  IsFree-same w t d k f = record {
    unrecorded = λ v h e. f.unrecorded v h (sym (same-recorded w t v h k) ∙ e);
  }

  Differs-recorded :
      (w t : W) (p v : Str)
      → IsVolume v
      → Differs p w t
      → p ≢ volume_nbd_state_path v
      → recorded t v ≡ recorded w v
  Differs-recorded w t p v h k n =
      ap (λ (x : Option Str). device_in (read_of x))
        (k.others (volume_nbd_state_path v) (state_path-own v h) n)

  -- Another state file does not change.
  pub state-other :
      (w t : W) (v u : Str)
      → IsVolume v
      → IsVolume u
      → Differs (volume_nbd_state_path v) w t
      → v ≢ u
      → recorded t u ≡ recorded w u
  state-other w t v u h k l n =
      Differs-recorded w t (volume_nbd_state_path v) u k l (λ e. n (state_path-injective v u h k e))

  -- The state file of `v` may come to name a device whose reservation names `v`.
  pub IsExclusive-state :
      (w t : W) (v : Str)
      → IsVolume v
      → Differs (volume_nbd_state_path v) w t
      → ((d : Str)
          → recorded t v ≡ some d
          → IsDevice d × (view w (device_reservation_path d) ≡ some v))
      → IsExclusive w
      → IsExclusive t
  IsExclusive-state w t v h k l x = record {
    reserved = λ u d uh e. elim (Bool-cases (v === u)) [
      | inl same ↦
          let vu = ===-same v u same in
          let (dev, text) = l d (ap (recorded t) vu ∙ e) in
          (
            dev,
            k.others (device_reservation_path d) (reservation_path-own d dev)
                  (state_path-reservation v d h dev)
                ∙ (text ∙ ap some vu),
          )
      | inr other ↦
          let (dev, text) =
            x.reserved u d uh (sym (state-other w t v u h uh k (===-other v u other)) ∙ e) in
          (
            dev,
            k.others (device_reservation_path d) (reservation_path-own d dev)
                  (state_path-reservation v d h dev)
                ∙ text,
          )
    ];
  }

  pub IsFree-state :
      (w t : W) (v d : Str)
      → IsVolume v
      → Differs (volume_nbd_state_path v) w t
      → recorded t v ≢ some d
      → ((u : Str) → IsVolume u → v ≢ u → recorded w u ≢ some d)
      → IsFree t d
  IsFree-state w t v d h k n f = record {
    unrecorded = λ u uh e. elim (Bool-cases (v === u)) [
      | inl same ↦ n (ap (recorded t) (===-same v u same) ∙ e)
      | inr other ↦
          f u uh (===-other v u other) (sym (state-other w t v u h uh k (===-other v u other)) ∙ e)
    ];
  }

  pub reservation-recorded :
      (w t : W) (d v : Str)
      → IsDevice d
      → IsVolume v
      → Differs (device_reservation_path d) w t
      → recorded t v ≡ recorded w v
  reservation-recorded w t d v dev h k =
      Differs-recorded w t (device_reservation_path d) v h k
        (λ e. state_path-reservation v d h dev (sym e))

  -- The reservation of a device that no volume has may change.
  pub IsFree-reservation :
      (w t : W) (d e : Str)
      → IsDevice d
      → Differs (device_reservation_path d) w t
      → IsFree w e
      → IsFree t e
  IsFree-reservation w t d e dev k f = record {
    unrecorded = λ v h r. f.unrecorded v h (sym (reservation-recorded w t d v dev h k) ∙ r);
  }

  pub IsExclusive-reservation :
      (w t : W) (d : Str)
      → IsDevice d
      → Differs (device_reservation_path d) w t
      → IsFree w d
      → IsExclusive w
      → IsExclusive t
  IsExclusive-reservation w t d dev k f x = record {
    reserved = λ v e h r.
        let back = sym (reservation-recorded w t d v dev h k) ∙ r in
        let (dev', text) = x.reserved v e h back in
        (
          dev',
          k.others (device_reservation_path e) (reservation_path-own e dev') (λ same.
                f.unrecorded v h
                  (back ∙ ap some (sym (reservation_path-injective d e dev dev' same))))
              ∙ text,
        );
  }

module _ {E : Env} (view : E.World → Str → Option Str) (fs : IsFileSystem E view) where
  pub IsSame-call :
      (c : Call) (w : E.World) → ((p : Str) → touches c p ≡ false) → IsSame view w (E.answer c w).1
  IsSame-call c w h = record { all = λ q own. fs.untouched c w q own (h q) }

  pub Differs-call :
      (c : Call) (p : Str) (w : E.World)
      → ((q : Str) → touches c q ≡ (p === q))
      → Differs view p w (E.answer c w).1
  Differs-call c p w h = record {
    others = λ q own n. fs.untouched c w q own (h q ∙ ===-distinct p q n);
  }

  -- A create that fails changes nothing.
  pub create_fails-IsSame :
      (p : Str) (w : E.World)
      → is_own p ≡ true
      → (E.answer (Call.create_excl p) w).0 ≡ false
      → IsSame view w (E.answer (Call.create_excl p) w).1
  create_fails-IsSame p w own k = record {
    all = λ q other. elim (Bool-cases (p === q)) [
      | inl same ↦
          subst (λ (x : Str). view (E.answer (Call.create_excl p) w).1 x ≡ view w x)
            (===-same p q same) (fs.create_fails w p own k)
      | inr different ↦ fs.untouched (Call.create_excl p) w q other different
    ];
  }

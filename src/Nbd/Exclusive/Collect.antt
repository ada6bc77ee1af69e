-- ===== src/Nbd/Exclusive/Collect.antt =====
-- pkg/csi/nbd.go: the look at another volume's reservation keeps the agreement.
use zerofs_csi_driver.Base.{
  ℕ, ◌≡◌, refl, sym, ap, ◌∙◌, ◌≤◌, true, false, Option, none, some, [], ◌∷◌, Str, trim_space,
}
use zerofs_csi_driver.Host.{
  Env, Sys, Call, Stat, found, not_exist, stat_error, Read, pure, perform, ◌>>=◌,
}
use zerofs_csi_driver.Host.Keeps.{Keeps}
use zerofs_csi_driver.Host.Calls.{is_quiet, is_change}
use zerofs_csi_driver.Host.Files.{touches, change-touches, IsFileSystem, read_of}
use zerofs_csi_driver.Nbd.Devices.Names.{IsDevice}
use zerofs_csi_driver.Nbd.State.{
  volume_nbd_state_path, device_reservation_path, text_of, must_read_file, device_in,
}
use zerofs_csi_driver.Nbd.State.Paths.{
  IsVolume, IsVolume-trim, state_path-own, reservation_path-own,
}
use zerofs_csi_driver.Nbd.Reserve.{
  two_hours, remove_file, drop_if_stale, judge_reservation, collect_reservation,
}
use zerofs_csi_driver.Nbd.Reserve.Collect.{leb-ltb}
use zerofs_csi_driver.Nbd.Exclusive.{
  recorded, IsExclusive, IsFree, IsSame, same-recorded, IsSame-call, Differs-call, IsExclusive-same,
  IsExclusive-reservation,
}

pub quiet-touches : (c : Call) (p : Str) → is_quiet c ≡ true → touches c p ≡ false
quiet-touches (Call.write_file q x) p h = absurd (cc)
quiet-touches (Call.create_excl q) p h = absurd (cc)
quiet-touches (Call.write_string q x) p h = absurd (cc)
quiet-touches (Call.remove q) p h = absurd (cc)
quiet-touches _ p h = refl

found-not_exist : (age : ℕ) → found age ≡ not_exist → ⊥
found-not_exist age e = absurd (cc)

recorded-some :
    (o : Option Str) (d : Str) → device_in (read_of o) ≡ some d → (x : Str) × (o ≡ some x)
recorded-some none d h = absurd (cc)
recorded-some (some x) d h = (x, refl)

pub IsVolume-given : (u : Str) → IsVolume u → u ≡ [] → ⊥
IsVolume-given [] h e = absurd (cc (h.name.given))
IsVolume-given (c ∷ u) h e = absurd (cc)

module _ {E : Env} (view : E.World → Str → Option Str) (fs : IsFileSystem E view) where
  abbrev pub Safe : Sys E → Type 0
  Safe s = IsExclusive view s.world

  pub harmless-Safe : (c : Call) → ((p : Str) → touches c p ≡ false) → Keeps Safe (perform c)
  unfolding perform
  harmless-Safe c h = record {
    holds = λ s x. IsExclusive-same view _ _ (IsSame-call view fs c s.world h) x;
  }

  pub quiet-Safe : (c : Call) → is_quiet c ≡ true → Keeps Safe (perform c)
  quiet-Safe c h = harmless-Safe c (λ p. quiet-touches c p h)

  pub changes-Safe : (c : Call) → is_change c ≡ true → Keeps Safe (perform c)
  changes-Safe c h = harmless-Safe c (λ p. change-touches c p h)

  module _ (d : Str) (dev : IsDevice d) where
    pub remove_file-Safe :
        (s : Sys E)
        → IsFree view s.world d
        → Safe s
        → Safe (remove_file (device_reservation_path d) s).1
    unfolding remove_file perform pure ◌>>=◌
    remove_file-Safe s f x =
        IsExclusive-reservation view _ _ d dev
          (Differs-call view fs (Call.remove (device_reservation_path d))
            (device_reservation_path d) s.world (λ q. refl))
          f x

    drop_if_stale-Safe :
        (age : ℕ) (there : Stat) (s : Sys E)
        → age ≤ two_hours
        → (there ≡ not_exist → IsFree view s.world d)
        → Safe s
        → Safe (drop_if_stale (device_reservation_path d) age there s).1
    unfolding drop_if_stale pure
    drop_if_stale-Safe age not_exist s a f x = remove_file-Safe s (f refl) x
    drop_if_stale-Safe age (found other) s a f x = rw (leb-ltb age a) x
    drop_if_stale-Safe age stat_error s a f x = rw (leb-ltb age a) x

    -- A volume that has the device has a state file.
    stat-Free :
        (w t : E.World) (owner : Str)
        → ((u : Str) → IsVolume u → recorded view w u ≡ some d → owner ≡ u)
        → IsSame view w t
        → (E.answer (Call.stat (volume_nbd_state_path owner)) w).0 ≡ not_exist
        → IsFree view t d
    stat-Free w t owner names k gone = record {
      unrecorded = λ u h e.
          let back = sym (same-recorded view w t u h k) ∙ e in
          let same = names u h back in
          let (x, there) = recorded-some (view w (volume_nbd_state_path u)) d back in
          let (age, is_found) =
            fs.stat_present w (volume_nbd_state_path u) x (state_path-own u h) there in
          found-not_exist age (
            sym is_found
            ∙ (ap (λ (v : Str). (E.answer (Call.stat (volume_nbd_state_path v)) w).0) (sym same)
                ∙ gone));
    }

    judge_reservation-Safe :
        (age : ℕ) (owner : Str) (s : Sys E)
        → age ≤ two_hours
        → ((u : Str) → IsVolume u → recorded view s.world u ≡ some d → owner ≡ u)
        → Safe s
        → Safe (judge_reservation (device_reservation_path d) age owner s).1
    unfolding judge_reservation perform ◌>>=◌
    judge_reservation-Safe age [] s a names x =
        remove_file-Safe s (record { unrecorded = λ u h e. IsVolume-given u h (sym (names u h e)) })
          x
    judge_reservation-Safe age (c ∷ v) s a names x =
        let same =
          IsSame-call view fs (Call.stat (volume_nbd_state_path (c ∷ v))) s.world (λ p. refl) in
        drop_if_stale-Safe age _ _ a (stat-Free s.world _ (c ∷ v) names same)
          (IsExclusive-same view _ _ same x)

    -- The text of the reservation is the volume that has the device.
    owner-names :
        (w : E.World)
        → IsExclusive view w
        → (u : Str) → IsVolume u
        → recorded view w u ≡ some d
        → trim_space (text_of (E.answer (Call.read_file (device_reservation_path d)) w).0) ≡ u
    owner-names w x u h e =
        let (dev', text) = x.reserved u d h e in
        ap (λ (r : Read). trim_space (text_of r))
          (fs.read w (device_reservation_path d) (reservation_path-own d dev))
        ∙ (ap (λ (o : Option Str). trim_space (text_of (read_of o))) text ∙ IsVolume-trim u h)

    pub collect_reservation-Safe :
        (there : Stat) (s : Sys E)
        → ((age : ℕ) → there ≡ found age → age ≤ two_hours)
        → Safe s
        → Safe (collect_reservation (device_reservation_path d) there s).1
    unfolding collect_reservation must_read_file perform pure ◌>>=◌
    collect_reservation-Safe not_exist s a x = x
    collect_reservation-Safe stat_error s a x = x
    collect_reservation-Safe (found age) s a x =
        let same =
          IsSame-call view fs (Call.read_file (device_reservation_path d)) s.world (λ p. refl) in
        judge_reservation-Safe age _ _ (a age refl)
          (λ u h e. owner-names s.world x u h (sym (same-recorded view _ _ u h same) ∙ e))
          (IsExclusive-same view _ _ same x)

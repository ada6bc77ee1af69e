-- ===== src/Nbd/Exclusive/Rounds.antt =====
-- pkg/csi/nbd.go: the rounds of `reserveNBDDevice` over the devices, one of which is free.
use mathlib.Core.List.{Memᴰ}
use zerofs_csi_driver.Base.{
  ◌≡◌, refl, sym, subst, ◌≢◌, inl, inr, Bool, Bool-cases, true, false, Option, none, some, List, [],
  ◌∷◌, Str, codes, ◌===◌, All,
}
use zerofs_csi_driver.Host.{
  Env, Sys, Exec, Call, Stat, found, not_exist, stat_error, missing, Result, ok, err, perform, pure,
  attempt, on_option, ◌>>=◌,
}
use zerofs_csi_driver.Host.Keeps.{Keeps}
use zerofs_csi_driver.Host.Triple.{
  Triple, Triple-pure, Triple-perform, Triple-bind, Triple-seq, Triple-weaken, Triple-on_option,
  Triple-both,
}
use zerofs_csi_driver.Host.Calls.{is_look, is_file_call, look-quiet, look-file_call}
use zerofs_csi_driver.Host.Files.{is_own, IsFileSystem}
use zerofs_csi_driver.Nbd.Devices.{pid_path, pid_state, is_nbd_connected}
use zerofs_csi_driver.Nbd.Reserve.Plain.{is_nbd_connected-Looks, try_device-Keeps}
use zerofs_csi_driver.Nbd.Devices.Names.{IsDevice}
use zerofs_csi_driver.Nbd.State.{volume_nbd_state_path, device_reservation_path}
use zerofs_csi_driver.Nbd.State.Paths.{
  IsVolume, reservation_path-own, state_path-reservation, reservation_path-injective,
}
use zerofs_csi_driver.Nbd.Reserve.{
  claim, take_free, collect_reservation, try_device, reserve_round, first_free, scan_devices,
}
use zerofs_csi_driver.Nbd.Exclusive.{===-same, ===-other}
use zerofs_csi_driver.Nbd.Exclusive.Frame.{Unchanged, quiet-Unchanged, try_device-Unchanged}
use zerofs_csi_driver.Nbd.Exclusive.Unfailing.{
  IsWritable, Fails, Always, IsTrue, IsSome, claim-Always, try_device-Always,
}

Keeps-both :
    {E : Env} {A : Type 0} {P Q : Sys E → Type 0} (m : Exec E A)
    → Keeps P m
    → Keeps Q m
    → Keeps (λ s. P s × Q s) m
Keeps-both m k l = record { holds = λ s (p, q). (k.holds s p, l.holds s q) }

mem-tail : (d e : Str) (ds : List Str) → e ≢ d → Memᴰ d (e ∷ ds) → Memᴰ d ds
mem-tail d e ds n (Memᴰ.head x) = absurd (n (sym x))
mem-tail d e ds n (Memᴰ.tail m) = m

-- The device is not connected, and is among the matches of /dev/nbd*.
pub record IsOffered (E : Env) (d : Str) (matches : List Str) (w : E.World) : Type 0 where
  pub idle : (E.answer (Call.read_file (pid_path d)) w).0 ≡ missing
  pub listed : (E.answer (Call.glob (codes "/dev/nbd*")) w).0 ≡ some matches

-- Calls on files do not change this; a program may.
abbrev pub IsCalm : (E : Env) → Str → List Str → Type 0
IsCalm E d matches =
    (c : Call) (w : E.World)
    → is_file_call c ≡ true
    → IsOffered E d matches w
    → IsOffered E d matches (E.answer c w).1

module _ {E : Env} (view : E.World → Str → Option Str) (fs : IsFileSystem E view)
    (wr : IsWritable E view) (v : Str) (h : IsVolume v) where
  module _ (d : Str) (dev : IsDevice d) (matches : List Str) (calm : IsCalm E d matches) where
    is_nbd_connected-idle :
        (s : Sys E) → IsOffered E d matches s.world → (is_nbd_connected d s).0 ≡ ok false
    unfolding is_nbd_connected pid_state perform pure ◌>>=◌
    is_nbd_connected-idle s o = rw (o.idle) refl

    taken-Always :
        (next : Exec E Str) (taken : Option Str)
        → Triple (IsSome taken) (on_option taken pure next) Always Fails
    unfolding on_option
    taken-Always next none = record { holds = λ s k. absurd k }
    taken-Always next (some c) = Triple-pure c (λ s k. tt)

    -- The device has no reservation.
    pub apart : volume_nbd_state_path v ≢ device_reservation_path d
    apart e = state_path-reservation v d h dev e

    pub own : is_own (device_reservation_path d) ≡ true
    own = reservation_path-own d dev

    abbrev Absent : Sys E → Type 0
    Absent = Unchanged view fs v (device_reservation_path d) own apart none

    abbrev Offered : Sys E → Type 0
    Offered s = IsOffered E d matches s.world

    abbrev pub Unreserved : Sys E → Type 0
    Unreserved s = (view s.world (device_reservation_path d) ≡ none) × IsOffered E d matches s.world

    files-Offered : (c : Call) → is_file_call c ≡ true → Keeps Offered (perform c)
    unfolding perform
    files-Offered c k = record { holds = λ s o. calm c s.world k o }

    pub looks-Unreserved : (c : Call) → is_look c ≡ true → Keeps Unreserved (perform c)
    looks-Unreserved c k =
        Keeps-both _
          (quiet-Unchanged view fs v (device_reservation_path d) own apart none c (look-quiet c k))
          (files-Offered c (look-file_call c k))

    other_device-Unreserved :
        (e : Str) (r : Result Bool)
        → device_reservation_path e ≢ device_reservation_path d
        → Keeps Unreserved (try_device v e r)
    other_device-Unreserved e r n =
        Keeps-both _
          (try_device-Unchanged view fs v (device_reservation_path d) own apart none e n r)
          (try_device-Keeps files-Offered v e r)

    collect_absent :
        (there : Stat)
        → Triple
            (λ s. (there ≡ not_exist) × Unreserved s)
            (collect_reservation (device_reservation_path d) there)
            (λ _. Unreserved)
            Fails
    unfolding collect_reservation
    collect_absent not_exist = Triple-pure tt (λ s k. k.1)
    collect_absent (found age) = record { holds = λ s k. absurd (cc (k.0)) }
    collect_absent stat_error = record { holds = λ s k. absurd (cc (k.0)) }

    claim-created :
        (created : Bool) → Triple {E = E} (IsTrue created) (claim v d created) IsSome Fails
    claim-created true =
        Triple-weaken _ (λ s k. tt) (λ a s k. k) (λ s k. k) (claim-Always view wr v h d)
    claim-created false = record { holds = λ s k. absurd (cc (k)) }

    take_free-finds : Triple Unreserved (take_free v d) IsSome Fails
    unfolding take_free
    take_free-finds =
        Triple-bind _ _
          (Triple-perform (Call.stat (device_reservation_path d))
            (λ there s. (there ≡ not_exist) × Unreserved s)
            (λ s k. (
              fs.stat_absent s.world _ own k.0,
              (looks-Unreserved (Call.stat (device_reservation_path d)) refl).holds s k,
            )))
          (λ there. Triple-seq _ _ (collect_absent there) (λ _.
            Triple-bind _ _
              (Triple-perform (Call.create_excl (device_reservation_path d)) IsTrue
                (λ s k. wr.creates s.world _ own k.0))
              claim-created))

    connected-idle :
        Triple Unreserved
          (attempt (is_nbd_connected d))
          (λ r s. (r ≡ ok false) × Unreserved s)
          Fails
    unfolding attempt
    connected-idle = record {
      holds = λ s k.
          (is_nbd_connected-idle s k.1, (is_nbd_connected-Looks looks-Unreserved d).holds s k);
    }

    try_device-finds :
        (r : Result Bool)
        → Triple (λ s. (r ≡ ok false) × Unreserved s) (try_device v d r) IsSome Fails
    unfolding try_device
    try_device-finds (ok false) =
        Triple-weaken _ (λ s k. k.1) (λ a s k. k) (λ s k. k) take_free-finds
    try_device-finds (ok true) = record { holds = λ s k. absurd (cc (k.0)) }
    try_device-finds (err e) = record { holds = λ s k. absurd (cc (k.0)) }

    round-finds : (next : Exec E Str) → Triple Unreserved (reserve_round v d next) Always Fails
    unfolding reserve_round
    round-finds next =
        Triple-bind _ _ connected-idle
          (λ r. Triple-bind _ _ (try_device-finds r) (taken-Always next))

    -- Another device is tried before it.
    round-passes :
        (e : Str)
        → IsDevice e
        → e ≢ d
        → (next : Exec E Str) → Triple Unreserved next Always Fails
        → Triple Unreserved (reserve_round v e next) Always Fails
    unfolding reserve_round attempt
    round-passes e edev n next k =
        let other : device_reservation_path e ≢ device_reservation_path d =
          λ x. n (reservation_path-injective e d edev dev x) in
        Triple-bind _ _
          (record { holds = λ s x. (is_nbd_connected-Looks looks-Unreserved e).holds s x })
          (λ r.
            Triple-bind _ _
              (Triple-weaken _ (λ s x. (tt, x)) (λ a s x. x.1) (λ s x. x.0)
                (Triple-both _ (try_device-Always view wr v h e r)
                  (other_device-Unreserved e r other)))
              (λ taken.
                Triple-on_option taken pure next (λ a x. Triple-pure a (λ s y. tt)) (λ x. k)))

    first_free-finds :
        (ds : List Str)
        → All IsDevice ds
        → Memᴰ d ds
        → Triple Unreserved (first_free v ds) Always Fails
    unfolding first_free
    first_free-finds [] x m = elim m [ ]
    first_free-finds (e ∷ ds) (edev, x) m = elim (Bool-cases (e === d)) [
      | inl same ↦
          subst (λ (c : Str). Triple Unreserved (reserve_round v c (first_free v ds)) Always Fails)
            (sym (===-same e d same)) (round-finds _)
      | inr other ↦
          round-passes e edev (===-other e d other) _
            (first_free-finds ds x (mem-tail d e ds (===-other e d other) m))
    ]

    pub scan_devices-finds :
        (ds : List Str)
        → All IsDevice ds
        → Memᴰ d ds
        → Triple Unreserved (scan_devices v ds) Always Fails
    unfolding scan_devices
    scan_devices-finds [] x m = elim m [ ]
    scan_devices-finds (e ∷ ds) x m = first_free-finds (e ∷ ds) x m

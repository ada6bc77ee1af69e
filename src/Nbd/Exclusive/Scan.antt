-- ===== src/Nbd/Exclusive/Scan.antt =====
-- pkg/csi/nbd.go: the search for a free device keeps the agreement.
use zerofs_csi_driver.Base.{
  ℕ, ◌≡◌, refl, sym, subst, ◌∙◌, ◌≤◌, Bool, true, false, Option, none, some, List, [], ◌∷◌, Str,
  codes, All,
}
use zerofs_csi_driver.Host.{
  Env, Sys, Exec, Call, found, Result, ok, err, unknown, pure, perform, attempt,
}
use zerofs_csi_driver.Host.Triple.{
  Triple, Triple-pure, Triple-fail, Triple-perform, Triple-bind, Triple-seq, Triple-weaken,
  Triple-state, Triple-on_option,
}
use zerofs_csi_driver.Host.Files.{IsReliable}
use zerofs_csi_driver.Nbd.Devices.{is_nbd_connected}
use zerofs_csi_driver.Nbd.Devices.Quiet.{is_nbd_connected-Keeps}
use zerofs_csi_driver.Nbd.Devices.Names.{IsDevice}
use zerofs_csi_driver.Nbd.State.{device_reservation_path}
use zerofs_csi_driver.Nbd.State.Paths.{IsVolume, reservation_path-own}
use zerofs_csi_driver.Nbd.Reserve.{
  two_hours, claim, take_free, collect_reservation, try_device, reserve_round, first_free,
}
use zerofs_csi_driver.Nbd.Exclusive.{
  IsExclusive, IsFree, Differs-call, create_fails-IsSame, IsExclusive-same, IsExclusive-reservation,
  IsFree-reservation,
}
use zerofs_csi_driver.Nbd.Exclusive.Collect.{Safe, quiet-Safe, collect_reservation-Safe}
use zerofs_csi_driver.Nbd.Exclusive.Claim.{Found, Noted, claim-Found}

none-some : (v : Str) → none ≡ some v → ⊥
none-some v e = absurd (cc)

module _ {E : Env} where
  -- The reservation of a device is no older than two hours.
  abbrev pub IsFresh : Str → Sys E → Type 0
  IsFresh d s =
      (age : ℕ)
      → (E.answer (Call.stat (device_reservation_path d)) s.world).0 ≡ found age
      → age ≤ two_hours

module _ (E : Env) where
  -- A device whose reservation is older than two hours is connected, so that it is not tried.
  pub record IsBusyWhenOld : Type 0 where
    pub young :
        (d : Str) (s : Sys E)
        → IsDevice d
        → (is_nbd_connected d s).0 ≡ ok false
        → IsFresh d (is_nbd_connected d s).1

module _ {E : Env} (view : E.World → Str → Option Str) (rel : IsReliable E view) (v : Str)
    (h : IsVolume v) where
  abbrev Good : Sys E → Type 0
  Good = Safe view rel.files

  module _ (d : Str) (dev : IsDevice d) where
    abbrev res : Str
    res = device_reservation_path d

    -- A device without a reservation is that of no volume.
    unreserved-Free : (w : E.World) → IsExclusive view w → view w res ≡ none → IsFree view w d
    unreserved-Free w x e = record {
      unrecorded = λ u uh r. none-some u (sym e ∙ (x.reserved u d uh r).1);
    }

    -- What the exclusive create leaves.
    abbrev Created : Bool → Sys E → Type 0
    Created true s = Noted E view d [] s
    Created false s = Good s

    create-Created :
        (s : Sys E)
        → Good s
        → (r : Bool) → (E.answer (Call.create_excl res) s.world).0 ≡ r
        → Created r (perform (Call.create_excl res) s).1
    unfolding perform
    create-Created s x true k =
        let own = reservation_path-own d dev in
        let change = Differs-call view rel.files (Call.create_excl res) res s.world (λ q. refl) in
        let free = unreserved-Free s.world x (rel.files.create s.world res own k) in
        (
          (
            IsExclusive-reservation view _ _ d dev change free x,
            IsFree-reservation view _ _ d d dev change free,
          ),
          rel.created s.world res own k,
        )
    create-Created s x false k =
        IsExclusive-same view _ _
          (create_fails-IsSame view rel.files res s.world (reservation_path-own d dev) k) x

    claim-any :
        (created : Bool) → Triple (Created created) (claim v d created) (Found E view v) Good
    unfolding claim
    claim-any true = claim-Found view rel v d h dev
    claim-any false = Triple-pure none (λ s x. (x, tt))

    take_free-Found : Triple (λ s. Good s × IsFresh d s) (take_free v d) (Found E view v) Good
    unfolding take_free
    take_free-Found =
        Triple-bind _ _
          (Triple-perform (Call.stat res)
            (λ there s. Good s × ((age : ℕ) → there ≡ found age → age ≤ two_hours))
            (λ s (x, young). ((quiet-Safe view rel.files (Call.stat res) refl).holds s x, young)))
          (λ there.
            Triple-seq _ _
              (Triple-state (collect_reservation res there)
                (λ s (x, young). collect_reservation-Safe view rel.files d dev there s young x))
              (λ _.
                Triple-bind _ _
                  (Triple-perform (Call.create_excl res) Created (λ s x. create-Created s x _ refl))
                  claim-any))

    module _ (old : IsBusyWhenOld E) where
      try_device-Found :
          (r : Result Bool)
          → Triple
              (λ s. Good s × (r ≡ ok false → IsFresh d s))
              (try_device v d r)
              (Found E view v)
              Good
      unfolding try_device
      try_device-Found (ok false) =
          Triple-weaken _ (λ s (x, f). (x, f refl)) (λ a s k. k) (λ s k. k) take_free-Found
      try_device-Found (ok true) = Triple-pure none (λ s (x, f). (x, tt))
      try_device-Found (err e) = Triple-pure none (λ s (x, f). (x, tt))

      connected-Fresh :
          Triple Good
            (attempt (is_nbd_connected d))
            (λ r s. Good s × (r ≡ ok false → IsFresh d s))
            Good
      unfolding attempt
      connected-Fresh = record {
        holds = λ s x.
            ((is_nbd_connected-Keeps (quiet-Safe view rel.files) d).holds s x, old.young d s dev);
      }

      reserve_round-Found :
          (next : Exec E Str)
          → Triple Good next (λ x. Found E view v (some x)) Good
          → Triple Good (reserve_round v d next) (λ x. Found E view v (some x)) Good
      unfolding reserve_round
      reserve_round-Found next k = Triple-bind _ _ connected-Fresh (λ r.
          Triple-bind _ _ (try_device-Found r) (λ taken.
            Triple-on_option taken pure next
              (λ x e. Triple-pure x (λ s y. subst (λ (o : Option Str). Found E view v o s) e y))
              (λ e. Triple-weaken _ (λ s y. y.0) (λ a s z. z) (λ s z. z) k)))

  pub first_free-Found :
      IsBusyWhenOld E
      → (ds : List Str) → All IsDevice ds
      → Triple Good (first_free v ds) (λ x. Found E view v (some x)) Good
  unfolding first_free
  first_free-Found old [] k =
      Triple-fail unknown (codes "no free /dev/nbd* devices available") (λ s x. x)
  first_free-Found old (d ∷ ds) (dev, k) =
      reserve_round-Found d dev old _ (first_free-Found old ds k)

-- ===== src/Nbd/Exclusive/GivesUp.antt =====
-- pkg/csi/nbd.go: the clearing of a volume's state, seen from a world with the same files.
use zerofs_csi_driver.Base.{
  none-not_some, ◌≡◌, ◌≢◌, ◌⊎◌, inl, inr, sym, ap, subst, ◌∙◌, refl, true, false, Option, none,
  some, [], Str,
}
use zerofs_csi_driver.Host.{Env, Sys, Call, pure, perform, ◌>>=◌}
use zerofs_csi_driver.Host.Keeps.{Keeps}
use zerofs_csi_driver.Host.Calls.{is_quiet, is_change}
use zerofs_csi_driver.Host.Files.{touches, change-touches, read_of, IsReliable}
use zerofs_csi_driver.Nbd.State.{
  volume_nbd_state_path, device_in, remove_reservation, clear_volume_nbd_state,
}
use zerofs_csi_driver.Nbd.State.Paths.{IsVolume, state_path-own}
use zerofs_csi_driver.Nbd.Exclusive.{
  recorded, IsExclusive, IsSame, IsSame-call, IsExclusive-same, same-recorded, Differs-call,
  IsExclusive-state, state-other,
}
use zerofs_csi_driver.Nbd.Exclusive.Collect.{quiet-touches}
use zerofs_csi_driver.Nbd.Exclusive.Releases.{clear_volume_nbd_state-releases}
use zerofs_csi_driver.Nbd.Exclusive.Refines.{Assignment}

-- What a release of one volume does: the others keep their devices, and it has none.
pub record IsReleased (v : Str) (a b : Assignment) : Type 0 where
  pub others : (u : Str) → IsVolume u → v ≢ u → b u ≡ a u
  pub gone : b v ≡ none

module _ {E : Env} (view : E.World → Str → Option Str) (rel : IsReliable E view) (v : Str)
    (h : IsVolume v) (w0 : E.World) where
  -- The driver's files are those of the world at the start.
  abbrev pub Same : Sys E → Type 0
  Same s = IsSame view w0 s.world

  -- The device to give up is the one that the state file named at the start, if it named one.
  abbrev pub IsOurs : Str → Type 0
  IsOurs dev = ((dev ≡ []) × (recorded view w0 v ≡ none)) ⊎ (recorded view w0 v ≡ some dev)

  abbrev pub Done : Sys E → Type 0
  Done s = IsReleased v (recorded view w0) (recorded view s.world) × IsExclusive view s.world

  pub harmless-Same : (c : Call) → ((p : Str) → touches c p ≡ false) → Keeps Same (perform c)
  unfolding perform
  harmless-Same c q = record {
    holds = λ s x. record {
      all = λ p own. (IsSame-call view rel.files c s.world q).all p own ∙ x.all p own;
    };
  }

  pub quiet-Same : (c : Call) → is_quiet c ≡ true → Keeps Same (perform c)
  quiet-Same c k = harmless-Same c (λ p. quiet-touches c p k)

  pub changes-Same : (c : Call) → is_change c ≡ true → Keeps Same (perform c)
  changes-Same c k = harmless-Same c (λ p. change-touches c p k)

  Done-same : (s t : Sys E) → IsSame view s.world t.world → Done s → Done t
  Done-same s t same (x, y) = (
    record {
      others = λ u k n. same-recorded view _ _ u k same ∙ x.others u k n;
      gone = same-recorded view _ _ v h same ∙ x.gone;
    },
    IsExclusive-same view _ _ same y,
  )

  pub harmless-Done : (c : Call) → ((p : Str) → touches c p ≡ false) → Keeps Done (perform c)
  unfolding perform
  harmless-Done c q = record {
    holds = λ s x. Done-same s (perform c s).1 (IsSame-call view rel.files c s.world q) x;
  }

  pub quiet-Done : (c : Call) → is_quiet c ≡ true → Keeps Done (perform c)
  quiet-Done c k = harmless-Done c (λ p. quiet-touches c p k)

  -- The state file is taken away, and named no device.
  clear_blank-Done :
      (s : Sys E)
      → IsExclusive view w0
      → Same s
      → recorded view w0 v ≡ none
      → Done (clear_volume_nbd_state v [] s).1
  unfolding clear_volume_nbd_state remove_reservation perform pure ◌>>=◌
  clear_blank-Done s x same e =
      let path = volume_nbd_state_path v in
      let change = Differs-call view rel.files (Call.remove path) path s.world (λ q. refl) in
      let gone : recorded view (E.answer (Call.remove path) s.world).1 v ≡ none =
        ap (λ (o : Option Str). device_in (read_of o))
          (rel.files.remove s.world path (state_path-own v h)) in
      (
        record {
          others = λ u k n. state-other view _ _ v u h k change n ∙ same-recorded view _ _ u k same;
          gone = gone;
        },
        IsExclusive-state view _ _ v h change (λ c r. none-not_some c (sym gone ∙ r))
            (IsExclusive-same view _ _ same x),
      )

  clear_recorded-Done :
      (d : Str) (s : Sys E)
      → IsExclusive view w0
      → Same s
      → recorded view w0 v ≡ some d
      → Done (clear_volume_nbd_state v d s).1
  clear_recorded-Done d s x same e =
      let (assigned, gone, unreserved, agree) =
        clear_volume_nbd_state-releases view rel v h d s (IsExclusive-same view _ _ same x)
          (same-recorded view _ _ v h same ∙ e) in
      (
        record {
          others = λ u k n. assigned.others u k n ∙ same-recorded view _ _ u k same;
          gone = gone;
        },
        agree,
      )

  pub clear-Done :
      (dev : Str) (s : Sys E)
      → IsExclusive view w0
      → IsOurs dev
      → Same s
      → Done (clear_volume_nbd_state v dev s).1
  clear-Done dev s x (inl (blank, e)) same =
      subst (λ (c : Str). Done (clear_volume_nbd_state v c s).1) (sym blank)
        (clear_blank-Done s x same e)
  clear-Done dev s x (inr e) same = clear_recorded-Done dev s x same e

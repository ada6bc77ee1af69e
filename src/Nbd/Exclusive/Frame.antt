-- ===== src/Nbd/Exclusive/Frame.antt =====
-- pkg/csi/nbd.go: a reservation leaves the files of other volumes and devices as they are.
use zerofs_csi_driver.Base.{
  ℕ, ◌≡◌, ◌∙◌, ◌≢◌, Bool, true, false, Option, List, [], ◌∷◌, Str, All, ◌===◌,
}
use zerofs_csi_driver.Host.{Env, Sys, Exec, Call, Stat, found, not_exist, Result, ok, err, perform}
use zerofs_csi_driver.Host.Keeps.{Keeps, keeps_rules, Keeps-seq, Keeps-bind}
use zerofs_csi_driver.Host.Calls.{is_quiet}
use zerofs_csi_driver.Host.Files.{is_own, touches, IsFileSystem}
use zerofs_csi_driver.Nbd.Devices.Quiet.{is_nbd_connected-Keeps}
use zerofs_csi_driver.Nbd.State.{
  volume_nbd_state_path, device_reservation_path, write_volume_nbd_state, remove_reservation,
  clear_volume_nbd_state,
}
use zerofs_csi_driver.Nbd.State.Quiet.{check-Keeps, ensure_run_dirs-Keeps, must_read_file-Keeps}
use zerofs_csi_driver.Nbd.Reserve.{
  note_volume, restore_reservation, reuse, remove_file, drop_if_stale, judge_reservation,
  collect_reservation, finish_reservation, claim, take_free, try_device, reserve_round, first_free,
}
use zerofs_csi_driver.Nbd.Exclusive.{===-distinct}
use zerofs_csi_driver.Nbd.Exclusive.Collect.{quiet-touches}

-- A path in the driver's directory that is not that of the volume's state file.
module _ {E : Env} (view : E.World → Str → Option Str) (fs : IsFileSystem E view) (v q : Str)
    (own : is_own q ≡ true) (n : volume_nbd_state_path v ≢ q) (r : Option Str) where
  abbrev pub Unchanged : Sys E → Type 0
  Unchanged s = view s.world q ≡ r

  pub other-Keeps : (c : Call) → touches c q ≡ false → Keeps Unchanged (perform c)
  unfolding perform
  other-Keeps c e = record { holds = λ s x. fs.untouched c s.world q own e ∙ x }

  pub quiet-Unchanged : (c : Call) → is_quiet c ≡ true → Keeps Unchanged (perform c)
  quiet-Unchanged c k = other-Keeps c (quiet-touches c q k)

  remove-Unchanged : Keeps Unchanged (perform (Call.remove (volume_nbd_state_path v)))
  remove-Unchanged = other-Keeps (Call.remove (volume_nbd_state_path v)) (===-distinct _ _ n)

  write-Unchanged :
      (x : Str) → Keeps Unchanged (perform (Call.write_file (volume_nbd_state_path v) x))
  write-Unchanged x = other-Keeps (Call.write_file (volume_nbd_state_path v) x) (===-distinct _ _ n)

  write_volume_nbd_state-Unchanged : (d : Str) → Keeps Unchanged (write_volume_nbd_state v d)
  unfolding write_volume_nbd_state
  write_volume_nbd_state-Unchanged d =
      Keeps-seq _ _ (ensure_run_dirs-Keeps quiet-Unchanged)
        (Keeps-bind _ _ (write-Unchanged _) (λ b. check-Keeps b _))

  remove_reservation-Unchanged :
      (d : Str) → device_reservation_path d ≢ q → Keeps Unchanged (remove_reservation d)
  unfolding remove_reservation
  remove_reservation-Unchanged [] m = search keeps_rules
  remove_reservation-Unchanged (c ∷ d) m =
      let gone = other-Keeps (Call.remove (device_reservation_path (c ∷ d))) (===-distinct _ _ m) in
      search (keeps_rules, gone)

  module _ (d : Str) (m : device_reservation_path d ≢ q) where
    abbrev res : Str
    res = device_reservation_path d

    reservation : (res === q) ≡ false
    reservation = ===-distinct _ _ m

    remove_res-Unchanged : Keeps Unchanged (perform (Call.remove res))
    remove_res-Unchanged = other-Keeps (Call.remove res) reservation

    create_res-Unchanged : Keeps Unchanged (perform (Call.create_excl res))
    create_res-Unchanged = other-Keeps (Call.create_excl res) reservation

    note_res-Unchanged : (x : Str) → Keeps Unchanged (perform (Call.write_string res x))
    note_res-Unchanged x = other-Keeps (Call.write_string res x) reservation

    remove_file-Unchanged : Keeps Unchanged (remove_file res)
    unfolding remove_file
    remove_file-Unchanged = search (keeps_rules, remove_res-Unchanged)

    drop_if_stale-Unchanged :
        (age : ℕ) (there : Stat) → Keeps Unchanged (drop_if_stale res age there)
    unfolding drop_if_stale
    drop_if_stale-Unchanged age not_exist = remove_file-Unchanged
    drop_if_stale-Unchanged age _ = search (keeps_rules, remove_file-Unchanged)

    judge_reservation-Unchanged :
        (age : ℕ) (owner : Str) → Keeps Unchanged (judge_reservation res age owner)
    unfolding judge_reservation
    judge_reservation-Unchanged age [] = remove_file-Unchanged
    judge_reservation-Unchanged age (c ∷ owner) =
        search (keeps_rules, quiet-Unchanged, drop_if_stale-Unchanged)

    collect_reservation-Unchanged : (there : Stat) → Keeps Unchanged (collect_reservation res there)
    unfolding collect_reservation
    collect_reservation-Unchanged (found age) =
        search (keeps_rules, must_read_file-Keeps quiet-Unchanged, judge_reservation-Unchanged)
    collect_reservation-Unchanged _ = search keeps_rules

    finish_reservation-Unchanged : (o : Result Unit) → Keeps Unchanged (finish_reservation res d o)
    unfolding finish_reservation
    finish_reservation-Unchanged (ok _) = search keeps_rules
    finish_reservation-Unchanged (err e) = search (keeps_rules, remove_res-Unchanged)

    claim-Unchanged : (created : Bool) → Keeps Unchanged (claim v d created)
    unfolding claim
    claim-Unchanged false = search keeps_rules
    claim-Unchanged true =
        search
          (
            keeps_rules, note_res-Unchanged, write_volume_nbd_state-Unchanged,
            finish_reservation-Unchanged,
          )
          depth 8

    take_free-Unchanged : Keeps Unchanged (take_free v d)
    unfolding take_free
    take_free-Unchanged =
        search
          (
            keeps_rules, quiet-Unchanged, create_res-Unchanged, collect_reservation-Unchanged,
            claim-Unchanged,
          )
          depth 8

    pub try_device-Unchanged : (o : Result Bool) → Keeps Unchanged (try_device v d o)
    unfolding try_device
    try_device-Unchanged (ok false) = take_free-Unchanged
    try_device-Unchanged (ok true) = search keeps_rules
    try_device-Unchanged (err e) = search keeps_rules

    reserve_round-Unchanged :
        (next : Exec E Str) → Keeps Unchanged next → Keeps Unchanged (reserve_round v d next)
    unfolding reserve_round
    reserve_round-Unchanged next x =
        search (keeps_rules, is_nbd_connected-Keeps quiet-Unchanged, try_device-Unchanged) depth 8

    note_volume-Unchanged : (created : Bool) → Keeps Unchanged (note_volume res v created)
    unfolding note_volume
    note_volume-Unchanged true = search (keeps_rules, note_res-Unchanged)
    note_volume-Unchanged false = search keeps_rules

    restore_reservation-Unchanged :
        (there : Stat) → Keeps Unchanged (restore_reservation res v there)
    unfolding restore_reservation
    restore_reservation-Unchanged not_exist =
        search (keeps_rules, create_res-Unchanged, note_volume-Unchanged)
    restore_reservation-Unchanged _ = search keeps_rules

    pub clear-Unchanged : Keeps Unchanged (clear_volume_nbd_state v d)
    unfolding clear_volume_nbd_state
    clear-Unchanged = Keeps-seq _ _ remove-Unchanged (remove_reservation-Unchanged d m)

    pub reuse-Unchanged : (there : Stat) → Keeps Unchanged (reuse v d there)
    unfolding reuse
    reuse-Unchanged (found age) =
        search (keeps_rules, quiet-Unchanged, restore_reservation-Unchanged) depth 8
    reuse-Unchanged _ = search (keeps_rules, clear-Unchanged)

  pub first_free-Unchanged :
      (ds : List Str)
      → All (λ d. device_reservation_path d ≢ q) ds
      → Keeps Unchanged (first_free v ds)
  unfolding first_free
  first_free-Unchanged [] x = search keeps_rules
  first_free-Unchanged (d ∷ ds) (m, x) = reserve_round-Unchanged d m _ (first_free-Unchanged ds x)

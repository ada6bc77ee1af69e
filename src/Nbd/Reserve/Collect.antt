-- ===== src/Nbd/Reserve/Collect.antt =====
-- Which reservations of other volumes are taken away, and which are honoured.
use zerofs_csi_driver.Base.{
  ℕ, ◌≡◌, refl, ◌∙◌, sym, ltb, ◌≤◌, true, false, Bool-cases, inl, inr, Option, none, some, [], ◌∷◌,
  Str, ◌===◌, trim_space, is_blank, arith, if◌then◌else◌,
}
use zerofs_csi_driver.Host.{
  Env, Sys, Exec, Call, Stat, found, not_exist, ok, perform, pure, ◌>>=◌, ◌>>◌,
}
use zerofs_csi_driver.Host.Succeeds.{Succeeds, succeeds_rules}
use zerofs_csi_driver.Host.Files.{is_own, IsFileSystem}
use zerofs_csi_driver.Nbd.State.{volume_nbd_state_path, device_reservation_path, must_read_file}
use zerofs_csi_driver.Nbd.Reserve.{
  two_hours, remove_file, drop_if_stale, judge_reservation, collect_reservation, claim, take_free,
}

-- What is left of a reservation: the text of it, unless it names no volume, or a volume without a
-- state file, or is older than two hours.
abbrev pub kept : Str → Option Str → ℕ → Str → Option Str
kept owner none age text = none
kept owner (some x) age text =
    if owner === [] then none else if ltb two_hours age then none else some text

some-none : {A : Type 0} {a : A} → some a ≡ none → ⊥
some-none e = absurd (cc)

module _ {E : Env} (view : E.World → Str → Option Str) (fs : IsFileSystem E view) (res text : Str)
    (own : is_own res ≡ true) where
  remove_file-view : (t : Sys E) → view (remove_file res t).1.world res ≡ none
  unfolding remove_file pure perform ◌>>=◌
  remove_file-view t = fs.remove t.world res own

  drop_if_stale-view :
      (age other : ℕ) (t : Sys E)
      → view t.world res ≡ some text
      → view (drop_if_stale res age (found other) t).1.world res
        ≡ (if ltb two_hours age then none else some text)
  unfolding drop_if_stale pure
  drop_if_stale-view age other t h = elim (Bool-cases (ltb two_hours age)) [
    | inl old ↦ rw old (remove_file-view t)
    | inr young ↦ rw young h
  ]

  judge_reservation-view :
      (age : ℕ) (owner : Str) (state : Option Str) (t : Sys E)
      → view t.world res ≡ some text
      → is_own (volume_nbd_state_path owner) ≡ true
      → view t.world (volume_nbd_state_path owner) ≡ state
      → view (judge_reservation res age owner t).1.world res ≡ kept owner state age text
  unfolding judge_reservation drop_if_stale perform ◌>>=◌
  judge_reservation-view age [] none t h k e = remove_file-view t
  judge_reservation-view age [] (some x) t h k e = remove_file-view t
  judge_reservation-view age (c ∷ v) none t h k e =
      rw (fs.stat_absent t.world _ k e) (remove_file-view _)
  judge_reservation-view age (c ∷ v) (some x) t h k e =
      let (other, there) = fs.stat_present t.world _ x k e in
      rw there (drop_if_stale-view age other _ (fs.untouched _ t.world res own refl ∙ h))

  collect_reservation-view :
      (age : ℕ) (state : Option Str) (s : Sys E)
      → view s.world res ≡ some text
      → is_own (volume_nbd_state_path (trim_space text)) ≡ true
      → view s.world (volume_nbd_state_path (trim_space text)) ≡ state
      → view (collect_reservation res (found age) s).1.world res
        ≡ kept (trim_space text) state age text
  unfolding collect_reservation must_read_file pure perform ◌>>=◌
  collect_reservation-view age state s h k e =
      rw (fs.read s.world res own, h)
        (judge_reservation-view age (trim_space text) state _
          (fs.untouched (Call.read_file res) s.world res own refl ∙ h) k
          (fs.untouched (Call.read_file res) s.world _ k refl ∙ e))

pub leb-ltb : (age : ℕ) → age ≤ two_hours → ltb two_hours age ≡ false
leb-ltb age h = ground arith

module _ {E : Env} where
  remove_file-Succeeds : (res : Str) → Succeeds {E = E} (remove_file res)
  unfolding remove_file
  remove_file-Succeeds res = search succeeds_rules

  drop_if_stale-Succeeds :
      (res : Str) (age : ℕ) (there : Stat) → Succeeds {E = E} (drop_if_stale res age there)
  unfolding drop_if_stale
  drop_if_stale-Succeeds res age not_exist = remove_file-Succeeds res
  drop_if_stale-Succeeds res age _ = search (succeeds_rules, remove_file-Succeeds)

  judge_reservation-Succeeds :
      (res : Str) (age : ℕ) (owner : Str) → Succeeds {E = E} (judge_reservation res age owner)
  unfolding judge_reservation
  judge_reservation-Succeeds res age [] = remove_file-Succeeds res
  judge_reservation-Succeeds res age (c ∷ v) = search (succeeds_rules, drop_if_stale-Succeeds)

  must_read_file-Succeeds : (path : Str) → Succeeds {E = E} (must_read_file path)
  unfolding must_read_file
  must_read_file-Succeeds path = search succeeds_rules

  pub collect_reservation-Succeeds :
      (res : Str) (there : Stat) → Succeeds {E = E} (collect_reservation res there)
  unfolding collect_reservation
  collect_reservation-Succeeds res (found age) =
      search (succeeds_rules, must_read_file-Succeeds, judge_reservation-Succeeds)
  collect_reservation-Succeeds res _ = search succeeds_rules

-- A reservation that is not taken away stands in the way of the exclusive create.
module _ {E : Env} (view : E.World → Str → Option Str) (fs : IsFileSystem E view) where
  refused-claim :
      (volume dev text : Str) (t : Sys E)
      → view t.world (device_reservation_path dev) ≡ some text
      → ((claim volume dev false t).0 ≡ ok none)
        × (view (claim volume dev false t).1.world (device_reservation_path dev) ≡ some text)
  unfolding claim pure
  refused-claim volume dev text t h = (refl, h)

  create-refused :
      (p x : Str) (w : E.World)
      → is_own p ≡ true
      → view w p ≡ some x
      → (E.answer (Call.create_excl p) w).0 ≡ false
  create-refused p x w own h = elim (Bool-cases (E.answer (Call.create_excl p) w).0) [
    | inl yes_created ↦ absurd (some-none (sym h ∙ fs.create w p own yes_created))
    | inr refused_it ↦ refused_it
  ]

  -- The second half of `take_free`.
  create_step :
      (volume dev text : Str) (t : Sys E)
      → is_own (device_reservation_path dev) ≡ true
      → view t.world (device_reservation_path dev) ≡ some text
      → let m : Exec E (Option Str) =
          perform (Call.create_excl (device_reservation_path dev)) >>= claim volume dev in
        ((m t).0 ≡ ok none) × (view (m t).1.world (device_reservation_path dev) ≡ some text)
  unfolding perform ◌>>=◌
  create_step volume dev text t own h =
      let lost = create-refused (device_reservation_path dev) text t.world own h in
      rw lost (refused-claim volume dev text _ (fs.create_fails t.world _ own lost ∙ h))

  honoured :
      (volume dev text x : Str) (age : ℕ) (there : Stat) (t : Sys E)
      → is_own (device_reservation_path dev) ≡ true
      → is_own (volume_nbd_state_path (trim_space text)) ≡ true
      → view t.world (device_reservation_path dev) ≡ some text
      → view t.world (volume_nbd_state_path (trim_space text)) ≡ some x
      → is_blank text ≡ false
      → there ≡ found age
      → age ≤ two_hours
      → let m : Exec E (Option Str) =
          (collect_reservation (device_reservation_path dev) there
            >> (perform (Call.create_excl (device_reservation_path dev)) >>= claim volume dev)) in
        ((m t).0 ≡ ok none) × (view (m t).1.world (device_reservation_path dev) ≡ some text)
  unfolding ◌>>=◌
  honoured volume dev text x age there t own owner h e b r a =
      let after =
        collect_reservation-view view fs (device_reservation_path dev) text own age (some x) t h
          owner e in
      rw (r, (collect_reservation-Succeeds (device_reservation_path dev) (found age)).returns t)
        (create_step volume dev text
          (collect_reservation (device_reservation_path dev) (found age) t).1 own
          (after ∙ rw (b, leb-ltb age a) refl))

  -- A device whose reservation names a volume with a state file, and is at most two hours old, is not
  -- taken, and its reservation stays as it is: `take_free` goes on to the next device. The file system
  -- is as assumed, and the paths are in the driver's directory.
  pub take_free-honours :
      (volume dev text x : Str) (age : ℕ) (s : Sys E)
      → is_own (device_reservation_path dev) ≡ true
      → is_own (volume_nbd_state_path (trim_space text)) ≡ true
      → view s.world (device_reservation_path dev) ≡ some text
      → view s.world (volume_nbd_state_path (trim_space text)) ≡ some x
      → is_blank text ≡ false
      → (E.answer (Call.stat (device_reservation_path dev)) s.world).0 ≡ found age
      → age ≤ two_hours
      → ((take_free volume dev s).0 ≡ ok none)
        × (view (take_free volume dev s).1.world (device_reservation_path dev) ≡ some text)
  unfolding take_free perform ◌>>=◌
  take_free-honours volume dev text x age s own owner h e b r a =
      honoured volume dev text x age _ _ own owner
        (fs.untouched (Call.stat (device_reservation_path dev)) s.world _ own refl ∙ h)
        (fs.untouched (Call.stat (device_reservation_path dev)) s.world _ owner refl ∙ e) b r a

  -- After the look at a reservation whose age is known, it is still there, with its text, if it names a
  -- volume that has a state file and is at most two hours old. Otherwise it is gone: also, after
  -- two hours, that of a volume that still has its state file. The file system is as assumed, and the
  -- paths are in the driver's directory.
  pub collect_reservation-kept :
      (res text : Str) (age : ℕ) (s : Sys E)
      → is_own res ≡ true
      → is_own (volume_nbd_state_path (trim_space text)) ≡ true
      → view s.world res ≡ some text
      → view (collect_reservation res (found age) s).1.world res
        ≡ kept (trim_space text) (view s.world (volume_nbd_state_path (trim_space text))) age text
  collect_reservation-kept res text age s own owner h =
      collect_reservation-view view fs res text own age _ s h owner refl

-- ===== src/Host/Files.antt =====
-- What the driver relies on of the file system, for its own files under /run/zerofs-csi: a view of
-- their contents, and how each call reads and changes it. Nothing else touches these files.
use zerofs_csi_driver.Base.{
  ◌≡◌, refl, ◌⊎◌, Bool, true, false, Option, none, some, [], Str, codes, ◌===◌, ℕ,
}
use zerofs_csi_driver.Base.Text.{has_prefix}
use zerofs_csi_driver.Host.Calls.{is_change}
use zerofs_csi_driver.Host.{Env, Call, found, not_exist, Read, contents, missing}

-- The calls that may change the file at a path.
abbrev pub touches : Call → Str → Bool
touches (Call.write_file q x) p = q === p
touches (Call.create_excl q) p = q === p
touches (Call.write_string q x) p = q === p
touches (Call.remove q) p = q === p
touches _ p = false

pub change-touches : (c : Call) (p : Str) → is_change c ≡ true → touches c p ≡ false
change-touches (Call.create_secret x) p h = refl
change-touches (Call.update_secret x) p h = refl
change-touches (Call.delete_secret namespace name) p h = refl
change-touches (Call.create_pod x) p h = refl
change-touches (Call.delete_pod namespace name) p h = refl
change-touches (Call.force_delete_pod namespace name) p h = refl
change-touches _ p h = absurd (cc)

abbrev pub is_own : Str → Bool
is_own p = has_prefix p (codes "/run/zerofs-csi/")

abbrev pub read_of : Option Str → Read
read_of none = missing
read_of (some x) = contents x

-- A write may fail; the driver may read and remove its own files.
pub record IsFileSystem (E : Env) (view : E.World → Str → Option Str) : Type 0 where
  pub untouched :
      (c : Call) (w : E.World) (p : Str)
      → is_own p ≡ true
      → touches c p ≡ false
      → view (E.answer c w).1 p ≡ view w p
  pub read :
      (w : E.World) (p : Str)
      → is_own p ≡ true
      → (E.answer (Call.read_file p) w).0 ≡ read_of (view w p)
  pub write :
      (w : E.World) (p x : Str)
      → is_own p ≡ true
      → (E.answer (Call.write_file p x) w).0 ≡ true
      → view (E.answer (Call.write_file p x) w).1 p ≡ some x
  pub create :
      (w : E.World) (p : Str)
      → is_own p ≡ true
      → (E.answer (Call.create_excl p) w).0 ≡ true
      → view w p ≡ none
  pub create_fails :
      (w : E.World) (p : Str)
      → is_own p ≡ true
      → (E.answer (Call.create_excl p) w).0 ≡ false
      → view (E.answer (Call.create_excl p) w).1 p ≡ view w p
  pub remove :
      (w : E.World) (p : Str) → is_own p ≡ true → view (E.answer (Call.remove p) w).1 p ≡ none
  pub stat_absent :
      (w : E.World) (p : Str)
      → is_own p ≡ true
      → view w p ≡ none
      → (E.answer (Call.stat p) w).0 ≡ not_exist
  pub stat_present :
      (w : E.World) (p x : Str)
      → is_own p ≡ true
      → view w p ≡ some x
      → (age : ℕ) × ((E.answer (Call.stat p) w).0 ≡ found age)

-- What more an exclusive reservation takes: a file that is created is empty, the driver's note in it
-- is not lost, and a state file that cannot be written stays as it was or is left empty.
pub record IsReliable (E : Env) (view : E.World → Str → Option Str) : Type 0 where
  pub files : IsFileSystem E view
  pub created :
      (w : E.World) (p : Str)
      → is_own p ≡ true
      → (E.answer (Call.create_excl p) w).0 ≡ true
      → view (E.answer (Call.create_excl p) w).1 p ≡ some []
  pub noted :
      (w : E.World) (p x : Str)
      → is_own p ≡ true
      → view w p ≡ some []
      → view (E.answer (Call.write_string p x) w).1 p ≡ some x
  pub write_fails :
      (w : E.World) (p x : Str)
      → is_own p ≡ true
      → (E.answer (Call.write_file p x) w).0 ≡ false
      → (view (E.answer (Call.write_file p x) w).1 p ≡ view w p)
        ⊎ (view (E.answer (Call.write_file p x) w).1 p ≡ some [])

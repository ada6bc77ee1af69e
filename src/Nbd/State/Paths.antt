-- ===== src/Nbd/State/Paths.antt =====
-- pkg/csi/nbd.go: the paths of the state files and of the reservations, for volumes and devices with
-- plain names.
use mathlib.Core.List.{append_cancel_left}
use zerofs_csi_driver.Base.{
  ◌≡◌, sym, ap, subst, ◌∙◌, ◌≢◌, true, false, ◌++◌, Str, codes, trim_space, All,
}
use zerofs_csi_driver.Base.Text.{is_space, has_prefix-append}
use zerofs_csi_driver.Base.Text.Trim.{trim_space-none}
use zerofs_csi_driver.Base.FilePath.Names.{
  NoSlash, IsName, under, join_path-run_dir, join_path-by_device_dir,
}
use zerofs_csi_driver.Host.Files.{is_own}
use zerofs_csi_driver.Nbd.Devices.Names.{
  IsDevice, IsDevice-trim, IsNumbered, numbered, nbd_name, nbd_name-IsName, nbd_name-base,
}
use zerofs_csi_driver.Nbd.State.{
  run_dir, by_device_dir, volume_nbd_state_path, device_reservation_path,
}

-- A volume's ID: the name of a file, without spaces.
pub record IsVolume (v : Str) : Type 0 where
  pub name : IsName v
  pub no_space : All (λ c. is_space c ≡ false) v

pub IsVolume-trim : (v : Str) → IsVolume v → trim_space v ≡ v
IsVolume-trim v h = trim_space-none v h.no_space

pub state_path-under : (v : Str) → IsVolume v → volume_nbd_state_path v ≡ under run_dir v
unfolding volume_nbd_state_path
state_path-under v h = join_path-run_dir v h.name

reservation_path-under :
    (d n : Str)
    → IsDevice d
    → IsNumbered d n
    → device_reservation_path d ≡ under by_device_dir (nbd_name n)
unfolding device_reservation_path
reservation_path-under d n h k =
    rw (IsDevice-trim d h, nbd_name-base d n k)
      (join_path-by_device_dir (nbd_name n) (nbd_name-IsName d n k))

pub state_path-own : (v : Str) → IsVolume v → is_own (volume_nbd_state_path v) ≡ true
state_path-own v h = rw (state_path-under v h) (has_prefix-append (codes "/run/zerofs-csi/") v)

pub reservation_path-own : (d : Str) → IsDevice d → is_own (device_reservation_path d) ≡ true
reservation_path-own d h =
    let (n, k) = numbered d h in
    rw (reservation_path-under d n h k)
      (has_prefix-append (codes "/run/zerofs-csi/") (codes "by-device/nbd" ++ n))

pub state_path-injective :
    (v u : Str)
    → IsVolume v
    → IsVolume u
    → volume_nbd_state_path v ≡ volume_nbd_state_path u
    → v ≡ u
state_path-injective v u h k e =
    append_cancel_left (codes "/run/zerofs-csi/") v u
      (sym (state_path-under v h) ∙ (e ∙ state_path-under u k))

-- The two kinds of file are in different directories.
pub state_path-reservation :
    (v d : Str) → IsVolume v → IsDevice d → volume_nbd_state_path v ≢ device_reservation_path d
state_path-reservation v d h k e =
    let (n, l) = numbered d k in
    let same =
      append_cancel_left (codes "/run/zerofs-csi/") v (codes "by-device/" ++ nbd_name n)
        (sym (state_path-under v h) ∙ (e ∙ reservation_path-under d n k l)) in
    let plain = subst NoSlash same (h.name).plain in absurd (cc (plain.1.1.1.1.1.1.1.1.1.0))

pub reservation_path-injective :
    (d e : Str)
    → IsDevice d
    → IsDevice e
    → device_reservation_path d ≡ device_reservation_path e
    → d ≡ e
reservation_path-injective d e h k same =
    let (n, l) = numbered d h in
    let (m, o) = numbered e k in
    l.path
    ∙ (ap (λ (x : Str). codes "/dev/nbd" ++ x)
          (append_cancel_left (codes "/run/zerofs-csi/by-device/nbd") n m
            (sym (reservation_path-under d n h l) ∙ (same ∙ reservation_path-under e m k o)))
        ∙ sym o.path)

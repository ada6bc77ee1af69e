-- ===== src/Examples/Paths.antt =====
-- What the applications need of the names and paths of the requests.
use zerofs_csi_driver.Base.{◌≡◌, ◌≢◌, refl, true, [], codes}
use zerofs_csi_driver.Base.FilePath.{join_path}
use zerofs_csi_driver.Host.Files.{is_own}
use zerofs_csi_driver.Nbd.State.{volume_nbd_state_path}

pub v1_given : codes "v1" ≢ []
v1_given e = absurd (cc)

pub t_given : codes "/t" ≢ []
t_given e = absurd (cc)

pub v1_own : is_own (volume_nbd_state_path (codes "v1")) ≡ true
unfolding volume_nbd_state_path join_path
v1_own = refl

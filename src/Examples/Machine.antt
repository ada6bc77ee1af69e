-- ===== src/Examples/Machine.antt =====
-- A machine with one NBD device and a cluster whose pod replies always the same.
use zerofs_csi_driver.Base.{
  ℕ, ◌≡◌, refl, Bool, true, false, Option, none, some, List, [], ◌∷◌, Str, codes, ◌===◌, ===_refl,
  if◌then◌else◌, arith,
}
use zerofs_csi_driver.Base.Text.{Dict, has_prefix}
use zerofs_csi_driver.Kube.{Secret, Pod, PersistentVolume}
use zerofs_csi_driver.Host.{
  Env, Sys, Call, missing, Reply, Output, Stat, found, not_exist, Removal, removed, absent, Answer,
  got,
}
use zerofs_csi_driver.Nbd.Exclusive.Unfailing.{IsWritable}
use zerofs_csi_driver.Host.Files.{is_own, touches, read_of, IsFileSystem, IsReliable}

-- The files, by path.
abbrev pub Files : Type 0
Files = Str → Option Str

abbrev pub with_file : Str → Option Str → Files → Files
with_file p x w q = if p === q then x else w q

abbrev pub no_files : Files
no_files p = none

own-not_sys : (p : Str) → is_own p ≡ true → has_prefix p (codes "/sys/") ≡ false
own-not_sys [] h = absurd (cc)
own-not_sys (c ∷ []) h = ground arith
own-not_sys (c ∷ d ∷ p) h = ground arith

abbrev pub stat_of : ℕ → Option Str → Stat
stat_of age none = not_exist
stat_of age (some x) = found age

abbrev pub removal : Option Str → Removal
removal none = absent
removal (some x) = removed

abbrev create : Str → Option Str → Files → Bool × Files
create p none w = (true, with_file p (some []) w)
create p (some x) w = (false, w)

abbrev pub settings : Dict
settings =
    (codes "podReadyTimeoutSeconds", codes "60")
    ∷ (codes "storageURL", codes "s3://bucket/data")
    ∷ (codes "awsEndpoint", codes "https://s3.example")
    ∷ (codes "awsCredentialsSecretName", codes "aws")
    ∷ []

abbrev class_parameters : Dict
class_parameters =
    (codes "deleteDataOnPVCDelete", codes "true") ∷ (codes "configMapName", codes "cm") ∷ []

abbrev secret : Secret
secret = record {
  name = codes "s";
  namespace = codes "ns";
  resource_version = codes "1";
  kind = codes "Opaque";
  entries = (codes "password", codes "p") ∷ (codes "username", codes "u") ∷ [];
}

abbrev volume_object : PersistentVolume
volume_object = record {
  name = codes "pv";
  storage_class_name = codes "fast";
  claim_ref = none;
  volume_handle = none;
}

-- The age of every file, the programs, and the reply about a pod.
module _ (age : ℕ) (run : Str → List Str → Output) (pod : Answer Pod) where
  abbrev respond : (c : Call) → Files → Reply c × Files
  respond (Call.stat p) w = (stat_of age (w p), w)
  respond (Call.read_file p) w =
      (if has_prefix p (codes "/sys/") then missing else read_of (w p), w)
  respond (Call.write_file p x) w = (true, with_file p (some x) w)
  respond (Call.create_excl p) w = create p (w p) w
  respond (Call.write_string p x) w = (true, with_file p (some x) w)
  respond (Call.remove p) w = (removal (w p), with_file p none w)
  respond (Call.mkdir_all p) w = (true, w)
  respond (Call.glob p) w =
      (some (codes "/dev/nbd10" ∷ codes "/dev/nbd2" ∷ codes "/dev/nbd2p1" ∷ []), w)
  respond (Call.exec program args) w = (run program args, w)
  respond (Call.sleep n) w = (tt, w)
  respond Call.ctx_done w = (false, w)
  respond Call.lock w = (tt, w)
  respond Call.unlock w = (tt, w)
  respond (Call.observe o t) w = (tt, w)
  respond (Call.stage_error o t) w = (tt, w)
  respond (Call.start_timer n) w = (2, w)
  respond (Call.get_config_map ns n) w = (got settings, w)
  respond (Call.get_secret ns n) w = (got secret, w)
  respond (Call.get_pod ns n) w = (pod, w)
  respond (Call.get_daemon_set ns n) w = (got (codes "uid"), w)
  respond (Call.create_secret x) w = (got tt, w)
  respond (Call.update_secret x) w = (got tt, w)
  respond (Call.delete_secret ns n) w = (got tt, w)
  respond (Call.create_pod x) w = (got tt, w)
  respond (Call.delete_pod ns n) w = (got tt, w)
  respond (Call.force_delete_pod ns n) w = (got tt, w)
  respond (Call.get_persistent_volume n) w = (got volume_object, w)
  respond Call.list_persistent_volumes w = (got [], w)
  respond (Call.get_claim ns n) w = (got none, w)
  respond (Call.get_storage_class n) w = (got class_parameters, w)
  respond (Call.load_aws_config r k x) w = (true, w)
  respond (Call.list_objects b p) w = (1, w)
  respond Call.next_page w = (got (some (codes "data/v1/a") ∷ none ∷ []), w)
  respond (Call.delete_objects b ks) w = (got tt, w)
  respond (Call.get_env name) w = (codes "n1", w)
  respond (Call.new_server timeout) w = (tt, w)
  respond (Call.register r) w = (tt, w)
  respond Call.go_reconcile w = (tt, w)
  respond (Call.listen network p) w = (true, w)
  respond (Call.go_serve p) w = (tt, w)
  respond Call.await_done w = (codes "context canceled", w)
  respond Call.graceful_stop w = (tt, w)
  respond (Call.parse_flags defaults) w = (defaults, w)
  respond Call.get_config w = (true, w)
  respond (Call.new_manager address namespace) w = (true, w)
  respond (Call.add_driver d) w = (true, w)
  respond Call.start_manager w = (true, w)

  abbrev pub machine : Env
  machine = record { World = Files; answer = respond }

  create-other :
      (p q : Str) (x : Option Str) (w : Files) → (p === q) ≡ false → (create p x w).1 q ≡ w q
  create-other p q none w h = rw h refl
  create-other p q (some x) w h = refl

  respond-untouched :
      (c : Call) (w : Files) (p : Str) → touches c p ≡ false → (respond c w).1 p ≡ w p
  respond-untouched (Call.write_file q x) w p h = rw h refl
  respond-untouched (Call.create_excl q) w p h = create-other q p (w q) w h
  respond-untouched (Call.write_string q x) w p h = rw h refl
  respond-untouched (Call.remove q) w p h = rw h refl
  respond-untouched _ w p h = refl

  create-fresh : (p : Str) (x : Option Str) (w : Files) → (create p x w).0 ≡ true → x ≡ none
  create-fresh p none w h = refl
  create-fresh p (some x) w h = absurd (cc)

  create-failed :
      (p : Str) (x : Option Str) (w : Files) → (create p x w).0 ≡ false → (create p x w).1 p ≡ w p
  create-failed p none w h = absurd (cc)
  create-failed p (some x) w h = refl

  pub machine-IsFileSystem : IsFileSystem machine (λ w. w)
  machine-IsFileSystem = record {
    untouched = λ c w p own h. respond-untouched c w p h;
    read = λ w p own. rw (own-not_sys p own) refl;
    write = λ w p x own h. rw (===_refl p) refl;
    create = λ w p own h. create-fresh p (w p) w h;
    create_fails = λ w p own h. create-failed p (w p) w h;
    remove = λ w p own. rw (===_refl p) refl;
    stat_absent = λ w p own h. rw h refl;
    stat_present = λ w p x own h. (age, rw h refl);
  }

  create-empty :
      (p : Str) (x : Option Str) (w : Files)
      → (create p x w).0 ≡ true
      → (create p x w).1 p ≡ some []
  create-empty p none w h = rw (===_refl p) refl
  create-empty p (some x) w h = absurd (cc)

  pub machine-IsWritable : IsWritable machine (λ w. w)
  machine-IsWritable = record {
    made = λ w p. refl;
    written = λ w p x own. refl;
    creates = λ w p own h. rw h refl;
  }

  pub machine-IsReliable : IsReliable machine (λ w. w)
  machine-IsReliable = record {
    files = machine-IsFileSystem;
    created = λ w p own h. create-empty p (w p) w h;
    noted = λ w p x own h. rw (===_refl p) refl;
    write_fails = λ w p x own h. absurd (cc (h));
  }

-- The files at first, and no call made.
abbrev pub start :
    {age : ℕ} {run : Str → List Str → Output} {pod : Answer Pod} → Files → Sys (machine age run pod)
start w = record { world = w; log = [] }

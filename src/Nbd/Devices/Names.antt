-- ===== src/Nbd/Devices/Names.antt =====
-- pkg/csi/nbd.go: the shape of the paths that name NBD devices.
use mathlib.Core.List.{Memᴰ}
use zerofs_csi_driver.Base.{
  ◌≡◌, refl, ap, ◌∙◌, ℕ, Bool, true, false, ◌&&◌, Option, none, some, List, [], ◌∷◌, ◌++◌, Str,
  codes, ◌==◌, trim_space, All, All-append, if-cases, filter, subst, Bool-cases, inl, inr, ltb,
  arith,
}
use zerofs_csi_driver.Base.Text.{is_space, drop_prefix}
use zerofs_csi_driver.Base.Text.Trim.{trim_space-none}
use zerofs_csi_driver.Base.Text.Decimal.{is_digit}
use zerofs_csi_driver.Base.FilePath.{base}
use zerofs_csi_driver.Base.FilePath.Names.{IsName, base-dev}
use zerofs_csi_driver.Nbd.Devices.{
  is_nbd_device_path, digits_left, all_digits, device_number, insert_device, sort_devices,
}

abbrev pub IsDevice : Str → Type 0
IsDevice d = is_nbd_device_path d ≡ true

drop_prefix-some : (s t r : Str) → drop_prefix s t ≡ some r → s ≡ t ++ r
drop_prefix-some s [] r h = ground arith
drop_prefix-some [] (d ∷ t) r h = absurd (cc)
drop_prefix-some (c ∷ s) (d ∷ t) r h = ground (arith, drop_prefix-some s t r)

-- The digits behind "/dev/nbd".
pub record IsNumbered (d n : Str) : Type 0 where
  pub path : d ≡ codes "/dev/nbd" ++ n
  pub digits : all_digits n ≡ true

digits_left-some :
    (o : Option Str) → digits_left o ≡ true → (n : Str) × (o ≡ some n) × (all_digits n ≡ true)
unfolding digits_left
digits_left-some none h = absurd (cc)
digits_left-some (some []) h = absurd (cc)
digits_left-some (some (c ∷ s)) h = (c ∷ s, refl, h)

pub numbered : (d : Str) → IsDevice d → (n : Str) × IsNumbered d n
unfolding is_nbd_device_path
numbered d h =
    let (n, e, k) = digits_left-some (drop_prefix d (codes "/dev/nbd")) h in
    (n, record { path = drop_prefix-some d (codes "/dev/nbd") n e; digits = k })

and-true : (a b : Bool) → (a && b) ≡ true → (a ≡ true) × (b ≡ true)
and-true true b h = (refl, h)
and-true false b h = absurd (cc)

digit-not_slash : (c : ℕ) → is_digit c ≡ true → (c == b'/') ≡ false
digit-not_slash c h = ground arith

digit-not_space : (c : ℕ) → is_digit c ≡ true → is_space c ≡ false
unfolding is_space
digit-not_space c h = ground arith

digits-All :
    (P : ℕ → Type 0)
    → ((c : ℕ) → is_digit c ≡ true → P c)
    → (n : Str) → all_digits n ≡ true
    → All P n
unfolding all_digits
digits-All P f [] h = tt
digits-All P f (c ∷ n) h =
    let (k, rest) = and-true (is_digit c) (all_digits n) h in (f c k, digits-All P f n rest)

abbrev pub nbd_name : Str → Str
nbd_name n = codes "nbd" ++ n

pub nbd_name-IsName : (d n : Str) → IsNumbered d n → IsName (nbd_name n)
nbd_name-IsName d n h = record {
  plain = (refl, (refl, (refl, digits-All (λ c. (c == b'/') ≡ false) digit-not_slash n h.digits)));
  given = refl;
  not_here = refl;
  not_up = refl;
}

pub nbd_name-base : (d n : Str) → IsNumbered d n → base d ≡ nbd_name n
nbd_name-base d n h = ap base h.path ∙ base-dev (nbd_name n) (nbd_name-IsName d n h).plain refl

IsNumbered-no_space : (d n : Str) → IsNumbered d n → All (λ c. is_space c ≡ false) d
unfolding is_space
IsNumbered-no_space d n h = rw (h.path) (
    All-append (λ c. is_space c ≡ false) (codes "/dev/nbd") n
      (refl, (refl, (refl, (refl, (refl, (refl, (refl, (refl, tt))))))))
      (digits-All (λ c. is_space c ≡ false) digit-not_space n h.digits))

pub IsDevice-trim : (d : Str) → IsDevice d → trim_space d ≡ d
IsDevice-trim d h = let (n, k) = numbered d h in trim_space-none d (IsNumbered-no_space d n k)

-- The devices that are listed are NBD devices.
insert_device-All :
    (P : Str → Type 0) (d : Str) (ds : List Str) → P d → All P ds → All P (insert_device d ds)
unfolding insert_device
insert_device-All P d [] h k = (h, tt)
insert_device-All P d (e ∷ ds) h (ke, k) =
    if-cases (All P) (ltb (device_number e) (device_number d)) (e ∷ insert_device d ds) (d ∷ e ∷ ds)
      (ke, insert_device-All P d ds h k) (h, (ke, k))

pub sort_devices-All : (P : Str → Type 0) (ds : List Str) → All P ds → All P (sort_devices ds)
unfolding sort_devices
sort_devices-All P [] h = tt
sort_devices-All P (d ∷ ds) (h, k) = insert_device-All P d _ h (sort_devices-All P ds k)

-- No NBD device is lost by the filter and the sort.
insert_device-head : (d : Str) (ds : List Str) → Memᴰ d (insert_device d ds)
unfolding insert_device
insert_device-head d [] = Memᴰ.head refl
insert_device-head d (e ∷ ds) =
    if-cases (Memᴰ d) (ltb (device_number e) (device_number d)) (e ∷ insert_device d ds)
      (d ∷ e ∷ ds) (Memᴰ.tail (insert_device-head d ds)) (Memᴰ.head refl)

insert_device-tail : (d e : Str) (ds : List Str) → Memᴰ e ds → Memᴰ e (insert_device d ds)
unfolding insert_device
insert_device-tail d e [] m = elim m [ ]
insert_device-tail d e (c ∷ ds) (Memᴰ.head x) =
    if-cases (Memᴰ e) (ltb (device_number c) (device_number d)) (c ∷ insert_device d ds)
      (d ∷ c ∷ ds) (Memᴰ.head x) (Memᴰ.tail (Memᴰ.head x))
insert_device-tail d e (c ∷ ds) (Memᴰ.tail m) =
    if-cases (Memᴰ e) (ltb (device_number c) (device_number d)) (c ∷ insert_device d ds)
      (d ∷ c ∷ ds) (Memᴰ.tail (insert_device-tail d e ds m)) (Memᴰ.tail (Memᴰ.tail m))

sort_devices-Mem : (e : Str) (ds : List Str) → Memᴰ e ds → Memᴰ e (sort_devices ds)
unfolding sort_devices
sort_devices-Mem e [] m = elim m [ ]
sort_devices-Mem e (d ∷ ds) (Memᴰ.head x) =
    subst (λ (c : Str). Memᴰ e (insert_device c (sort_devices ds))) x
      (insert_device-head e (sort_devices ds))
sort_devices-Mem e (d ∷ ds) (Memᴰ.tail m) =
    insert_device-tail d e (sort_devices ds) (sort_devices-Mem e ds m)

filter-Mem :
    (e : Str) (ds : List Str) → IsDevice e → Memᴰ e ds → Memᴰ e (filter is_nbd_device_path ds)
filter-Mem e [] h m = elim m [ ]
filter-Mem e (d ∷ ds) h (Memᴰ.head x) =
    subst (λ (c : Str). Memᴰ e (filter is_nbd_device_path (c ∷ ds))) x (rw h (Memᴰ.head refl))
filter-Mem e (d ∷ ds) h (Memᴰ.tail m) =
    if-cases (Memᴰ e) (is_nbd_device_path d) (d ∷ filter is_nbd_device_path ds)
      (filter is_nbd_device_path ds) (Memᴰ.tail (filter-Mem e ds h m)) (filter-Mem e ds h m)

filter-devices : (ds : List Str) → All IsDevice (filter is_nbd_device_path ds)
filter-devices [] = tt
filter-devices (d ∷ ds) = elim (Bool-cases (is_nbd_device_path d)) [
  | inl device ↦ rw device (device, filter-devices ds)
  | inr other ↦ rw other (filter-devices ds)
]

-- The devices that `listNBDDevices` returns for the matches of its pattern.
abbrev pub devices_of : List Str → List Str
devices_of matches = sort_devices (filter is_nbd_device_path matches)

pub devices_of-All : (matches : List Str) → All IsDevice (devices_of matches)
devices_of-All matches = sort_devices-All IsDevice _ (filter-devices matches)

pub devices_of-Mem :
    (e : Str) (matches : List Str) → IsDevice e → Memᴰ e matches → Memᴰ e (devices_of matches)
devices_of-Mem e matches h m = sort_devices-Mem e _ (filter-Mem e matches h m)

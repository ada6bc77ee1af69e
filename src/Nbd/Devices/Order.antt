-- ===== src/Nbd/Devices/Order.antt =====
-- pkg/csi/nbd.go: the order in which devices are tried.
use mathlib.Core.List.{Perm}
use mathlib.Core.List.Perm
use zerofs_csi_driver.Base.{
  ℕ, ◌^◌, ◌≤◌, ◌<◌, ltb, ◌≡◌, refl, ap, ◌∙◌, ◌≢◌, true, false, Bool-cases, inl, inr, some, List, [],
  ◌∷◌, ◌++◌, Str, codes, All, arith, filter, if◌then◌else◌,
}
use zerofs_csi_driver.Base.Text.Decimal.{is_digit, format_nat, scan-format_nat}
use zerofs_csi_driver.Base.Text.Decimal.Digits.{format_nat-IsWord, format_nat-All}
use zerofs_csi_driver.Host.{Env, Sys, Call, ok, perform, pure, ◌>>=◌}
use zerofs_csi_driver.Nbd.Devices.{
  is_nbd_device_path, all_digits, digits_left, number_of, device_number, insert_device,
  sort_devices, listed, list_nbd_devices,
}
use zerofs_csi_driver.Nbd.Devices.Names.{IsNumbered, nbd_name-base}

-- The path of the device with a number.
abbrev pub nbd_device : ℕ → Str
nbd_device n = codes "/dev/nbd" ++ format_nat n

abbrev pub nbd_devices : List ℕ → List Str
nbd_devices [] = []
nbd_devices (n ∷ ns) = nbd_device n ∷ nbd_devices ns

abbrev pub Ascending : List ℕ → Type 0
Ascending [] = Unit
Ascending (n ∷ []) = Unit
Ascending (n ∷ m ∷ ns) = (n ≤ m) × Ascending (m ∷ ns)

-- Matches of the pattern /dev/nbd*: the devices with these numbers, and other paths, such as those of
-- partitions.
pub data Matches : List Str → List ℕ → Type 0 where
  no_match : Matches [] []
  device :
      (n : ℕ) (matches : List Str) (ns : List ℕ)
      → n < 2 ^ 63
      → Matches matches ns
      → Matches (nbd_device n ∷ matches) (n ∷ ns)
  other :
      (path : Str) (matches : List Str) (ns : List ℕ)
      → is_nbd_device_path path ≡ false
      → Matches matches ns
      → Matches (path ∷ matches) ns

all_digits-of : (s : Str) → All (λ c. is_digit c ≡ true) s → all_digits s ≡ true
unfolding all_digits
all_digits-of [] h = refl
all_digits-of (c ∷ s) (h, k) = rw (h, all_digits-of s k) refl

nbd_device-IsNumbered : (n : ℕ) → IsNumbered (nbd_device n) (format_nat n)
nbd_device-IsNumbered n = record { path = refl; digits = all_digits-of _ (format_nat-All n) }

digits_left-given : (s : Str) → s ≢ [] → all_digits s ≡ true → digits_left (some s) ≡ true
unfolding digits_left
digits_left-given [] h k = absurd (h refl)
digits_left-given (c ∷ s) h k = k

nbd_device-is_device : (n : ℕ) → is_nbd_device_path (nbd_device n) ≡ true
unfolding is_nbd_device_path
nbd_device-is_device n =
    digits_left-given (format_nat n) ((format_nat-IsWord n).given)
      ((nbd_device-IsNumbered n).digits)

-- The number is read back.
device_number-nbd_device : (n : ℕ) → n < 2 ^ 63 → device_number (nbd_device n) ≡ n
unfolding device_number number_of
device_number-nbd_device n h =
    rw (nbd_name-base (nbd_device n) (format_nat n) (nbd_device-IsNumbered n), scan-format_nat n)
      (ground arith)

abbrev InRange : List ℕ → Type 0
InRange ns = All (λ n. n < 2 ^ 63) ns

-- The sort, on the numbers.
insert_number : ℕ → List ℕ → List ℕ
insert_number n [] = n ∷ []
insert_number n (m ∷ ms) = let rest = insert_number n ms in if ltb m n then m ∷ rest else n ∷ m ∷ ms

-- A number in front is no greater.
abbrev StartsAbove : ℕ → List ℕ → Type 0
StartsAbove k [] = Unit
StartsAbove k (n ∷ ns) = k ≤ n

Ascending-cons : (n : ℕ) (ns : List ℕ) → StartsAbove n ns → Ascending ns → Ascending (n ∷ ns)
Ascending-cons n [] h k = tt
Ascending-cons n (m ∷ ns) h k = (h, k)

Ascending-parts : (n : ℕ) (ns : List ℕ) → Ascending (n ∷ ns) → StartsAbove n ns × Ascending ns
Ascending-parts n [] h = (tt, tt)
Ascending-parts n (m ∷ ns) h = h

insert-StartsAbove :
    (k n : ℕ) (ns : List ℕ) → k ≤ n → StartsAbove k ns → StartsAbove k (insert_number n ns)
unfolding insert_number
insert-StartsAbove k n [] h x = h
insert-StartsAbove k n (m ∷ ms) h x = elim (Bool-cases (ltb m n)) [
  | inl less ↦ rw less x
  | inr more ↦ rw more h
]

insert-Ascending : (n : ℕ) (ns : List ℕ) → Ascending ns → Ascending (insert_number n ns)
unfolding insert_number
insert-Ascending n [] h = tt
insert-Ascending n (m ∷ ms) h = elim (Bool-cases (ltb m n)) [
  | inl less ↦
      let (above, rest) = Ascending-parts m ms h in
      rw less (
        Ascending-cons m (insert_number n ms) (insert-StartsAbove m n ms (ground arith) above)
          (insert-Ascending n ms rest))
  | inr more ↦ rw more (ground arith, h)
]

insert-perm : (n : ℕ) (ns : List ℕ) → Perm (insert_number n ns) (n ∷ ns)
unfolding insert_number
insert-perm n [] = Perm.rfl
insert-perm n (m ∷ ms) = elim (Bool-cases (ltb m n)) [
  | inl less ↦ rw less (Perm.trans (Perm.cons m (insert-perm n ms)) (Perm.swap n m ms))
  | inr more ↦ rw more Perm.rfl
]

insert-InRange : (n : ℕ) (ns : List ℕ) → n < 2 ^ 63 → InRange ns → InRange (insert_number n ns)
unfolding insert_number
insert-InRange n [] h k = (h, tt)
insert-InRange n (m ∷ ms) h (k, l) = elim (Bool-cases (ltb m n)) [
  | inl less ↦ rw less (k, insert-InRange n ms h l)
  | inr more ↦ rw more (h, (k, l))
]

insert_device-numbers :
    (n : ℕ) (ns : List ℕ)
    → n < 2 ^ 63
    → InRange ns
    → insert_device (nbd_device n) (nbd_devices ns) ≡ nbd_devices (insert_number n ns)
unfolding insert_device insert_number
insert_device-numbers n [] h k = refl
insert_device-numbers n (m ∷ ms) h (k, l) = elim (Bool-cases (ltb m n)) [
  | inl less ↦
      rw (device_number-nbd_device n h, device_number-nbd_device m k, less)
        (ap (λ (ds : List Str). nbd_device m ∷ ds) (insert_device-numbers n ms h l))
  | inr more ↦ rw (device_number-nbd_device n h, device_number-nbd_device m k, more) refl
]

-- The devices are those with the numbers, each as often, and their numbers do not fall.
abbrev pub IsInOrder : List ℕ → List Str → Type 0
IsInOrder ns ds = (ms : List ℕ) × (ds ≡ nbd_devices ms) × Ascending ms × Perm ms ns × InRange ms

Matches-IsInOrder :
    (matches : List Str) (ns : List ℕ)
    → Matches matches ns
    → IsInOrder ns (sort_devices (filter is_nbd_device_path matches))
unfolding sort_devices
Matches-IsInOrder _ _ Matches.no_match = ([], refl, tt, Perm.rfl, tt)
Matches-IsInOrder _ _ (Matches.device n matches ns h k) =
    let (ms, same, up, perm, small) = Matches-IsInOrder matches ns k in
    rw (nbd_device-is_device n) (
      insert_number n ms,
      ap (insert_device (nbd_device n)) same ∙ insert_device-numbers n ms h small,
      insert-Ascending n ms up,
      Perm.trans (insert-perm n ms) (Perm.cons n perm),
      insert-InRange n ms h small,
    )
Matches-IsInOrder _ _ (Matches.other path matches ns h k) = rw h (Matches-IsInOrder matches ns k)

-- If the matches of /dev/nbd* are the devices /dev/nbdN for some int64 numbers N, written in decimal, in any
-- order, and other paths that name no NBD device, such as partitions, then listNBDDevices
-- returns just these devices, each as often, in an order in which the numbers do not fall: nbd2
-- comes before nbd10.
pub list_nbd_devices-IsInOrder :
    {E : Env} (s : Sys E) (matches : List Str) (ns : List ℕ)
    → (E.answer (Call.glob (codes "/dev/nbd*")) s.world).0 ≡ some matches
    → Matches matches ns
    → (ds : List Str) × ((list_nbd_devices s).0 ≡ ok ds) × IsInOrder ns ds
unfolding list_nbd_devices listed perform pure ◌>>=◌
list_nbd_devices-IsInOrder s matches ns e h =
    rw e (sort_devices (filter is_nbd_device_path matches), refl, Matches-IsInOrder matches ns h)

-- ===== src/Base/Text.antt =====
-- Go strings as lists of code points, and what the driver uses of `strings` and `strconv`.
-- Text that is not valid UTF-8 is left out.
pub mod Decimal
pub mod Trim
pub mod Fields
use Prim.Native.Nat.{ℕ, ◌+◌}
use Prim.Native.Char.{code}
use Prim.Native.String.{String}
use mathlib.Core.Path.{◌≡◌, refl}
use mathlib.Core.Logic.{◌↔◌}
use mathlib.Core.Bool.{Bool, true, false, ◌&&◌, ◌||◌}
use mathlib.Core.List.{List, [], ◌∷◌, ◌++◌, reverse, map}
use mathlib.Core.Option.{Option, none, some}
use native.Mathlib.Omega.{arith}
use zerofs_csi_driver.Base.Tests.{leb, ◌==◌, if◌then◌else◌}

abbrev pub Str : Type 0
Str = List ℕ

-- A literal. `String` has its own `[]` and `∷`.
abbrev pub codes : String → Str
codes String.[] = []
codes (String.◌∷◌ c s) = code c ∷ codes s

infix 50 ◌===◌
abbrev pub ◌===◌ : Str → Str → Bool
[] === [] = true
[] === (d ∷ t) = false
(c ∷ s) === [] = false
(c ∷ s) === (d ∷ t) = (c == d) && (s === t)

pub ===_iff : (s t : Str) → ((s === t) ≡ true) ↔ (s ≡ t)
===_iff [] [] = ground arith
===_iff [] (d ∷ t) = ground arith
===_iff (c ∷ s) [] = ground arith
===_iff (c ∷ s) (d ∷ t) = ground (arith, ===_iff s t)

pub ===_refl : (s : Str) → (s === s) ≡ true
===_refl s = (===_iff s s).1 refl

-- `unicode.IsSpace`
unfoldable pub is_space : ℕ → Bool
is_space c =
    (leb 9 c && leb c 13)
    || (c == 32)
    || (c == 0x85)
    || (c == 0xa0)
    || (c == 0x1680)
    || (leb 0x2000 c && leb c 0x200a)
    || (c == 0x2028)
    || (c == 0x2029)
    || (c == 0x202f)
    || (c == 0x205f)
    || (c == 0x3000)

abbrev pub trim_left_by : (ℕ → Bool) → Str → Str
trim_left_by p [] = []
trim_left_by p (c ∷ s) = let rest = trim_left_by p s in if p c then rest else c ∷ s

abbrev pub trim_by : (ℕ → Bool) → Str → Str
trim_by p s = reverse (trim_left_by p (reverse (trim_left_by p s)))

-- `strings.TrimSpace`
unfoldable pub trim_space : Str → Str
unfolding is_space
trim_space s = trim_by is_space s

-- the test `strings.TrimSpace(s) == ""`
abbrev pub is_blank : Str → Bool
is_blank s = trim_space s === []

-- `strings.HasPrefix`
abbrev pub has_prefix : Str → Str → Bool
has_prefix s [] = true
has_prefix [] (d ∷ t) = false
has_prefix (c ∷ s) (d ∷ t) = (c == d) && has_prefix s t

-- `strings.TrimPrefix`
abbrev pub drop_prefix : Str → Str → Option Str
drop_prefix s [] = some s
drop_prefix [] (d ∷ t) = none
drop_prefix (c ∷ s) (d ∷ t) = let rest = drop_prefix s t in if c == d then rest else none

abbrev pub trim_prefix : Str → Str → Str
trim_prefix s t = elim (drop_prefix s t) [ some rest ↦ rest | none ↦ s ]

-- `strings.Contains`
abbrev pub contains : Str → Str → Bool
contains [] t = has_prefix [] t
contains (c ∷ s) t = has_prefix (c ∷ s) t || contains s t

pub has_prefix-append : (s t : Str) → has_prefix (s ++ t) s ≡ true
has_prefix-append [] [] = refl
has_prefix-append [] (c ∷ t) = refl
has_prefix-append (c ∷ s) t = ground (arith, has_prefix-append s t)

-- `strings.Split` at a single character
abbrev pub split_onto : ℕ → Str → Str → List Str
split_onto sep [] cur = cur ∷ []
split_onto sep (c ∷ s) cur =
    let cut = cur ∷ split_onto sep s [] in
    let more = split_onto sep s (cur ++ (c ∷ [])) in if c == sep then cut else more

abbrev pub split : Str → ℕ → List Str
split s sep = split_onto sep s []

abbrev end_field : Str → List Str → List Str
end_field [] fs = fs
end_field (c ∷ w) fs = (c ∷ w) ∷ fs

-- `strings.Fields`
fields_onto : Str → Str → List Str
fields_onto [] cur = end_field cur []
fields_onto (c ∷ s) cur =
    let cut = end_field cur (fields_onto s []) in
    let more = fields_onto s (cur ++ (c ∷ [])) in if is_space c then cut else more

unfoldable pub fields : Str → List Str
unfolding fields_onto is_space
fields s = fields_onto s []

-- `strings.Join`
abbrev pub join : List Str → Str → Str
join [] sep = []
join (s ∷ []) sep = s
join (s ∷ t ∷ rest) sep = s ++ (sep ++ join (t ∷ rest) sep)

abbrev pub lower_ascii : ℕ → ℕ
lower_ascii c = if leb b'A' c && leb c b'Z' then c + 32 else c

-- `strings.EqualFold(s, "true")`: no letter of "true" folds to one outside ASCII.
abbrev pub is_true_word : Str → Bool
is_true_word s = map lower_ascii s === codes "true"

-- `cmp.Or` on two strings
abbrev pub or_default : Str → Str → Str
or_default [] d = d
or_default (c ∷ s) d = c ∷ s

-- A Go `map[string]string` that is only read, and the read of a key that may be missing.
abbrev pub Dict : Type 0
Dict = List (Str × Str)

abbrev pub lookup : Str → Dict → Option Str
lookup k [] = none
lookup k ((j, v) ∷ m) = let rest = lookup k m in if j === k then some v else rest

abbrev pub value_of : Str → Dict → Str
value_of k m = elim (lookup k m) [ some v ↦ v | none ↦ [] ]

-- `m[k] = v`
abbrev pub insert : Str → Str → Dict → Dict
insert k v [] = (k, v) ∷ []
insert k v ((j, w) ∷ m) = if j === k then (k, v) ∷ m else (j, w) ∷ insert k v m

pub lookup-insert :
    (k j v : Str) (m : Dict) → lookup j (insert k v m) ≡ (if k === j then some v else lookup j m)
lookup-insert k j v [] = ground arith
lookup-insert k j v ((i, w) ∷ m) =
    ground (arith, ===_iff k j, ===_iff i k, ===_iff i j, lookup-insert k j v m)

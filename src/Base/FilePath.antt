-- ===== src/Base/FilePath.antt =====
-- `path/filepath` on Unix: `Clean`, `Join`, `Base` and `Dir`. `path.Join` is the same function.
pub mod Names
pub mod Extends
use Prim.Native.Nat.{ℕ}
use zerofs_csi_driver.Base.Tests.{if◌then◌else◌, ◌==◌}
use zerofs_csi_driver.Base.Text.{Str, codes, ◌===◌, split, join}
use mathlib.Core.Bool.{Bool, true, false}
use mathlib.Core.List.{List, [], ◌∷◌, reverse}

abbrev slash : ℕ
slash = b'/'

abbrev is_rooted : Str → Bool
is_rooted [] = false
is_rooted (c ∷ s) = c == slash

-- `..`: the element before it goes; at the front of a relative path it stays.
up : Bool → List Str → List Str
up rooted [] = if rooted then [] else codes ".." ∷ []
up rooted (x ∷ xs) = if x === codes ".." then codes ".." ∷ x ∷ xs else xs

-- The elements that stay, the last first.
resolve : Bool → List Str → List Str → List Str
resolve rooted [] kept = kept
resolve rooted (x ∷ xs) kept = resolve rooted xs (
    if x === []
    then kept
    else if x === codes "."
    then kept
    else if x === codes ".."
    then up rooted kept
    else x ∷ kept)

rebuilt : Bool → List Str → Str
rebuilt true xs = slash ∷ join xs (slash ∷ [])
rebuilt false [] = codes "."
rebuilt false (x ∷ xs) = join (x ∷ xs) (slash ∷ [])

unfoldable pub clean : Str → Str
unfolding up resolve rebuilt
clean s = rebuilt (is_rooted s) (reverse (resolve (is_rooted s) (split s slash) []))

non_empty : List Str → List Str
non_empty [] = []
non_empty (x ∷ xs) = if x === [] then non_empty xs else x ∷ xs

joined : List Str → Str
unfolding clean
joined [] = []
joined (x ∷ rest) = clean (join (x ∷ rest) (slash ∷ []))

-- `filepath.Join`: "" if all elements are empty.
unfoldable pub join_path : List Str → Str
unfolding joined non_empty
join_path xs = joined (non_empty xs)

drop_slashes : Str → Str
drop_slashes [] = []
drop_slashes (c ∷ s) = if c == slash then drop_slashes s else c ∷ s

until_slash : Str → Str
until_slash [] = []
until_slash (c ∷ s) = if c == slash then [] else c ∷ until_slash s

or_slash : Str → Str
or_slash [] = slash ∷ []
or_slash (c ∷ s) = c ∷ s

-- `filepath.Base`
unfoldable pub base : Str → Str
unfolding drop_slashes until_slash or_slash
base [] = codes "."
base (c ∷ s) = or_slash (reverse (until_slash (drop_slashes (reverse (c ∷ s)))))

from_slash : Str → Str
from_slash [] = []
from_slash (c ∷ s) = if c == slash then c ∷ s else from_slash s

-- `filepath.Dir`
unfoldable pub dir : Str → Str
unfolding from_slash clean
dir s = clean (reverse (from_slash (reverse s)))

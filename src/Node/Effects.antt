-- ===== src/Node/Effects.antt =====
-- pkg/csi/node.go: what a request may change outside the node's own files: objects of the cluster, and
-- the size of a disk.
use zerofs_csi_driver.Base.{◌≡◌, Bool, true, false, not, ◌&&◌, some, [], ◌∷◌, Str, codes, arith}
use zerofs_csi_driver.Base.Text.{Dict, lookup}
use zerofs_csi_driver.Host.{Call, Reply, Event, did}
use zerofs_csi_driver.Host.Calls.{is_mkfs, is_truncate, is_change, is_plain}
use zerofs_csi_driver.Mounter.Objects.{IsOwnChange}
use zerofs_csi_driver.Node.Disk.{disk_path}

-- A change of an object of the cluster is one of the pod or the secret of the volume, in the namespace.
abbrev pub ChangesOwn : Str → Str → Event → Type 0
ChangesOwn namespace volume (did c r) = is_change c ≡ true → IsOwnChange namespace volume c

-- A run of `truncate` gives the disk file below the target the capacity that the volume context has.
abbrev pub SizesDisk : Dict → Str → Event → Type 0
SizesDisk context target (did (Call.exec program args) o) =
    is_truncate program ≡ true
    → (capacity : Str) × (lookup (codes "capacity_bytes") context ≡ some capacity)
      × (args ≡ codes "-s" ∷ capacity ∷ disk_path target ∷ [])
SizesDisk context target _ = Unit

plain-not_change : (c : Call) → is_plain c ≡ true → is_change c ≡ true → ⊥
plain-not_change (Call.create_secret x) h k = absurd (cc)
plain-not_change (Call.update_secret x) h k = absurd (cc)
plain-not_change (Call.delete_secret namespace name) h k = absurd (cc)
plain-not_change (Call.create_pod x) h k = absurd (cc)
plain-not_change (Call.delete_pod namespace name) h k = absurd (cc)
plain-not_change (Call.force_delete_pod namespace name) h k = absurd (cc)
plain-not_change _ h k = absurd (cc)

ordinary-not_truncate : (b c : Bool) → (not b && not c) ≡ true → c ≡ true → ⊥
ordinary-not_truncate b true h e = ground arith
ordinary-not_truncate b false h e = cc

pub mkfs-not_truncate : (program : Str) → is_mkfs program ≡ true → is_truncate program ≡ true → ⊥
mkfs-not_truncate [] h k = absurd (cc)
mkfs-not_truncate (c ∷ program) h k = ground arith

module _ (namespace volume : Str) where
  pub plain-ChangesOwn :
      (c : Call) → is_plain c ≡ true → (r : Reply c) → ChangesOwn namespace volume (did c r)
  plain-ChangesOwn c h r k = absurd (plain-not_change c h k)

  pub own-ChangesOwn :
      (c : Call)
      → IsOwnChange namespace volume c
      → (r : Reply c) → ChangesOwn namespace volume (did c r)
  own-ChangesOwn c h r k = h

module _ (context : Dict) (target : Str) where
  pub plain-SizesDisk :
      (c : Call) → is_plain c ≡ true → (r : Reply c) → SizesDisk context target (did c r)
  plain-SizesDisk (Call.exec program args) h r =
      λ k. absurd (ordinary-not_truncate (is_mkfs program) (is_truncate program) h k)
  plain-SizesDisk Call.lock h r = tt
  plain-SizesDisk _ h r = tt

  pub own-SizesDisk :
      (namespace volume : Str) (c : Call)
      → IsOwnChange namespace volume c
      → (r : Reply c) → SizesDisk context target (did c r)
  own-SizesDisk namespace volume (Call.exec program args) h r = absurd h
  own-SizesDisk namespace volume _ h r = tt

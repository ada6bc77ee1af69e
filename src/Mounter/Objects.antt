-- ===== src/Mounter/Objects.antt =====
-- pkg/csi/zerofs.go: the objects of a volume, its pod and its secret.
use zerofs_csi_driver.Base.{◌≡◌, refl, true, Str}
use zerofs_csi_driver.Host.{Env, Sys, Call, perform}
use zerofs_csi_driver.Host.Keeps.{Keeps}
use zerofs_csi_driver.Host.Calls.{is_change}
use zerofs_csi_driver.Mounter.Manifest.{pod_name_of, secret_name_of}

-- A change of the pod or of the secret of a volume, in a namespace.
abbrev pub IsOwnChange : Str → Str → Call → Type 0
IsOwnChange namespace volume (Call.create_secret x) =
    (x.namespace ≡ namespace) × (x.name ≡ secret_name_of volume)
IsOwnChange namespace volume (Call.update_secret x) =
    (x.namespace ≡ namespace) × (x.name ≡ secret_name_of volume)
IsOwnChange namespace volume (Call.delete_secret n name) =
    (n ≡ namespace) × (name ≡ secret_name_of volume)
IsOwnChange namespace volume (Call.create_pod x) =
    (x.namespace ≡ namespace) × (x.name ≡ pod_name_of volume)
IsOwnChange namespace volume (Call.delete_pod n name) =
    (n ≡ namespace) × (name ≡ pod_name_of volume)
IsOwnChange namespace volume (Call.force_delete_pod n name) =
    (n ≡ namespace) × (name ≡ pod_name_of volume)
IsOwnChange namespace volume _ = ⊥

IsOwnChange-change :
    (namespace volume : Str) (c : Call) → IsOwnChange namespace volume c → is_change c ≡ true
IsOwnChange-change namespace volume (Call.create_secret x) h = refl
IsOwnChange-change namespace volume (Call.update_secret x) h = refl
IsOwnChange-change namespace volume (Call.delete_secret n name) h = refl
IsOwnChange-change namespace volume (Call.create_pod x) h = refl
IsOwnChange-change namespace volume (Call.delete_pod n name) h = refl
IsOwnChange-change namespace volume (Call.force_delete_pod n name) h = refl
IsOwnChange-change namespace volume _ h = absurd h

-- What every change keeps, the changes of one volume keep.
pub own_of :
    {E : Env} {P : Sys E → Type 0}
    → ((c : Call) → is_change c ≡ true → Keeps P (perform c))
    → (namespace volume : Str) (c : Call) → IsOwnChange namespace volume c
    → Keeps P (perform c)
own_of changes namespace volume c h = changes c (IsOwnChange-change namespace volume c h)

-- ===== src/Mounter/Manifest/Named.antt =====
-- pkg/csi/zerofs.go: the pod of a volume stands under the volume's name, in the mounter's namespace.
use zerofs_csi_driver.Base.{◌≡◌, refl, Option, Str, if-cases}
use zerofs_csi_driver.Base.Text.{Dict, value_of, is_true_word}
use zerofs_csi_driver.Base.{codes}
use zerofs_csi_driver.Kube.{Quantity, Pod}
use zerofs_csi_driver.Mounter.Manifest.{pod_name_of, base_pod, with_envoy, pod_manifest}

module _ (parse_quantity : Str → Option Quantity) (namespace : Str) (config : Dict)
    (volume node uid : Str) where
  abbrev manifest : Pod
  manifest = pod_manifest parse_quantity namespace config volume node uid

  pub pod_manifest-own : (manifest.namespace ≡ namespace) × (manifest.name ≡ pod_name_of volume)
  unfolding pod_manifest base_pod with_envoy
  pod_manifest-own =
      if-cases (λ (p : Pod). (p.namespace ≡ namespace) × (p.name ≡ pod_name_of volume))
        (is_true_word (value_of (codes "envoyEnabled") config)) _ _ (refl, refl) (refl, refl)

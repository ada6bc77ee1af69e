-- ===== src/Mounter/Manifest/Probe.antt =====
-- pkg/csi/zerofs.go: the readiness probe of the pod.
use zerofs_csi_driver.Base.{◌≡◌, refl, Option, List, [], ◌∷◌, ◌++◌, Str, codes, if-cases}
use zerofs_csi_driver.Base.Text.{Dict, value_of, is_true_word}
use zerofs_csi_driver.Kube.{Quantity, Pod, Container}
use zerofs_csi_driver.Mounter.Config.{base_dir}
use zerofs_csi_driver.Mounter.Manifest.{zerofs_container, base_pod, with_envoy, pod_manifest}

-- The command that tests for a socket.
abbrev pub test_command : Str → List Str
test_command path = codes "sh" ∷ codes "-c" ∷ (codes "test -S " ++ path) ∷ []

-- The one container of the pod, next to its init containers, is probed by a command.
abbrev pub IsProbedBy : List Str → Pod → Type 0
IsProbedBy command pod =
    (c : Container) × (pod.containers ≡ c ∷ []) × (c.readiness_command ≡ command)

pub pod_manifest-IsProbedBy :
    (parse_quantity : Str → Option Quantity) (namespace : Str) (config : Dict)
    (volume node uid : Str)
    → IsProbedBy
        (test_command (base_dir ++ (codes "/zerofs-" ++ (volume ++ codes ".9p.sock"))))
        (pod_manifest parse_quantity namespace config volume node uid)
unfolding pod_manifest base_pod with_envoy zerofs_container
pod_manifest-IsProbedBy parse_quantity namespace config volume node uid =
    if-cases
      (IsProbedBy (test_command (base_dir ++ (codes "/zerofs-" ++ (volume ++ codes ".9p.sock")))))
      (is_true_word (value_of (codes "envoyEnabled") config)) _ _
      (zerofs_container parse_quantity config volume, refl, refl)
      (zerofs_container parse_quantity config volume, refl, refl)

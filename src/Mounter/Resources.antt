-- ===== src/Mounter/Resources.antt =====
-- pkg/csi/zerofs.go: `parseResourceRequirements`. `resource.ParseQuantity` is a parameter.
pub mod Entries
use zerofs_csi_driver.Base.{◌&&◌, Option, none, some, Str, [], ◌∷◌, codes, ◌===◌, if◌then◌else◌}
use zerofs_csi_driver.Base.Text.{Dict, value_of, insert}
use zerofs_csi_driver.Kube.{Quantity, Resources}

-- `if list == nil { list = corev1.ResourceList{} }`
or_new : Option Dict → Dict
or_new none = []
or_new (some list) = list

-- A quantity that cannot be parsed sets nothing.
put_parsed : Str → Option Quantity → Option Dict → Option Dict
unfolding or_new
put_parsed name none list = list
put_parsed name (some quantity) list = some (insert name quantity (or_new list))

module _ (parse_quantity : Str → Option Quantity) where
  -- One of the four blocks: the resource's name, the text of the entry, and the list.
  put_quantity : Str → Str → Option Dict → Option Dict
  unfolding put_parsed
  put_quantity name [] list = list
  put_quantity name (c ∷ text) list = put_parsed name (parse_quantity (c ∷ text)) list

  unfoldable pub parse_resource_requirements : Dict → Option Resources
  unfolding put_quantity
  parse_resource_requirements config =
      let cpu_request = value_of (codes "cpuRequest") config in
      let cpu_limit = value_of (codes "cpuLimit") config in
      let memory_request = value_of (codes "memoryRequest") config in
      let memory_limit = value_of (codes "memoryLimit") config in
      if cpu_request === [] && cpu_limit === [] && memory_request === [] && memory_limit === []
      then none
      else some (record {
        requests =
            put_quantity (codes "memory") memory_request
              (put_quantity (codes "cpu") cpu_request none);
        limits =
            put_quantity (codes "memory") memory_limit (put_quantity (codes "cpu") cpu_limit none);
      })

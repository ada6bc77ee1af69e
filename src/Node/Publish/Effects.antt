-- ===== src/Node/Publish/Effects.antt =====
-- pkg/csi/node.go: a publish changes only its own volume's objects, and sizes only its own disk.
use zerofs_csi_driver.Base.{ℕ, ◌≡◌, refl, true, some, [], ◌∷◌, List, Str, codes}
use zerofs_csi_driver.Base.Text.{lookup}
use zerofs_csi_driver.Host.{Env, Sys, Exec, Call, Event, perform, with_lock}
use zerofs_csi_driver.Host.Keeps.{Keeps, Keeps-bind, keeps_rules}
use zerofs_csi_driver.Host.Calls.{is_plain, is_quiet}
use zerofs_csi_driver.Host.Since.{Since, Grown, perform-Grown, with_lock-Grown}
use zerofs_csi_driver.Nbd.State.Quiet.{is_quiet-plain}
use zerofs_csi_driver.Mounter.Objects.{IsOwnChange}
use zerofs_csi_driver.Node.Request.{Service, PublishRequest}
use zerofs_csi_driver.Node.Mkfs.{mkfs_command, mkfs_command-mkfs}
use zerofs_csi_driver.Node.Disk.{disk_path}
use zerofs_csi_driver.Node.Attach.{format_blank, format_if_blank}
use zerofs_csi_driver.Node.Attach.Plain.{IsPlainExec, formatted-Keeps}
use zerofs_csi_driver.Node.Effects.{
  ChangesOwn, SizesDisk, mkfs-not_truncate, plain-ChangesOwn, own-ChangesOwn, plain-SizesDisk,
  own-SizesDisk,
}
use zerofs_csi_driver.Node.Publish.{node_publish_volume}
use zerofs_csi_driver.Node.Publish.Plain.{node_publish_volume-Keeps}

-- What a publish may do.
abbrev pub IsProper : Service → PublishRequest → Event → Type 0
IsProper ns req e =
    ChangesOwn ns.namespace req.volume_id e × SizesDisk req.volume_context req.target_path e

module _ {E : Env} (ns : Service) (req : PublishRequest) (base : List Event) where
  abbrev Proper : Sys E → Type 0
  Proper = Grown (IsProper ns req) base

  plain-Proper : (c : Call) → is_plain c ≡ true → Keeps Proper (perform c)
  plain-Proper c h = perform-Grown (IsProper ns req) base c (λ r. (
    plain-ChangesOwn ns.namespace req.volume_id c h r,
    plain-SizesDisk req.volume_context req.target_path c h r,
  ))

  quiet-Proper : (c : Call) → is_quiet c ≡ true → Keeps Proper (perform c)
  quiet-Proper c h = plain-Proper c (is_quiet-plain c h)

  own-Proper : (c : Call) → IsOwnChange ns.namespace req.volume_id c → Keeps Proper (perform c)
  own-Proper c h = perform-Grown (IsProper ns req) base c (λ r. (
    own-ChangesOwn ns.namespace req.volume_id c h r,
    own-SizesDisk req.volume_context req.target_path ns.namespace req.volume_id c h r,
  ))

  sized-Proper :
      (capacity : Str)
      → lookup (codes "capacity_bytes") req.volume_context ≡ some capacity
      → Keeps Proper (
          perform
            (Call.exec (codes "truncate") (codes "-s" ∷ capacity ∷ disk_path req.target_path ∷ [])))
  sized-Proper capacity e =
      perform-Grown (IsProper ns req) base
        (Call.exec (codes "truncate") (codes "-s" ∷ capacity ∷ disk_path req.target_path ∷ []))
        (λ r. ((λ h. absurd (cc (h))), (λ _. (capacity, e, refl))))

  section-Proper : (A : Type 0) (m : Exec E A) → IsPlainExec m → Keeps Proper (with_lock m)
  section-Proper A m k =
      with_lock-Grown (IsProper ns req) base m (λ r. ((λ h. absurd (cc (h))), tt))
        (λ r. ((λ h. absurd (cc (h))), tt)) (k Proper plain-Proper)

  format_blank-Proper :
      (lower_rune : ℕ → ℕ) (filesystem dev fs_type : Str)
      → Keeps Proper (format_blank lower_rune filesystem dev fs_type)
  unfolding format_blank
  format_blank-Proper lower_rune filesystem dev (c ∷ fs_type) = search keeps_rules
  format_blank-Proper lower_rune filesystem dev [] =
      let (program, args) = mkfs_command lower_rune filesystem dev in
      Keeps-bind _ _
        (perform-Grown (IsProper ns req) base (Call.exec program args) (λ r. (
          (λ h. absurd (cc (h))),
          (λ k. absurd (mkfs-not_truncate program (mkfs_command-mkfs lower_rune filesystem dev) k)),
        )))
        (λ o. formatted-Keeps quiet-Proper dev o.failed)

  format_if_blank-Proper :
      (lower_rune : ℕ → ℕ) (filesystem dev : Str)
      → Keeps Proper (format_if_blank lower_rune filesystem dev)
  unfolding format_if_blank
  format_if_blank-Proper lower_rune filesystem dev =
      search (keeps_rules, quiet-Proper, format_blank-Proper)

  node_publish_volume-Proper : Keeps Proper (node_publish_volume ns req)
  node_publish_volume-Proper =
      node_publish_volume-Keeps plain-Proper section-Proper format_if_blank-Proper ns req own-Proper
        sized-Proper

pub node_publish_volume-IsProper :
    {E : Env} (ns : Service) (req : PublishRequest) (s : Sys E)
    → Since (IsProper ns req) s.log (node_publish_volume ns req s).1.log
node_publish_volume-IsProper ns req s =
    (node_publish_volume-Proper ns req s.log).holds s Since.nothing_new

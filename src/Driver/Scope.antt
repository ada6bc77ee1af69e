-- ===== src/Driver/Scope.antt =====
-- cmd/driver/main.go and pkg/csi/driver.go: the namespace that the manager's cache watches, and the one
-- that the services work in.
use mathlib.Core.List.{Memᴰ}
use zerofs_csi_driver.Base.{
  ◌≡◌, refl, sym, ap, subst, ◌∙◌, Bool, true, false, List, [], ◌∷◌, Str, codes, All,
}
use zerofs_csi_driver.Process.{Registration, Driver, Flags}
use zerofs_csi_driver.Host.{Env, Sys, Event, did, Call, Reply, perform, ◌>>=◌}
use zerofs_csi_driver.Host.Keeps.{Keeps, keeps_rules, Keeps-seq}
use zerofs_csi_driver.Host.Triple.{
  Triple, Triple-perform, Triple-bind, Triple-seq, Triple-weaken, Keeps-Triple, Triple-after,
}
use zerofs_csi_driver.Driver.{new_zerofs_driver, start}
use zerofs_csi_driver.Driver.Main.{default_flags, or_exit, run_manager, main}
use zerofs_csi_driver.Driver.Registers.{registered, services, when, start-registers}

-- The namespaces that the managers' caches watch, and the drivers handed to them, the latest first.
abbrev pub watched : List Event → List Str
watched [] = []
watched (did (Call.new_manager address namespace) r ∷ log) = namespace ∷ watched log
watched (did _ r ∷ log) = watched log

abbrev pub handed : List Event → List Driver
handed [] = []
handed (did (Call.add_driver d) r ∷ log) = d ∷ handed log
handed (did _ r ∷ log) = handed log

-- A service that works in a namespace, or in none.
abbrev pub IsWithin : Str → Registration → Type 0
IsWithin namespace Registration.identity = Unit
IsWithin namespace (Registration.controller n i m) = m ≡ namespace
IsWithin namespace (Registration.node n i m) = m ≡ namespace

when-All :
    {A : Type 0} (P : A → Type 0) (b : Bool) (a : A) (xs : List A)
    → P a
    → All P xs
    → All P (when b a xs)
when-All P true a xs p h = (p, h)
when-All P false a xs p h = h

services-IsWithin :
    (d : Driver) (node_id : Str) → All (IsWithin d.namespace) (services d node_id [])
services-IsWithin d node_id =
    when-All _ d.enable_node _ _ refl (when-All _ d.enable_controller _ _ refl (tt, tt))

-- The calls that make no manager and hand over no driver.
abbrev is_aside : Call → Bool
is_aside (Call.new_manager a n) = false
is_aside (Call.add_driver d) = false
is_aside _ = true

watched-aside :
    (c : Call) (r : Reply c) (log : List Event)
    → is_aside c ≡ true
    → watched (did c r ∷ log) ≡ watched log
watched-aside (Call.new_manager a n) r log h = absurd (cc)
watched-aside (Call.add_driver d) r log h = absurd (cc)
watched-aside _ r log h = refl

handed-aside :
    (c : Call) (r : Reply c) (log : List Event)
    → is_aside c ≡ true
    → handed (did c r ∷ log) ≡ handed log
handed-aside (Call.new_manager a n) r log h = absurd (cc)
handed-aside (Call.add_driver d) r log h = absurd (cc)
handed-aside _ r log h = refl

mem-one : {A : Type 0} (a b : A) (xs : List A) → xs ≡ b ∷ [] → Memᴰ a xs → a ≡ b
mem-one a b xs e m = elim (subst (Memᴰ a) e m) [ Memᴰ.head x ↦ x | Memᴰ.tail m ↦ elim m [ ] ]

module _ {E : Env} where
  abbrev Holding : List Str → List Driver → Sys E → Type 0
  Holding ns ds t = (watched t.log ≡ ns) × (handed t.log ≡ ds)

  module _ (ns : List Str) (ds : List Driver) where
    aside-Keeps : (c : Call) → is_aside c ≡ true → Keeps (Holding ns ds) (perform c)
    unfolding perform
    aside-Keeps c h = record {
      holds = λ s (k, l). (watched-aside c _ s.log h ∙ k, handed-aside c _ s.log h ∙ l);
    }

    or_exit-Keeps : (b : Bool) → Keeps (Holding ns ds) (or_exit b)
    unfolding or_exit
    or_exit-Keeps true = search keeps_rules
    or_exit-Keeps false = search keeps_rules

    abbrev stays :
        {R : Sys E → Type 0} (b : Bool)
        → ((s : Sys E) → Holding ns ds s → R s)
        → Triple (Holding ns ds) (or_exit b) (λ _. Holding ns ds) R
    stays b f = Triple-weaken _ (λ s k. k) (λ a s k. k) f (Keeps-Triple _ (or_exit-Keeps b))

    start_manager-Keeps : Keeps (Holding ns ds) (perform Call.start_manager >>= or_exit)
    start_manager-Keeps = search (keeps_rules, aside-Keeps, or_exit-Keeps) depth 8

  aside :
      {R : Sys E → Type 0} (c : Call)
      → is_aside c ≡ true
      → Triple (Holding [] []) (perform c) (λ _. Holding [] []) R
  aside c h = Triple-perform c (λ _. Holding [] []) (λ s k. (aside-Keeps [] [] c h).holds s k)

  -- Each driver handed over works in each namespace watched.
  abbrev Agrees : Sys E → Type 0
  Agrees t =
      (namespace : Str) (d : Driver)
      → Memᴰ namespace (watched t.log)
      → Memᴰ d (handed t.log)
      → d.namespace ≡ namespace

  unhanded-Agrees : (ns : List Str) (s : Sys E) → Holding ns [] s → Agrees s
  unhanded-Agrees ns s (k, l) n d x y = elim (subst (Memᴰ d) l y) [ ]

  handed-Agrees :
      (n : Str) (d : Driver)
      → d.namespace ≡ n
      → (s : Sys E) → Holding (n ∷ []) (d ∷ []) s
      → Agrees s
  handed-Agrees n d e s (k, l) m c x y =
      ap (λ (z : Driver). z.namespace) (mem-one c d _ l y) ∙ e ∙ sym (mem-one m n _ k x)

  run_manager-Agrees :
      (flags : Flags) → Triple (Holding [] []) (run_manager flags) (λ _. Agrees) Agrees
  unfolding run_manager perform new_zerofs_driver
  run_manager-Agrees flags =
      let n = flags.namespace in
      let d = new_zerofs_driver flags.controller flags.node n in
      Triple-bind _ _
        (Triple-perform (Call.new_manager flags.metrics_bind_address n) (λ _. Holding (n ∷ []) [])
          (λ s (k, l). (rw k refl, l)))
        (λ made. Triple-seq _ _ (stays (n ∷ []) [] made (unhanded-Agrees (n ∷ []))) (λ _.
          Triple-bind _ _
            (Triple-perform (Call.add_driver d) (λ _. Holding (n ∷ []) (d ∷ []))
              (λ s (k, l). (k, rw l refl)))
            (λ added.
              Triple-weaken _ (λ s k. k) (λ a. handed-Agrees n d refl) (handed-Agrees n d refl)
                (Keeps-Triple _ (
                  Keeps-seq _ _ (or_exit-Keeps (n ∷ []) (d ∷ []) added)
                    (start_manager-Keeps (n ∷ []) (d ∷ [])))))))

  main-Agrees : Triple (Holding [] []) main (λ _. Agrees) Agrees
  unfolding main
  main-Agrees =
      Triple-bind _ _ (aside (Call.get_env (codes "METRICS_BIND_ADDRESS")) refl) (λ address.
        Triple-bind _ _ (aside (Call.parse_flags (default_flags address)) refl) (λ flags.
          Triple-bind _ _ (aside Call.get_config refl) (λ configured.
            Triple-seq _ _ (stays [] [] configured (unhanded-Agrees []))
              (λ _. run_manager-Agrees flags))))

  -- Whatever the flags and the environment are, also where main exits with an error: if no manager was
  -- made and no driver handed over before it, each driver that it hands to the manager, started
  -- from any state without a service, registers services only in the namespace that the
  -- manager's cache watches.
  pub main-IsWithin :
      (s : Sys E)
      → watched s.log ≡ []
      → handed s.log ≡ []
      → (namespace : Str) (d : Driver) → Memᴰ namespace (watched (main s).1.log)
      → Memᴰ d (handed (main s).1.log)
      → (u : Sys E) → registered u.log ≡ []
      → All (IsWithin namespace) (registered (start d u).1.log)
  main-IsWithin s k l namespace d x y u none_before =
      let same = Triple-after _ s main-Agrees (k, l) namespace d x y in
      let node_id = (E.answer (Call.get_env (codes "NODE_ID")) u.world).0 in
      subst (All (IsWithin namespace))
        (sym ((start-registers d u).0 ∙ ap (services d node_id) none_before))
        (subst (λ (m : Str). All (IsWithin m) (services d node_id [])) same
          (services-IsWithin d node_id))

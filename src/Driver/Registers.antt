-- ===== src/Driver/Registers.antt =====
-- pkg/csi/driver.go: which services a start of the driver registers.
use zerofs_csi_driver.Base.{◌≡◌, refl, Bool, true, false, ◌||◌, ◌∙◌, List, [], ◌∷◌, Str, codes}
use zerofs_csi_driver.Process.{Registration, Driver}
use zerofs_csi_driver.Host.{
  Env, Sys, Event, did, Call, Reply, Removal, removed, absent, not_removed, perform, ◌>>=◌, ◌>>◌,
}
use zerofs_csi_driver.Host.Keeps.{Keeps, keeps_rules, Keeps-seq}
use zerofs_csi_driver.Host.Triple.{
  Triple, Triple-perform, Triple-pure, Triple-seq, Keeps-Triple, Triple-after,
}
use zerofs_csi_driver.Driver.{
  driver_name, register_controller, register_node, register_services, made_dir, cleared_socket,
  listening, stop_server, stop, connection_timeout, open_socket, serve_until_done, started,
  start_as, start,
}

-- The services registered so far, the latest first.
abbrev pub registered : List Event → List Registration
registered [] = []
registered (did (Call.register x) r ∷ log) = x ∷ registered log
registered (did _ r ∷ log) = registered log

-- Whether the reconciler was started.
abbrev pub reconciles : List Event → Bool
reconciles [] = false
reconciles (did Call.go_reconcile r ∷ log) = true
reconciles (did _ r ∷ log) = reconciles log

-- The services of a driver.
abbrev pub when : {A : Type 0} → Bool → A → List A → List A
when true a xs = a ∷ xs
when false a xs = xs

abbrev pub services : Driver → Str → List Registration → List Registration
services d node_id before = when d.enable_node (Registration.node driver_name node_id d.namespace) (
    when d.enable_controller (Registration.controller driver_name node_id d.namespace)
      (Registration.identity ∷ before))

-- The calls that register nothing and start nothing.
abbrev is_other : Call → Bool
is_other (Call.register x) = false
is_other Call.go_reconcile = false
is_other _ = true

registered-other :
    (c : Call) (r : Reply c) (log : List Event)
    → is_other c ≡ true
    → registered (did c r ∷ log) ≡ registered log
registered-other (Call.register x) r log h = absurd (cc)
registered-other Call.go_reconcile r log h = absurd (cc)
registered-other _ r log h = refl

reconciles-other :
    (c : Call) (r : Reply c) (log : List Event)
    → is_other c ≡ true
    → reconciles (did c r ∷ log) ≡ reconciles log
reconciles-other (Call.register x) r log h = absurd (cc)
reconciles-other Call.go_reconcile r log h = absurd (cc)
reconciles-other _ r log h = refl

module _ {E : Env} where
  module _ (xs : List Registration) (b : Bool) where
    abbrev HasRegistered : Sys E → Type 0
    HasRegistered t = (registered t.log ≡ xs) × (reconciles t.log ≡ b)

    other-Keeps : (c : Call) → is_other c ≡ true → Keeps HasRegistered (perform c)
    unfolding perform
    other-Keeps c h = record {
      holds = λ s (k, l). (registered-other c _ s.log h ∙ k, reconciles-other c _ s.log h ∙ l);
    }

    made_dir-Keeps : (a : Bool) → Keeps HasRegistered (made_dir a)
    unfolding made_dir
    made_dir-Keeps true = search keeps_rules
    made_dir-Keeps false = search keeps_rules

    cleared_socket-Keeps : (a : Removal) → Keeps HasRegistered (cleared_socket a)
    unfolding cleared_socket
    cleared_socket-Keeps removed = search keeps_rules
    cleared_socket-Keeps absent = search keeps_rules
    cleared_socket-Keeps not_removed = search keeps_rules

    listening-Keeps : (a : Bool) → Keeps HasRegistered (listening a)
    unfolding listening
    listening-Keeps true = search keeps_rules
    listening-Keeps false = search keeps_rules

    stop_server-Keeps : (a : Bool) → Keeps HasRegistered (stop_server a)
    unfolding stop_server
    stop_server-Keeps true = search (keeps_rules, other-Keeps)
    stop_server-Keeps false = search keeps_rules

    open_socket-Keeps : Keeps HasRegistered open_socket
    unfolding open_socket
    open_socket-Keeps =
        search (keeps_rules, other-Keeps, made_dir-Keeps, cleared_socket-Keeps, listening-Keeps)
          depth 12

    serve_until_done-Keeps : (d : Driver) → Keeps HasRegistered (serve_until_done d)
    unfolding serve_until_done stop
    serve_until_done-Keeps d = search (keeps_rules, other-Keeps, stop_server-Keeps) depth 10

    served-Keeps : (d : Driver) → Keeps HasRegistered (open_socket >> serve_until_done d)
    served-Keeps d = Keeps-seq _ _ open_socket-Keeps (serve_until_done-Keeps d)

  module _ (xs : List Registration) (b : Bool) {R : Sys E → Type 0} where
    register_controller-registers :
        (d : Driver) (on : Bool)
        → Triple
            (HasRegistered xs b)
            (register_controller d on)
            (λ _.
              HasRegistered
                (when on (Registration.controller driver_name d.node_id d.namespace) xs)
                b)
            R
    unfolding register_controller perform
    register_controller-registers d true =
        Triple-seq _ _
          (Triple-perform
            (Call.register (Registration.controller driver_name d.node_id d.namespace))
            (λ _. HasRegistered (Registration.controller driver_name d.node_id d.namespace ∷ xs) b)
            (λ s (k, l). (rw k refl, l)))
          (λ _. Triple-pure tt (λ s k. k))
    register_controller-registers d false = Triple-pure tt (λ s k. k)

    register_node-registers :
        (d : Driver) (on : Bool)
        → Triple
            (HasRegistered xs b)
            (register_node d on)
            (λ _.
              HasRegistered
                (when on (Registration.node driver_name d.node_id d.namespace) xs)
                (on || b))
            R
    unfolding register_node perform
    register_node-registers d true =
        let ys = Registration.node driver_name d.node_id d.namespace ∷ xs in
        Triple-seq _ _
          (Triple-perform (Call.register (Registration.node driver_name d.node_id d.namespace))
            (λ _. HasRegistered ys b) (λ s (k, l). (rw k refl, l)))
          (λ _.
            Triple-seq _ _
              (Triple-perform Call.go_reconcile (λ _. HasRegistered ys true)
                (λ s (k, l). (k, refl)))
              (λ _. Triple-pure tt (λ s k. k)))
    register_node-registers d false = Triple-pure tt (λ s k. k)

  module _ (xs : List Registration) (b : Bool) (d : Driver) where
    abbrev AllRegistered : Sys E → Type 0
    AllRegistered = HasRegistered (services d d.node_id xs) (d.enable_node || b)

    register_services-registers :
        Triple (HasRegistered xs b) (register_services d) (λ _. AllRegistered) AllRegistered
    unfolding register_services perform
    register_services-registers =
        let controller = Registration.controller driver_name d.node_id d.namespace in
        Triple-seq _ _
          (Triple-perform (Call.register Registration.identity)
            (λ _. HasRegistered (Registration.identity ∷ xs) b) (λ s (k, l). (rw k refl, l)))
          (λ _.
            Triple-seq _ _
              (register_controller-registers (Registration.identity ∷ xs) b d d.enable_controller)
              (λ _.
                register_node-registers
                  (when d.enable_controller controller (Registration.identity ∷ xs)) b d
                  d.enable_node))

    start_as-registers : Triple (HasRegistered xs b) (start_as d) (λ _. AllRegistered) AllRegistered
    unfolding start_as
    start_as-registers =
        Triple-seq _ _
          (Triple-perform (Call.new_server connection_timeout) (λ _. HasRegistered xs b)
            (λ s k. (other-Keeps xs b (Call.new_server connection_timeout) refl).holds s k))
          (λ _.
            Triple-seq _ _ register_services-registers
              (λ _. Keeps-Triple _ (served-Keeps (services d d.node_id xs) (d.enable_node || b) d)))

  -- A start registers the identity service, the controller service if it is enabled and the node
  -- service if it is enabled, in this order, each with the driver's name and namespace and the node ID
  -- of the environment, and starts the reconciler exactly with the node service; also where the
  -- start fails later.
  pub start-registers :
      (d : Driver) (s : Sys E)
      → let t = (start d s).1 in
        let node_id = (E.answer (Call.get_env (codes "NODE_ID")) s.world).0 in
        (registered t.log ≡ services d node_id (registered s.log))
        × (reconciles t.log ≡ (d.enable_node || reconciles s.log))
  unfolding start started perform ◌>>=◌
  start-registers d s =
      let node_id = (E.answer (Call.get_env (codes "NODE_ID")) s.world).0 in
      Triple-after _ _
        (start_as-registers (registered s.log) (reconciles s.log) (started d node_id)) (refl, refl)

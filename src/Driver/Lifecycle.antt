-- ===== src/Driver/Lifecycle.antt =====
-- pkg/csi/driver.go: in which order a start of the driver opens its socket, serves and stops.
use zerofs_csi_driver.Base.{◌≡◌, refl, ◌⊎◌, inl, inr, Bool, true, false}
use zerofs_csi_driver.Process.{Driver}
use zerofs_csi_driver.Host.{Env, Sys, Exec, Call, Result, Err, ok, err, perform, fail, ◌>>=◌}
use zerofs_csi_driver.Host.Keeps.{Keeps}
use zerofs_csi_driver.Host.Succeeds.{Succeeds, Succeeds-perform, succeeds_rules}
use zerofs_csi_driver.Host.Triple.{Triple, Outcome, Triple-seq, Triple-weaken}
use zerofs_csi_driver.Driver.{
  socket_path, register_controller, register_node, register_services, stop_server, stop,
  connection_timeout, open_socket, serve_until_done, started, start_as, start,
}
use zerofs_csi_driver.Driver.Stages.{
  is_bound, is_stopped, is_served, IsUnserved, other-Keeps, register_services-Keeps, AtStage,
  open_socket-AtStage,
}

module _ {E : Env} where
  abbrev Never : {A : Type 0} → A → Sys E → Type 0
  Never _ t = ⊥

  abbrev IsStopped : Sys E → Type 0
  IsStopped t = is_stopped t.log ≡ true

  serve_until_done-IsStopped :
      (d : Driver)
      → d.has_server ≡ true
      → Triple (AtStage (is_bound socket_path) true) (serve_until_done d) Never IsStopped
  unfolding serve_until_done stop stop_server perform fail ◌>>=◌ AtStage
  serve_until_done-IsStopped d h = record { holds = λ s (k, l). rw h l }

  -- What comes before the socket does not fail.
  Triple-unfailing :
      {A : Type 0} {R : Sys E → Type 0} (m : Exec E A)
      → Succeeds m
      → Keeps IsUnserved m
      → Triple IsUnserved m (λ _. IsUnserved) R
  Triple-unfailing m k l = record { holds = λ s h. rw k.returns (l.holds s h) }

  register_controller-Succeeds :
      (d : Driver) (on : Bool) → Succeeds {E = E} (register_controller d on)
  unfolding register_controller
  register_controller-Succeeds d true = search succeeds_rules
  register_controller-Succeeds d false = search succeeds_rules

  register_node-Succeeds : (d : Driver) (on : Bool) → Succeeds {E = E} (register_node d on)
  unfolding register_node
  register_node-Succeeds d true = search succeeds_rules depth 8
  register_node-Succeeds d false = search succeeds_rules

  register_services-Succeeds : (d : Driver) → Succeeds {E = E} (register_services d)
  unfolding register_services
  register_services-Succeeds d =
      search (succeeds_rules, register_controller-Succeeds, register_node-Succeeds) depth 8

  start_as-ends :
      {R : Sys E → Type 0} (d : Driver)
      → d.has_server ≡ true
      → Triple IsUnserved open_socket (λ _. AtStage (is_bound socket_path) true) R
      → ((t : Sys E) → IsStopped t → R t)
      → Triple IsUnserved (start_as d) Never R
  unfolding start_as
  start_as-ends d h opens stops =
      let timeout = Call.new_server connection_timeout in
      Triple-seq _ _ (Triple-unfailing _ (Succeeds-perform timeout) (other-Keeps timeout refl))
        (λ _.
          Triple-seq _ _
            (Triple-unfailing _ (register_services-Succeeds d) (register_services-Keeps d))
            (λ _. Triple-seq _ _ opens (λ _.
              Triple-weaken _ (λ s k. k) (λ a s k. k) stops (serve_until_done-IsStopped d h))))

  start-ends :
      {R : Sys E → Type 0} (d : Driver) (s : Sys E)
      → IsUnserved s
      → Triple IsUnserved open_socket (λ _. AtStage (is_bound socket_path) true) R
      → ((t : Sys E) → IsStopped t → R t)
      → Outcome Never R (start d s).0 (start d s).1
  unfolding start started perform ◌>>=◌
  start-ends d s h opens stops = (start_as-ends _ refl opens stops).holds _ h

  -- The start returned an error, in a state with a property.
  abbrev pub IsFailedIn : (Sys E → Type 0) → Result Unit × Sys E → Type 0
  IsFailedIn R (r, t) = ((e : Err) × (r ≡ err e)) × R t

  failed_in :
      (R : Sys E → Type 0) (r : Result Unit) (t : Sys E) → Outcome Never R r t → IsFailedIn R (r, t)
  failed_in R (ok a) t h = absurd h
  failed_in R (err e) t h = ((e, refl), h)

  -- A start from a log without a serving server always ends with an error. Then it has not
  -- served, or its last calls were: make the directory of the socket, take away the old
  -- socket, bind the new one, none of which failed, serve it, wait for the end of the context, and
  -- stop the server gracefully.
  pub start-orderly :
      (d : Driver) (s : Sys E)
      → is_served s.log ≡ false
      → IsFailedIn (λ t. (is_served t.log ≡ false) ⊎ (is_stopped t.log ≡ true)) (start d s)
  start-orderly d s h = failed_in _ _ _ (
      start-ends d s h
        (open_socket-AtStage (λ w e t k. inl k) (λ w e t k. inl k) (λ w e t k. inl k))
        (λ t k. inr k))

-- ===== src/Driver/Stages.antt =====
-- pkg/csi/driver.go: the stages of a start, read off the log, and the opening of the socket.
use zerofs_csi_driver.Base.{
  ◌≡◌, refl, ◌∙◌, Bool, true, false, ◌&&◌, List, [], ◌∷◌, Str, codes, ◌===◌, ===_refl,
}
use zerofs_csi_driver.Base.FilePath.{dir}
use zerofs_csi_driver.Process.{Driver}
use zerofs_csi_driver.Host.{
  Env, Sys, Event, did, Call, Reply, Removal, removed, absent, not_removed, unknown, perform,
}
use zerofs_csi_driver.Host.Keeps.{Keeps, keeps_rules}
use zerofs_csi_driver.Host.Triple.{
  Triple, Triple-perform, Triple-pure, Triple-fail, Triple-bind, Triple-seq,
}
use zerofs_csi_driver.Driver.{
  socket_path, register_controller, register_node, register_services, made_dir, cleared_socket,
  listening, open_socket,
}

abbrev pub not_failed : Removal → Bool
not_failed removed = true
not_failed absent = true
not_failed not_removed = false

-- The latest call made the directory of the socket.
abbrev pub is_made : Str → List Event → Bool
is_made p (did (Call.mkdir_all d) made ∷ log) = (d === dir p) && made
is_made p _ = false

-- Behind that, the old socket is gone.
abbrev pub is_cleared : Str → List Event → Bool
is_cleared p (did (Call.remove o) gone ∷ log) = (o === p) && (is_made p log && not_failed gone)
is_cleared p _ = false

-- Behind that, the socket is bound.
abbrev pub is_bound : Str → List Event → Bool
is_bound p (did (Call.listen network q) bound ∷ log) = (q === p) && (is_cleared p log && bound)
is_bound p _ = false

-- The server is served once, behind a socket that is bound, and is stopped when the context is done.
abbrev pub is_stopped : List Event → Bool
is_stopped (did Call.graceful_stop r ∷ did Call.await_done x ∷ did (Call.go_serve p) q ∷ log) =
    is_bound p log
is_stopped _ = false

abbrev pub is_serve : Call → Bool
is_serve (Call.go_serve p) = true
is_serve _ = false

abbrev pub is_served : List Event → Bool
is_served [] = false
is_served (did (Call.go_serve p) r ∷ log) = true
is_served (did _ r ∷ log) = is_served log

is_served-other :
    (c : Call) (r : Reply c) (log : List Event)
    → is_serve c ≡ false
    → is_served (did c r ∷ log) ≡ is_served log
is_served-other (Call.go_serve p) r log h = absurd (cc)
is_served-other _ r log h = refl

module _ {E : Env} where
  abbrev pub IsUnserved : Sys E → Type 0
  IsUnserved t = is_served t.log ≡ false

  pub other-Keeps : (c : Call) → is_serve c ≡ false → Keeps IsUnserved (perform c)
  unfolding perform
  other-Keeps c h = record { holds = λ s k. is_served-other c _ s.log h ∙ k }

  pub register_controller-Keeps :
      (d : Driver) (on : Bool) → Keeps IsUnserved (register_controller d on)
  unfolding register_controller
  register_controller-Keeps d true = search (keeps_rules, other-Keeps)
  register_controller-Keeps d false = search keeps_rules

  pub register_node-Keeps : (d : Driver) (on : Bool) → Keeps IsUnserved (register_node d on)
  unfolding register_node
  register_node-Keeps d true = search (keeps_rules, other-Keeps) depth 8
  register_node-Keeps d false = search keeps_rules

  pub register_services-Keeps : (d : Driver) → Keeps IsUnserved (register_services d)
  unfolding register_services
  register_services-Keeps d =
      search (keeps_rules, other-Keeps, register_controller-Keeps, register_node-Keeps) depth 8

  unfoldable pub AtStage : (List Event → Bool) → Bool → Sys E → Type 0
  AtStage stage b t = IsUnserved t × (stage t.log ≡ b)

  -- `R` holds where the socket cannot be opened.
  module _ {R : Sys E → Type 0} where
    made_dir-AtStage :
        (a : Bool)
        → Triple
            (λ t. AtStage (is_made socket_path) a t × (a ≡ false → R t))
            (made_dir a)
            (λ _. AtStage (is_made socket_path) true)
            R
    unfolding made_dir
    made_dir-AtStage true = Triple-pure tt (λ s k. k.0)
    made_dir-AtStage false = Triple-fail unknown _ (λ s k. k.1 refl)

    cleared_socket-AtStage :
        (a : Removal)
        → Triple
            (λ t. AtStage (is_cleared socket_path) (not_failed a) t × (not_failed a ≡ false → R t))
            (cleared_socket a)
            (λ _. AtStage (is_cleared socket_path) true)
            R
    unfolding cleared_socket
    cleared_socket-AtStage removed = Triple-pure tt (λ s k. k.0)
    cleared_socket-AtStage absent = Triple-pure tt (λ s k. k.0)
    cleared_socket-AtStage not_removed = Triple-fail unknown _ (λ s k. k.1 refl)

    listening-AtStage :
        (a : Bool)
        → Triple
            (λ t. AtStage (is_bound socket_path) a t × (a ≡ false → R t))
            (listening a)
            (λ _. AtStage (is_bound socket_path) true)
            R
    unfolding listening
    listening-AtStage true = Triple-pure tt (λ s k. k.0)
    listening-AtStage false = Triple-fail unknown _ (λ s k. k.1 refl)

    module _
        (no_dir : (w : E.World)
          → (E.answer (Call.mkdir_all (dir socket_path)) w).0 ≡ false
          → (t : Sys E) → IsUnserved t
          → R t)
        (no_removal : (w : E.World)
          → not_failed (E.answer (Call.remove socket_path) w).0 ≡ false
          → (t : Sys E) → IsUnserved t
          → R t)
        (no_socket : (w : E.World)
          → (E.answer (Call.listen (codes "unix") socket_path) w).0 ≡ false
          → (t : Sys E) → IsUnserved t
          → R t) where
      pub open_socket-AtStage :
          Triple IsUnserved open_socket (λ _. AtStage (is_bound socket_path) true) R
      unfolding open_socket AtStage perform
      open_socket-AtStage =
          Triple-bind _ _
            (Triple-perform (Call.mkdir_all (dir socket_path))
              (λ a t. AtStage (is_made socket_path) a t × (a ≡ false → R t))
              (λ s k. ((k, rw (===_refl (dir socket_path)) refl), λ e. no_dir s.world e _ k)))
            (λ made. Triple-seq _ _ (made_dir-AtStage made) (λ _.
              Triple-bind _ _
                (Triple-perform (Call.remove socket_path)
                  (λ gone t.
                    AtStage (is_cleared socket_path) (not_failed gone) t
                    × (not_failed gone ≡ false → R t))
                  (λ s (k, l).
                    ((k, rw (===_refl socket_path, l) refl), λ e. no_removal s.world e _ k)))
                (λ gone. Triple-seq _ _ (cleared_socket-AtStage gone) (λ _.
                  Triple-bind _ _
                    (Triple-perform (Call.listen (codes "unix") socket_path)
                      (λ a t. AtStage (is_bound socket_path) a t × (a ≡ false → R t))
                      (λ s (k, l).
                        ((k, rw (===_refl socket_path, l) refl), λ e. no_socket s.world e _ k)))
                    listening-AtStage))))

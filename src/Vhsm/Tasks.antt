-- ===== src/Vhsm/Tasks.antt =====
-- The tasks of crates/vhsm-daemon/src/listener.rs that run `handle_request` at the same time: each
-- arm gets as far as it holds the state's lock, and the arms of other tasks may come in between.
pub mod Invariant
pub mod Race
use kms_platform.Common.{◌≡◌, List, [], ◌∷◌}
use kms_platform.Host.{Host}
use kms_platform.Common.Picks.{Removes}
use kms_platform.Vhsm.Protocol.{HsmRequest}
use kms_platform.Vhsm.State.{VhsmState, new}
use kms_platform.Vhsm.Handler.{Env, Pending, Started, reply, hold, Outcome, answered, start, resume}

-- The shared state, what the tasks between two holds of the lock remember, and the answers given,
-- the last one first.
pub record World : Type 0 where
  pub state : VhsmState
  pub waiting : List Pending
  pub answers : List Outcome

abbrev pub boot : World
boot = record { state = new; waiting = []; answers = [] }

-- A task runs to where it gives the lock back, or to its end.
unfoldable pub arrive : Started → World → World
arrive (reply r) w = record w { answers = answered r ∷ w.answers }
arrive (hold p) w = record w { waiting = p ∷ w.waiting }

-- A waiting task takes the lock again and ends.
unfoldable pub proceed : Outcome × VhsmState → List Pending → World → World
proceed (answer, s) rest w = record { state = s; waiting = rest; answers = answer ∷ w.answers }

module _ (h : Host) where
  pub data Step : World → World → Type 0 where
    begin : (w : World) (e : Env) (r : HsmRequest) → Step w (arrive (start h e r w.state) w)
    continue :
        (w : World) (p : Pending) (rest : List Pending)
        → Removes p w.waiting rest
        → Step w (proceed (resume h p w.state) rest w)

  pub data Reach (w : World) : World → Type 0 where
    here : Reach w w
    next : {v u : World} → Reach w v → Step v u → Reach w u

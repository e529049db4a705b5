-- ===== src/System/History.antt =====
-- Every operation of every task as one step, and histories of steps in any order.
use van_child_safety.Base.{ℕ, Bool, List, [], ◌∷◌}
use van_child_safety.Types.{Beacon, Telemetry, DistressEvent}
use van_child_safety.World.{World, Env, TakeSite, Config, queue_send}
use van_child_safety.Bus.Commands.{set_co2_baseline, clear_distress, disarm, force_empty}
use van_child_safety.Bus.Poll.{poll}
use van_child_safety.Alarm.Tracker.{republish_distress, notification_round}
use van_child_safety.Alarm.Ack.{ack_distress}
use van_child_safety.System.Frame.{Quiet-queue_send, Quiet-set_telemetry_state}
use van_child_safety.System.Invariant.{baseline-Consistent}
use van_child_safety.System.Steps.{
  Held, Quiet-Held, poll-Held, clear-Held, disarm-Held, force_empty-Held,
}
use van_child_safety.System.AlarmSteps.{republish-Held, round-Held, ack-Held}

-- What the tasks do to the shared state, each as one step. `sense` stands for the writes of the
-- sensor tasks to telemetry and roster, `raise` for their distress events and for distress_test,
-- `connect` for the MQTT client.
pub data Op : Type 0 where
  polls rounds acks clears disarms republishes : Op
  forces : Bool → Op
  raises : DistressEvent → Op
  baselines : ℕ → Op
  senses : Telemetry → List Beacon → Op
  connects : Bool → Op

module _ (cfg : Config) where
  unfoldable pub step : Env → Op → World → World
  unfolding poll notification_round ack_distress clear_distress disarm republish_distress
      force_empty queue_send set_co2_baseline
  step env Op.polls w = poll cfg env w
  step env Op.rounds w = notification_round cfg env w
  step env Op.acks w = ack_distress cfg env w
  step env Op.clears w = clear_distress cfg env w
  step env Op.disarms w = (disarm cfg env w).0
  step env Op.republishes w = republish_distress env w
  step env (Op.forces empty) w = force_empty cfg env empty w
  step env (Op.raises e) w = (queue_send e w).0
  step env (Op.baselines co2) w = set_co2_baseline env co2 w
  step env (Op.senses t bs) w = record w { telemetry = t; beacons = bs }
  step env (Op.connects up) w = record w { connected = up }

  unfoldable pub run : List (Env × Op) → World → World
  unfolding step
  run [] w = w
  run ((env, op) ∷ ops) w = run ops (step env op w)

  baseline-Held : (env : Env) (co2 : ℕ) (w : World) → Held w → Held (set_co2_baseline env co2 w)
  unfolding set_co2_baseline
  baseline-Held env co2 w h =
      Quiet-Held (Quiet-set_telemetry_state env TakeSite.settle _)
        (record { consistent = baseline-Consistent co2 w.bus w.tracker.state h.consistent })

  -- Every operation of every task keeps the state machine, the distress flags, the override and
  -- the tracker in agreement.
  pub step-Held : (env : Env) (op : Op) (w : World) → Held w → Held (step env op w)
  unfolding step
  step-Held env Op.polls w h = poll-Held cfg env w h
  step-Held env Op.rounds w h = round-Held cfg env w h
  step-Held env Op.acks w h = ack-Held cfg env w h
  step-Held env Op.clears w h = clear-Held cfg env w w.tracker.state h.consistent
  step-Held env Op.disarms w h = disarm-Held cfg env w h
  step-Held env Op.republishes w h = republish-Held env w h
  step-Held env (Op.forces empty) w h = force_empty-Held cfg env empty w h
  step-Held env (Op.raises e) w h = Quiet-Held (Quiet-queue_send e w) h
  step-Held env (Op.baselines co2) w h = baseline-Held env co2 w h
  step-Held env (Op.senses t bs) w h = record { consistent = h.consistent }
  step-Held env (Op.connects up) w h = record { consistent = h.consistent }

  pub run-Held : (ops : List (Env × Op)) (w : World) → Held w → Held (run ops w)
  unfolding run
  run-Held [] w h = h
  run-Held ((env, op) ∷ ops) w h = run-Held ops _ (step-Held env op w h)

-- ===== src/System/Alarms.antt =====
-- Which operations publish alarms. Only a round of the notification task and the republication on
-- a reconnect do; all else leaves the published alarms alone.
use van_child_safety.Base.{
  ℕ, ◌+◌, ◌≡◌, refl, ◌∙◌, Bool, true, false, not, ◌&&◌, Option, none, some, arith, ltb,
  if◌then◌else◌,
}
use van_child_safety.Types.{BusState, same_state}
use van_child_safety.World.{
  World, Bus, NotifState, Env, TakeSite, Config, BusEvent, FaultSensor, FaultDetail,
}
use van_child_safety.Bus.Locked.{is_armed, AckPath, ack_locked}
use van_child_safety.Bus.Transitions.{publish_event}
use van_child_safety.Bus.Commands.{set_co2_baseline, force_empty, clear_distress}
use van_child_safety.Bus.Poll.{
  effective_ignition, observe_source, apply_edge, end_grace, clear_fault, fault_persists,
  fault_branch, seen_fault, watch_faults, poll,
}
use van_child_safety.Alarm.Tracker.{same_notif, handle_ack}
use van_child_safety.Alarm.Ack.{ack_branch, ack_distress}
use van_child_safety.System.Frame.{
  Quiet, Quiet-publish_event, Quiet-set_telemetry_state, Quiet-sync_and_publish, Quiet-enter_state,
  Quiet-enter_armed, Quiet-clear_distress, Quiet-disarm, Quiet-queue_send, alarms_in,
}
use van_child_safety.System.Steps.{Quiet-apply_edge}
use van_child_safety.System.History.{Op, step}

-- The operations that may publish an alarm.
abbrev pub sends_alarms : Op → Bool
sends_alarms Op.rounds = true
sends_alarms Op.republishes = true
sends_alarms _ = false

-- No alarm is published between the two worlds.
pub record Silent (w w' : World) : Type 0 where
  pub alarms : alarms_in w'.published ≡ alarms_in w.published

pub Silent-refl : (w : World) → Silent w w
Silent-refl w = record { alarms = refl }

pub Silent-trans : {u v w : World} → Silent u v → Silent v w → Silent u w
Silent-trans p q = record { alarms = q.alarms ∙ p.alarms }

pub Silent-of : (w w' : World) → alarms_in w'.published ≡ alarms_in w.published → Silent w w'
Silent-of w w' e = record { alarms = e }

-- A `Quiet` part whose start differs from `w` in the variables alone.
pub Quiet-Silent : {w w' : World} (b : Bus) → Quiet (record w { bus = b }) w' → Silent w w'
Quiet-Silent b q = record { alarms = q.alarms }

-- A branch that is not taken is silent.
pub off-Silent :
    (c : Bool) {w v : World} (u : World) → c ≡ false → Silent w v → Silent w (if c then u else v)
off-Silent c u e q = rw e q

pub if-Silent : (c : Bool) {w u v : World} → Silent w u → Silent w v → Silent w (if c then u else v)
if-Silent true p q = p
if-Silent false p q = q

fault_persists-Silent :
    (env : Env) (f : FaultSensor × FaultDetail) (w : World) → Silent w (fault_persists env f w)
unfolding fault_persists publish_event alarms_in
fault_persists-Silent env (sensor, detail) w = ground arith

fault_branch-Silent :
    (env : Env) (armed : Bool) (f : Option (FaultSensor × FaultDetail)) (w : World)
    → Silent w (fault_branch env armed f w)
fault_branch-Silent env armed none w = record { alarms = refl }
fault_branch-Silent env true (some f) w = fault_persists-Silent env f w
fault_branch-Silent env false (some f) w = record { alarms = refl }

watch_faults-Silent : (env : Env) (s : BusState) (w : World) → Silent w (watch_faults env s w)
unfolding watch_faults
watch_faults-Silent env s w =
    if-Silent (is_armed w.bus.state && ltb (w.bus.fault_check_at + 30000000) env.now)
      (Silent-of w (fault_branch env critical f checked)
        (fault_branch-Silent env critical f checked).alarms)
      (if-Silent (not (is_armed w.bus.state)) (Silent-of w (clear_fault w) refl) (Silent-refl w))
  where
    critical : Bool
    critical = same_state s BusState.armed

    f : Option (FaultSensor × FaultDetail)
    f = seen_fault env w.telemetry

    checked : World
    checked = record w { bus = record w.bus { fault_check_at = env.now } }

module _ (cfg : Config) (env : Env) where
  end_grace-Silent : (w : World) → Silent w (end_grace cfg env w)
  unfolding end_grace
  end_grace-Silent w = if-Silent _ (Quiet-Silent _ (Quiet-enter_armed cfg env w)) (Silent-refl w)

  poll-Silent : (w : World) → Silent w (poll cfg env w)
  unfolding poll
  poll-Silent w = Silent-trans edge (
      Silent-trans (end_grace-Silent _) (
        Silent-trans (watch_faults-Silent env _ _)
          (Quiet-Silent _ (Quiet-set_telemetry_state env TakeSite.settle _))))
    where
      effective : Bool
      effective = effective_ignition env.raw w.bus

      observed : World
      observed = record w { bus = observe_source env.raw w.bus }

      edge : Silent w (apply_edge cfg env effective observed)
      edge = record { alarms = (Quiet-apply_edge cfg env effective observed).alarms }

  force_empty-Silent : (empty : Bool) (w : World) → Silent w (force_empty cfg env empty w)
  unfolding force_empty
  force_empty-Silent true w = record { alarms = (Quiet-enter_armed cfg env _).alarms }
  force_empty-Silent false w = record {
    alarms = (Quiet-enter_state cfg env BusState.active _).alarms;
  }

  handle_ack-Silent : (w : World) → Silent w (handle_ack cfg env w)
  unfolding handle_ack
  handle_ack-Silent w =
      if-Silent (same_notif w.tracker.state NotifState.triggered) cleared untouched
    where
      idle : World
      idle = record w { tracker = record w.tracker { state = NotifState.idle; last_send = 0 } }

      untouched : Silent w idle
      untouched = record { alarms = refl }

      cleared : Silent w (clear_distress cfg env idle)
      cleared = record { alarms = (Quiet-clear_distress cfg env idle).alarms }

  ack_branch-Silent : (path : AckPath) (w : World) → Silent w (ack_branch cfg env path w)
  unfolding ack_branch
  ack_branch-Silent AckPath.was_pending w = handle_ack-Silent w
  ack_branch-Silent AckPath.was_active w = record {
    alarms =
        (Quiet-publish_event BusEvent.distress_ack _).alarms
        ∙ (Quiet-sync_and_publish cfg env TakeSite.settle w).alarms;
  }
  ack_branch-Silent AckPath.neither w = Silent-refl w

  ack-Silent : (w : World) → Silent w (ack_distress cfg env w)
  unfolding ack_distress
  ack-Silent w = record { alarms = (ack_branch-Silent (ack_locked w.bus).1 _).alarms }

  baseline-Silent : (co2 : ℕ) (w : World) → Silent w (set_co2_baseline env co2 w)
  unfolding set_co2_baseline
  baseline-Silent co2 w = record {
    alarms = (Quiet-set_telemetry_state env TakeSite.settle _).alarms;
  }

  pub step-Silent : (op : Op) (w : World) → sends_alarms op ≡ false → Silent w (step cfg env op w)
  unfolding step
  step-Silent Op.polls w n = poll-Silent w
  step-Silent Op.rounds w n = cc
  step-Silent Op.acks w n = ack-Silent w
  step-Silent Op.clears w n = Silent-of w _ (Quiet-clear_distress cfg env w).alarms
  step-Silent Op.disarms w n = Silent-of w _ (Quiet-disarm cfg env w).alarms
  step-Silent Op.republishes w n = cc
  step-Silent (Op.forces empty) w n = force_empty-Silent empty w
  step-Silent (Op.raises e) w n = Silent-of w _ (Quiet-queue_send e w).alarms
  step-Silent (Op.baselines co2) w n = baseline-Silent co2 w
  step-Silent (Op.senses t bs) w n = Silent-of w _ refl
  step-Silent (Op.connects up) w n = Silent-of w _ refl

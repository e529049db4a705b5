-- ===== src/System/Outcomes.antt =====
-- What disarming and acknowledging come to (main/bus_state.c), and the system from power-on.
use van_child_safety.Base.{
  ◌≡◌, ◌≢◌, ◌↔◌, ◌⊎◌, refl, ap, ◌∙◌, inl, inr, Bool, true, false, not, ◌&&◌, ◌||◌, List, [], arith,
}
use van_child_safety.Base.Int.{pos}
use van_child_safety.Types.{BusState, DisarmResult, DistressType, SensorStatus, same_state}
use van_child_safety.World.{World, Bus, Tracker, NotifState, Env, TakeSite, Config}
use van_child_safety.Bus.Locked.{
  is_armed, AckPath, disarm_locked, ack_locked, reset_distress, enter_state_locked,
}
use van_child_safety.Bus.Commands.{should_transition, clear_distress, disarm_branch, disarm}
use van_child_safety.Bus.Poll.{start_locked, start}
use van_child_safety.Alarm.Tracker.{handle_ack}
use van_child_safety.Alarm.Ack.{ack_branch, ack_distress}
use van_child_safety.System.Frame.{
  Quiet, Quiet-clear_distress, Quiet-after_disarm, Quiet-sync_and_publish, alarms_in, clear_bus,
}
use van_child_safety.System.Invariant.{Consistent, start-Consistent}
use van_child_safety.System.Steps.{Held, Quiet-Held}
use van_child_safety.System.History.{Op, run, run-Held}

-- The file-scope variables are zero at power-on.
abbrev pub power_on : World
power_on = record {
  bus = record {
    state = BusState.boot;
    ignition_on = false;
    override_active = false;
    override_value = false;
    last_raw = false;
    prev_effective = false;
    distress_active = false;
    distress_acknowledged = false;
    exit_grace_started = pos 0;
    armed_generation = 0;
    co2_baseline = 0;
    distress_id = [];
    fault_started_at = 0;
    fault_reported = false;
    fault_check_at = 0;
    bus_empty = false;
  };
  telemetry = record {
    co2 = 0;
    co2_baseline = 0;
    co2_delta_since_armed = pos 0;
    co2_delta_3min = pos 0;
    co2_last_update_us = 0;
    co2_consecutive_rise_count = 0;
    ld2412_target = false;
    ld2412_moving = false;
    ld2412_still = false;
    moving_distance = 0;
    still_distance = 0;
    moving_energy = 0;
    still_energy = 0;
    detection_distance = 0;
    ld2412_light = 0;
    ld2412_last_frame_us = 0;
    ld2412_target_since_us = 0;
    ignition_on = false;
    bus_armed = false;
    bus_state = [];
    co2_status = SensorStatus.ok;
    ld2412_status = SensorStatus.ok;
    ble_status = SensorStatus.ok;
    ble_last_scan_us = 0;
    ble_scan_drop_count = 0;
  };
  tracker = record {
    state = NotifState.idle;
    trigger_time = 0;
    last_send = 0;
    event = record {
      kind = DistressType.beacon_near;
      beacon_name = [];
      co2_delta = 0;
      timestamp = 0;
    };
  };
  beacons = [];
  distress_queue = [];
  connected = false;
  published = [];
}

-- From power-on, whatever the tasks do and in whatever order, the state machine, the flags of the
-- distress, the override and the tracker agree.
pub run-Consistent :
    (cfg : Config) (env : Env) (ops : List (Env × Op))
    → let w = run cfg ops (start cfg env power_on) in Consistent w.bus w.tracker.state
unfolding start
run-Consistent cfg env ops = (run-Held cfg ops (start cfg env power_on) started).consistent
  where
    booted : World
    booted = record power_on { bus = start_locked env.now env.raw power_on.bus }

    started : Held (start cfg env power_on)
    started = Quiet-Held (Quiet-sync_and_publish cfg env TakeSite.settle booted) (record {
      consistent = start-Consistent env.now env.raw power_on.bus refl refl refl refl refl;
    })

-- The states in which a disarm goes through.
abbrev pub may_disarm : Bus → Bool
may_disarm b =
    same_state b.state BusState.exit_grace
    || (same_state b.state BusState.acked
        || (same_state b.state BusState.armed
            && (not b.distress_active || b.distress_acknowledged)))

disarm_locked-ok :
    (b : Bus) (t : NotifState)
    → Consistent b t
    → ((disarm_locked b).1 ≡ DisarmResult.ok) ↔ (may_disarm b ≡ true)
unfolding disarm_locked is_armed
disarm_locked-ok b t c = ground arith

-- In a state, not empty, with no distress and no acknowledgement, and no id; the rest as it was.
abbrev pub without_distress : BusState → Bus → Bus
without_distress s b = record b {
  state = s;
  bus_empty = false;
  distress_active = false;
  distress_acknowledged = false;
  distress_id = [];
}

disarm_locked-bus :
    (b : Bus)
    → (((disarm_locked b).1 ≡ DisarmResult.ok)
        × ((disarm_locked b).0 ≡ without_distress BusState.disarmed b))
      ⊎ (((disarm_locked b).1 ≢ DisarmResult.ok) × ((disarm_locked b).0 ≡ b))
unfolding disarm_locked reset_distress
disarm_locked-bus b = ground arith

module _ (cfg : Config) (env : Env) where
  branch_result : (w : World) (r : DisarmResult) → (disarm_branch cfg env w r).1 ≡ r
  branch_result w DisarmResult.ok = refl
  branch_result w DisarmResult.already = refl
  branch_result w DisarmResult.reject_pending = refl
  branch_result w DisarmResult.reject_unacknowledged = refl
  branch_result w DisarmResult.reject_state = refl

  refused :
      (w : World) (r : DisarmResult) → r ≢ DisarmResult.ok → disarm_branch cfg env w r ≡ (w, r)
  refused w DisarmResult.ok n = absurd (n refl)
  refused w DisarmResult.already n = refl
  refused w DisarmResult.reject_pending n = refl
  refused w DisarmResult.reject_unacknowledged n = refl
  refused w DisarmResult.reject_state n = refl

  -- In a consistent system a disarm is accepted exactly during the exit grace, in the state acked,
  -- and while armed without a distress or with an acknowledged one.
  pub disarm_accepted :
      (w : World) → Held w → ((disarm cfg env w).1 ≡ DisarmResult.ok) ↔ (may_disarm w.bus ≡ true)
  unfolding disarm
  disarm_accepted w h =
      rw (branch_result (record w { bus = (disarm_locked w.bus).0 }) (disarm_locked w.bus).1)
        (disarm_locked-ok w.bus w.tracker.state h.consistent)

  -- An accepted disarm enters `disarmed`, without a distress, an acknowledgement or an id, leaves
  -- the other variables of the state machine as they were, and publishes no alarm; a refused one
  -- changes nothing at all, and publishes nothing.
  pub disarm_outcome :
      (w : World)
      → let (w', r) = disarm cfg env w in
        ((r ≡ DisarmResult.ok)
          × (w'.bus ≡ without_distress BusState.disarmed w.bus)
          × (alarms_in w'.published ≡ alarms_in w.published))
        ⊎ ((r ≢ DisarmResult.ok) × (w' ≡ w))
  unfolding disarm
  disarm_outcome w = elim (disarm_locked-bus w.bus) [
    | inl (ok, b) ↦ rw (ok) (
        inl (
          refl,
          (Quiet-after_disarm cfg env (locked w)).bus ∙ b,
          (Quiet-after_disarm cfg env (locked w)).alarms,
        ))
    | inr (n, b) ↦
        rw (refused (locked w) (disarm_locked w.bus).1 n)
          (inr (n, ap (λ (b : Bus). record w { bus = b }) b))
  ]
    where
      locked : World → World
      locked w = record w { bus = (disarm_locked w.bus).0 }

clear_pending :
    (b : Bus)
    → b.state ≡ BusState.distress_pending
    → b.ignition_on ≡ false
    → (clear_bus b).state ≡ BusState.armed
unfolding should_transition reset_distress enter_state_locked
clear_pending b p off = ground arith

clear_flag : (b : Bus) → (clear_bus b).distress_active ≡ false
unfolding should_transition reset_distress enter_state_locked
clear_flag b = ground arith

ack_pending :
    (b : Bus) → b.state ≡ BusState.distress_pending → ack_locked b ≡ (b, AckPath.was_pending)
unfolding ack_locked
ack_pending b p = ground arith

idle_tracker : World → World
idle_tracker w = record w { tracker = record w.tracker { state = NotifState.idle; last_send = 0 } }

handle_triggered :
    (cfg : Config) (env : Env) (w : World)
    → w.tracker.state ≡ NotifState.triggered
    → handle_ack cfg env w ≡ clear_distress cfg env (idle_tracker w)
unfolding handle_ack idle_tracker
handle_triggered cfg env w t = simp t

-- In a consistent system an acknowledgement in the pending window cancels the alarm: the tracker is
-- idle, the unit is armed without a distress, and no alarm is published.
pub ack_cancels_pending :
    (cfg : Config) (env : Env) (w : World)
    → Held w
    → w.bus.state ≡ BusState.distress_pending
    → let w' = ack_distress cfg env w in
      (w'.bus.state ≡ BusState.armed)
      × (w'.bus.distress_active ≡ false)
      × (w'.tracker.state ≡ NotifState.idle)
      × (alarms_in w'.published ≡ alarms_in w.published)
unfolding ack_distress ack_branch idle_tracker
ack_cancels_pending cfg env w h p =
    rw (ack_pending w.bus p, handle_triggered cfg env w (h.consistent.pending p))
      (
        ap (λ (b : Bus). b.state) q.bus ∙ clear_pending w.bus p off,
        ap (λ (b : Bus). b.distress_active) q.bus ∙ clear_flag w.bus,
        ap (λ (t : Tracker). t.state) q.tracker,
        q.alarms,
      )
  where
    q :
        Quiet
          (record (idle_tracker w) { bus = clear_bus w.bus })
          (clear_distress cfg env (idle_tracker w))
    q = Quiet-clear_distress cfg env (idle_tracker w)

    off : w.bus.ignition_on ≡ false
    off = ground (arith, h.consistent.on_is_active)

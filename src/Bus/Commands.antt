-- ===== src/Bus/Commands.antt =====
-- The calls of main/bus_state.c that other tasks make: distress transitions, clearing, disarming
-- and the manual override. `bus_state_ack_distress` is in Alarm, since it calls the tracker.
use van_child_safety.Base.{ℕ, Bool, true, false, ◌||◌, if◌then◌else◌}
use van_child_safety.Types.{BusState, DisarmResult, same_state}
use van_child_safety.World.{World, Env, TakeSite, Config, BusEvent, mqtt_clear_distress}
use van_child_safety.Bus.Locked.{
  reset_distress, mark_pending_locked, mark_active_locked, disarm_locked, force_empty_locked,
}
use van_child_safety.Bus.Transitions.{
  set_telemetry_state, publish_event, sync_and_publish, enter_state, enter_armed,
}

-- `bus_state_set_co2_baseline`.
unfoldable pub set_co2_baseline : Env → ℕ → World → World
unfolding set_telemetry_state
set_co2_baseline env co2 w =
    set_telemetry_state env TakeSite.settle (record w { bus = record w.bus { co2_baseline = co2 } })

-- The states that `bus_state_clear_distress` leaves.
unfoldable pub should_transition : BusState → Bool
should_transition s =
    same_state s BusState.distress_pending
    || (same_state s BusState.distress_active || same_state s BusState.acked)

module _ (cfg : Config) where
  -- The end of the two calls below: a change is published, a refusal returns as it was.
  abbrev pub publish_if : Env → Bool → World → World × Bool
  publish_if env true w = (sync_and_publish cfg env TakeSite.settle w, true)
  publish_if env false w = (w, false)

  -- `bus_state_mark_distress_pending`.
  unfoldable pub mark_distress_pending : Env → World → World × Bool
  unfolding mark_pending_locked sync_and_publish
  mark_distress_pending env w =
      let (b, done) = mark_pending_locked w.bus in publish_if env done (record w { bus = b })

  -- `bus_state_mark_distress_active`.
  unfoldable pub mark_distress_active : Env → World → World × Bool
  unfolding mark_active_locked sync_and_publish
  mark_distress_active env w =
      let (b, done) = mark_active_locked env.utc w.bus in publish_if env done (record w { bus = b })

  -- The branch of `bus_state_clear_distress`, after the flags are reset.
  unfoldable pub clear_branch : Env → BusState → World → World
  unfolding should_transition enter_state sync_and_publish
  clear_branch env old w =
      if should_transition old
      then (if w.bus.ignition_on
          then enter_state cfg env BusState.active w
          else enter_state cfg env BusState.armed w)
      else sync_and_publish cfg env TakeSite.settle w

  -- `bus_state_clear_distress`.
  unfoldable pub clear_distress : Env → World → World
  unfolding reset_distress mqtt_clear_distress clear_branch publish_event
  clear_distress env w =
      publish_event BusEvent.distress_clear (
        clear_branch env w.bus.state
          (mqtt_clear_distress (record w { bus = reset_distress w.bus })))

  -- What follows a disarm that went through.
  unfoldable pub after_disarm : Env → World → World
  unfolding sync_and_publish mqtt_clear_distress publish_event
  after_disarm env w =
      publish_event BusEvent.disarmed
        (mqtt_clear_distress (sync_and_publish cfg env TakeSite.settle w))

  -- A refused disarm returns with the variables as they were.
  abbrev pub disarm_branch : Env → World → DisarmResult → World × DisarmResult
  disarm_branch env w DisarmResult.ok = (after_disarm env w, DisarmResult.ok)
  disarm_branch env w r = (w, r)

  -- `bus_state_disarm`.
  unfoldable pub disarm : Env → World → World × DisarmResult
  unfolding disarm_locked after_disarm
  disarm env w = let (b, r) = disarm_locked w.bus in disarm_branch env (record w { bus = b }) r

  -- `bus_state_force_empty`.
  unfoldable pub force_empty : Env → Bool → World → World
  unfolding force_empty_locked enter_armed enter_state
  force_empty env empty w =
      let b = force_empty_locked cfg.exit_grace_seconds env.raw env.now empty w.bus in
      if empty
      then enter_armed cfg env (record w { bus = b })
      else enter_state cfg env BusState.active (record w { bus = b })

-- ===== src/Bus/Transitions.antt =====
-- Entering a state (main/bus_state.c): the critical section, and what is published after it.
use van_child_safety.Base.{ℕ, ◌+◌, Bool, true, false, not, ◌&&◌, ltb, leb, if◌then◌else◌}
use van_child_safety.Base.Int.{pos}
use van_child_safety.Types.{SensorStatus, Telemetry, BusState, same_state, bus_state_name}
use van_child_safety.World.{
  World, Env, TakeSite, Config, BusEvent, Message, publish, mqtt_clear_distress,
}
use van_child_safety.Mqtt.Report.{mqtt_publish_bus_state}
use van_child_safety.Roster.Near.{any_near, queue_near_distress_events}
use van_child_safety.Bus.Locked.{is_armed, enter_state_locked, enter_armed_locked}

-- `set_telemetry_state_locked`.
unfoldable pub set_telemetry_state : Env → TakeSite → World → World
unfolding is_armed bus_state_name
set_telemetry_state env site w =
    if env.taken site
    then record w {
      telemetry = record telemetry {
        ignition_on = bus.ignition_on;
        bus_armed = is_armed bus.state;
        bus_state = bus_state_name bus.state;
        co2_baseline = bus.co2_baseline;
      };
    }
    else w
  where
    open w use {bus, telemetry}

-- `publish_simple_event` and `publish_sensor_fault_event`: "state" is read when the event is built.
unfoldable pub publish_event : BusEvent → World → World
unfolding publish
publish_event e w = publish (Message.event e w.bus.state) w

-- `publish_bus_clear_if_clear`.
unfoldable pub publish_bus_clear_if_clear : Env → World → World
unfolding publish_event any_near
publish_bus_clear_if_clear env w =
    if not (env.taken TakeSite.bus_clear && w.telemetry.ld2412_target) && not (any_near w.beacons)
    then publish_event BusEvent.bus_clear w
    else w

-- The `if` ladder at the end of `enter_state`.
unfoldable pub announce : Env → BusState → World → World
unfolding publish_event mqtt_clear_distress queue_near_distress_events publish_bus_clear_if_clear
announce env BusState.active w = publish_event BusEvent.ignition_on (mqtt_clear_distress w)
announce env BusState.disarmed w = mqtt_clear_distress w
announce env BusState.exit_grace w = publish_event BusEvent.ignition_off w
announce env BusState.armed w =
    publish_bus_clear_if_clear env (queue_near_distress_events env (publish_event BusEvent.armed w))
announce env _ w = w

module _ (cfg : Config) where
  -- `bus_state_publish` after `set_telemetry_state_locked`, as most operations call them.
  unfoldable pub sync_and_publish : Env → TakeSite → World → World
  unfolding set_telemetry_state mqtt_publish_bus_state
  sync_and_publish env site w = mqtt_publish_bus_state cfg env (set_telemetry_state env site w)

  -- `enter_state`. Nothing happens if the state is already entered.
  unfoldable pub enter_state : Env → BusState → World → World
  unfolding enter_state_locked sync_and_publish announce
  enter_state env s w =
      if same_state w.bus.state s
      then w
      else announce env s
          (sync_and_publish env TakeSite.transition (record w { bus = enter_state_locked s w.bus }))

abbrev pub status_ok : SensorStatus → Bool
status_ok SensorStatus.ok = true
status_ok _ = false

-- The CO2 reading that `enter_armed` takes for a baseline: 0 unless it is fresh and valid.
unfoldable pub fresh_co2 : Env → Telemetry → ℕ
fresh_co2 env t =
    if ltb 0 t.co2
      && (ltb 0 t.co2_last_update_us
          && (leb env.now (t.co2_last_update_us + 90000000)
              && (leb t.co2_last_update_us env.now && status_ok t.co2_status)))
    then t.co2
    else 0

-- The baseline, and the telemetry that the same wait for the mutex writes.
unfoldable pub take_baseline : Env → World → World
unfolding fresh_co2
take_baseline env w =
    if env.taken TakeSite.baseline
    then record w {
      telemetry = record w.telemetry {
        co2_baseline = fresh_co2 env w.telemetry;
        co2_delta_since_armed = pos 0;
      };
    }
    else w

unfoldable pub armed_baseline : Env → World → ℕ
unfolding fresh_co2
armed_baseline env w = if env.taken TakeSite.baseline then fresh_co2 env w.telemetry else 0

module _ (cfg : Config) where
  -- `enter_armed`.
  unfoldable pub enter_armed : Env → World → World
  unfolding take_baseline armed_baseline enter_armed_locked enter_state
  enter_armed env w =
      let w' = take_baseline env w in
      enter_state cfg env BusState.armed
        (record w' { bus = enter_armed_locked (armed_baseline env w) w'.bus })

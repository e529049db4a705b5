-- ===== src/Bus/Poll.antt =====
-- `bus_state_task` of main/bus_state.c: its start, and one round of its 250 ms loop.
use van_child_safety.Base.{
  ℕ, ◌+◌, ◌-◌, ◌*◌, ◌/◌, Bool, true, false, not, ◌&&◌, Option, none, some, ltb, leb, ◌==◌, eqb,
  if◌then◌else◌,
}
use van_child_safety.Base.Int.{ℤ, pos, negsuc}
use van_child_safety.Types.{SensorStatus, Telemetry, BusState, same_state}
use van_child_safety.World.{World, Bus, Env, TakeSite, Config, BusEvent, FaultSensor, FaultDetail}
use van_child_safety.Bus.Locked.{is_armed}
use van_child_safety.Bus.Transitions.{
  set_telemetry_state, publish_event, sync_and_publish, enter_state, enter_armed,
}

-- The assignments before the loop; `stable` is what the source says first.
unfoldable pub start_locked : ℕ → Bool → Bus → Bus
start_locked now stable b =
    let b' = record b {
      last_raw = stable;
      prev_effective = stable;
      ignition_on = stable;
      fault_check_at = 0;
    } in
    if stable
    then record b' { state = BusState.active; bus_empty = false }
    else record b' { state = BusState.exit_grace; exit_grace_started = pos now }

-- The value that the round works with: the override shadows the source until the source changes.
unfoldable pub effective_ignition : Bool → Bus → Bool
effective_ignition raw b =
    if b.override_active then (if not (eqb raw b.last_raw) then raw else b.override_value) else raw

-- The override is dropped on a change, and the reading is kept for the next round.
unfoldable pub observe_source : Bool → Bus → Bus
observe_source raw b = record b {
  override_active = b.override_active && eqb raw b.last_raw;
  last_raw = raw;
}

abbrev set_ignition : Bool → World → World
set_ignition on w = record w { bus = record w.bus { ignition_on = on } }

-- `started > 0 && now - started >= EXIT_GRACE_S * 1000000`.
unfoldable pub grace_over : ℕ → ℕ → ℤ → Bool
grace_over grace_s now (pos t) = ltb 0 t && leb (t + grace_s * 1000000) now
grace_over grace_s now (negsuc _) = false

-- The fault that the watchdog sees; the radar is named first.
unfoldable pub critical_fault : SensorStatus → SensorStatus → Option (FaultSensor × FaultDetail)
critical_fault SensorStatus.no_uart co2 = some (FaultSensor.ld2412, FaultDetail.no_uart)
critical_fault SensorStatus.error co2 = some (FaultSensor.ld2412, FaultDetail.error)
critical_fault _ SensorStatus.error = some (FaultSensor.scd4x, FaultDetail.error)
critical_fault _ _ = none

abbrev pub clear_fault : World → World
clear_fault w = record w { bus = record w.bus { fault_started_at = 0; fault_reported = false } }

-- A fault while armed: its start, or its report once it has lasted 120 s.
unfoldable pub fault_persists : Env → FaultSensor × FaultDetail → World → World
unfolding publish_event
fault_persists env (sensor, detail) w =
    if w.bus.fault_started_at == 0
    then record w { bus = record w.bus { fault_started_at = env.now; fault_reported = false } }
    else let duration_s = (env.now - w.bus.fault_started_at) / 1000000 in
      if not w.bus.fault_reported && leb 120 duration_s
      then (let w' = publish_event (BusEvent.sensor_fault sensor detail duration_s) w in
          record w' { bus = record w'.bus { fault_reported = true } })
      else w

abbrev pub fault_branch : Env → Bool → Option (FaultSensor × FaultDetail) → World → World
fault_branch env armed none w = clear_fault w
fault_branch env armed (some f) w = if armed then fault_persists env f w else clear_fault w

-- What the watchdog reads, if its wait for the mutex succeeds.
unfoldable pub seen_fault : Env → Telemetry → Option (FaultSensor × FaultDetail)
unfolding critical_fault
seen_fault env t =
    if env.taken TakeSite.faults then critical_fault t.ld2412_status t.co2_status else none

-- The sensor-fault watchdog. `state` is what the round read before the grace ran out.
unfoldable pub watch_faults : Env → BusState → World → World
unfolding is_armed seen_fault fault_persists
watch_faults env state w =
    if is_armed w.bus.state && ltb (w.bus.fault_check_at + 30000000) env.now
    then fault_branch env (same_state state BusState.armed) (seen_fault env w.telemetry)
        (record w { bus = record w.bus { fault_check_at = env.now } })
    else if not (is_armed w.bus.state)
    then clear_fault w
    else w

module _ (cfg : Config) where
  -- `bus_state_task` up to its loop.
  unfoldable pub start : Env → World → World
  unfolding start_locked sync_and_publish
  start env w =
      sync_and_publish cfg env TakeSite.settle
        (record w { bus = start_locked env.now env.raw w.bus })

  -- The edge of the effective value.
  unfoldable pub apply_edge : Env → Bool → World → World
  unfolding enter_state
  apply_edge env effective w =
      if eqb effective w.bus.prev_effective
      then set_ignition effective w
      else let w1 = set_ignition effective w in
        let w2 =
          if effective
          then enter_state cfg env BusState.active w1
          else enter_state cfg env BusState.exit_grace
              (record w1 { bus = record w1.bus { exit_grace_started = pos env.now } }) in
        record w2 { bus = record w2.bus { prev_effective = effective } }

  -- The end of the exit grace.
  unfoldable pub end_grace : Env → World → World
  unfolding grace_over enter_armed
  end_grace env w =
      if same_state w.bus.state BusState.exit_grace
        && grace_over cfg.exit_grace_seconds env.now w.bus.exit_grace_started
      then enter_armed cfg env w
      else w

  -- One round.
  unfoldable pub poll : Env → World → World
  unfolding effective_ignition observe_source apply_edge end_grace watch_faults set_telemetry_state
  poll env w =
      let effective = effective_ignition env.raw w.bus in
      let w1 = apply_edge env effective (record w { bus = observe_source env.raw w.bus }) in
      let w2 = watch_faults env w1.bus.state (end_grace env w1) in
      set_telemetry_state env TakeSite.settle w2

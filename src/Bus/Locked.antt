-- ===== src/Bus/Locked.antt =====
-- The critical sections of main/bus_state.c (between portENTER_CRITICAL and portEXIT_CRITICAL),
-- as functions on the variables that they guard, and the getters.
use van_child_safety.Base.{
  ℕ, ◌+◌, ◌-◌, ◌*◌, ◌/◌, ◌%◌, ◌^◌, Bool, true, false, not, ◌&&◌, ◌||◌, [], ltb, if◌then◌else◌,
}
use van_child_safety.Base.Int.{ℤ, pos, negsuc, sub_ℕ}
use van_child_safety.Base.Text.{is_empty}
use van_child_safety.Types.{BusState, DisarmResult, same_state}
use van_child_safety.World.{Bus, Tm, distress_id_at}

-- `bus_state_is_armed`, of a state.
unfoldable pub is_armed : BusState → Bool
is_armed s =
    same_state s BusState.armed
    || (same_state s BusState.distress_pending
        || (same_state s BusState.distress_active || same_state s BusState.acked))

-- `bus_state_allows_attendance`.
unfoldable pub allows_attendance : BusState → Bool
allows_attendance s = same_state s BusState.active || same_state s BusState.exit_grace

-- What is left of a grace that began at `start`; a start that is not positive gives 0.
unfoldable pub grace_left : ℕ → ℕ → ℤ → ℕ
grace_left grace_s now (pos t) = if ltb 0 t then grace_s - (now - t) / 1000000 else 0
grace_left grace_s now (negsuc _) = 0

-- `bus_state_exit_grace_remaining_s`.
unfoldable pub exit_grace_remaining : ℕ → ℕ → Bus → ℕ
unfolding grace_left
exit_grace_remaining grace_s now b =
    if same_state b.state BusState.exit_grace
    then grace_left grace_s now b.exit_grace_started
    else 0

-- The two assignments that end a distress, and `s_distress_id[0] = '\0'`.
unfoldable pub reset_distress : Bus → Bus
reset_distress b = record b {
  distress_active = false;
  distress_acknowledged = false;
  distress_id = [];
}

-- `enter_state`, once the state differs.
unfoldable pub enter_state_locked : BusState → Bus → Bus
unfolding reset_distress is_armed
enter_state_locked s b =
    if same_state s BusState.active || same_state s BusState.disarmed
    then record (reset_distress b) { state = s; bus_empty = false }
    else if is_armed s
    then record b { state = s; bus_empty = true }
    else record b { state = s }

-- `enter_armed`: the generation is a `uint32_t`.
unfoldable pub enter_armed_locked : ℕ → Bus → Bus
enter_armed_locked co2 b = record b {
  armed_generation = (b.armed_generation + 1) % 2 ^ 32;
  co2_baseline = co2;
}

-- `bus_state_mark_distress_pending`: whether it went through, and the variables.
unfoldable pub mark_pending_locked : Bus → Bus × Bool
mark_pending_locked b =
    if not (same_state b.state BusState.armed) || b.ignition_on
    then (b, false)
    else (record b { state = BusState.distress_pending; bus_empty = true }, true)

-- `bus_state_mark_distress_active`. An id that is set is kept.
unfoldable pub mark_active_locked : Tm → Bus → Bus × Bool
mark_active_locked utc b =
    if not (same_state b.state BusState.distress_pending) || b.ignition_on then (b, false) else (
      record b {
        state = BusState.distress_active;
        distress_active = true;
        distress_acknowledged = false;
        distress_id = if is_empty b.distress_id then distress_id_at utc else b.distress_id;
      },
      true,
    )

pub data AckPath : Type 0 where
  was_pending was_active neither : AckPath

-- `bus_state_ack_distress`.
unfoldable pub ack_locked : Bus → Bus × AckPath
ack_locked b =
    if same_state b.state BusState.distress_pending
    then (b, AckPath.was_pending)
    else if b.distress_active
    then (record b { distress_acknowledged = true; state = BusState.acked }, AckPath.was_active)
    else (b, AckPath.neither)

-- `bus_state_disarm`.
unfoldable pub disarm_locked : Bus → Bus × DisarmResult
unfolding reset_distress
disarm_locked b =
    if same_state b.state BusState.disarmed || b.ignition_on
    then (b, DisarmResult.already)
    else if same_state b.state BusState.distress_pending
    then (b, DisarmResult.reject_pending)
    else if same_state b.state BusState.distress_active
        || (b.distress_active && not b.distress_acknowledged)
    then (b, DisarmResult.reject_unacknowledged)
    else if not (same_state b.state BusState.exit_grace)
        && (not (same_state b.state BusState.armed)
            && (not (same_state b.state BusState.acked)
                && not (same_state b.state BusState.active)))
    then (b, DisarmResult.reject_state)
    else (
      record (reset_distress b) { state = BusState.disarmed; bus_empty = false },
      DisarmResult.ok,
    )

-- `bus_state_force_empty`. The start of the grace is moved back by its length, below zero if the
-- unit has been up for less.
unfoldable pub force_empty_locked : ℕ → Bool → ℕ → Bool → Bus → Bus
force_empty_locked grace_s raw now empty b = record b {
  override_active = true;
  override_value = not empty;
  last_raw = raw;
  prev_effective = not empty;
  ignition_on = not empty;
  exit_grace_started = if empty then sub_ℕ now (grace_s * 1000000) else b.exit_grace_started;
}

-- ===== src/System/Invariant.antt =====
-- The invariant that ties the state machine of main/bus_state.c to the tracker of
-- main/notifications.c, and the critical sections that keep it.
use van_child_safety.Base.{ℕ, ◌≡◌, ◌≢◌, refl, Bool, true, false, not, arith, eqb, if◌then◌else◌}
use van_child_safety.Base.Int.{pos}
use van_child_safety.Base.Text.{is_empty}
use van_child_safety.Types.{BusState}
use van_child_safety.World.{Bus, NotifState, Tm, distress_id_at}
use van_child_safety.Bus.Locked.{
  is_armed, reset_distress, enter_state_locked, enter_armed_locked, mark_pending_locked,
  mark_active_locked, ack_locked, disarm_locked, force_empty_locked,
}
use van_child_safety.Bus.Commands.{should_transition}
use van_child_safety.Bus.Poll.{start_locked, effective_ignition, observe_source}
use van_child_safety.System.Frame.{enter_bus, clear_bus}

pub record Consistent (b : Bus) (t : NotifState) : Type 0 where
  pub booted : b.state ≢ BusState.boot
  pub no_fault : b.state ≢ BusState.fault
  pub on_is_active : b.ignition_on ≡ true → b.state ≡ BusState.active
  pub active_is_on : b.state ≡ BusState.active → b.ignition_on ≡ true
  pub effective : b.prev_effective ≡ b.ignition_on
  pub overriding : b.override_active ≡ true → b.override_value ≡ b.prev_effective
  pub empty : b.bus_empty ≡ is_armed b.state
  pub pending : b.state ≡ BusState.distress_pending → t ≡ NotifState.triggered
  pub alarm : b.state ≡ BusState.distress_active → b.distress_active ≡ true
  pub unacknowledged : b.state ≡ BusState.distress_active → b.distress_acknowledged ≡ false
  pub acked : b.state ≡ BusState.acked → b.distress_acknowledged ≡ true
  pub acknowledged : b.distress_acknowledged ≡ true → b.distress_active ≡ true
  pub raised : b.distress_active ≡ true → t ≡ NotifState.active
  pub raised_armed : b.distress_active ≡ true → is_armed b.state ≡ true
  pub raised_id : is_empty b.distress_id ≡ not b.distress_active

-- `start` establishes it over an idle tracker and no distress.
pub start-Consistent :
    (now : ℕ) (raw : Bool) (b : Bus)
    → b.override_active ≡ false
    → b.distress_active ≡ false
    → b.distress_acknowledged ≡ false
    → b.bus_empty ≡ false
    → is_empty b.distress_id ≡ true
    → Consistent (start_locked now raw b) NotifState.idle
unfolding start_locked is_armed
start-Consistent now raw b o d a e i = ground arith

abbrev pub edge_bus : ℕ → Bool → Bus → Bus
edge_bus now effective b =
    if eqb effective b.prev_effective
    then record b { ignition_on = effective }
    else (let b1 = record b { ignition_on = effective } in
        let b2 =
          if effective
          then enter_bus BusState.active b1
          else enter_bus BusState.exit_grace (record b1 { exit_grace_started = pos now }) in
        record b2 { prev_effective = effective })

pub edge-Consistent :
    (now : ℕ) (raw : Bool) (b : Bus) (t : NotifState)
    → Consistent b t
    → Consistent (edge_bus now (effective_ignition raw b) (observe_source raw b)) t
unfolding effective_ignition observe_source enter_state_locked
edge-Consistent now raw b t c = ground arith

pub enter_armed-Consistent :
    (co2 : ℕ) (b : Bus) (t : NotifState)
    → b.ignition_on ≡ false
    → Consistent b t
    → Consistent (enter_bus BusState.armed (enter_armed_locked co2 b)) t
unfolding enter_armed_locked enter_state_locked
enter_armed-Consistent co2 b t off c = ground arith

pub force_on-Consistent :
    (g now : ℕ) (raw : Bool) (b : Bus) (t : NotifState)
    → Consistent b t
    → Consistent (enter_bus BusState.active (force_empty_locked g raw now false b)) t
unfolding force_empty_locked enter_state_locked
force_on-Consistent g now raw b t c = ground arith

pub force_empty-Consistent :
    (g now co2 : ℕ) (raw : Bool) (b : Bus) (t : NotifState)
    → Consistent b t
    → Consistent
        (enter_bus BusState.armed (enter_armed_locked co2 (force_empty_locked g raw now true b)))
        t
unfolding force_empty_locked enter_state_locked enter_armed_locked
force_empty-Consistent g now co2 raw b t c = ground arith

pub disarm-Consistent :
    (b : Bus) (t : NotifState) → Consistent b t → Consistent (disarm_locked b).0 t
unfolding disarm_locked is_armed
disarm-Consistent b t c = ground arith

-- Clearing keeps it, whatever the tracker becomes, unless the alarm is still pending; and from a
-- pending alarm it leaves that state.
pub clear-Consistent : (b : Bus) (t u : NotifState) → Consistent b t → Consistent (clear_bus b) u
unfolding should_transition reset_distress enter_state_locked
clear-Consistent b t u c = ground arith

-- A new alarm: the tracker is triggered, and goes back to idle if the state machine refuses.
pub begin-Consistent :
    (b : Bus)
    → Consistent b NotifState.idle
    → Consistent
        (mark_pending_locked b).0
        (if (mark_pending_locked b).1 then NotifState.triggered else NotifState.idle)
unfolding mark_pending_locked is_armed
begin-Consistent b c = ground arith

-- The end of the delay: the tracker is active, or idle if the state machine refuses.
pub fire-Consistent :
    (utc : Tm) (b : Bus)
    → is_empty (distress_id_at utc) ≡ false
    → Consistent b NotifState.triggered
    → Consistent
        (mark_active_locked utc b).0
        (if (mark_active_locked utc b).1 then NotifState.active else NotifState.idle)
unfolding mark_active_locked is_armed
fire-Consistent utc b i c = ground arith

-- Without a distress, a tracker may go idle in the states in which the task resets it.
pub reset-Consistent :
    (b : Bus) (t : NotifState)
    → (b.state ≡ BusState.distress_pending → ⊥)
    → b.distress_active ≡ false
    → Consistent b t
    → Consistent b NotifState.idle
reset-Consistent b t p d c = ground arith

pub ack-Consistent : (b : Bus) (t : NotifState) → Consistent b t → Consistent (ack_locked b).0 t
unfolding ack_locked is_armed
ack-Consistent b t c = ground arith

-- The id that `strftime` writes is never empty.
pub distress_id_at-nonempty : (utc : Tm) → is_empty (distress_id_at utc) ≡ false
unfolding distress_id_at
distress_id_at-nonempty utc = refl

-- The variables of the fault watchdog are no part of it.
pub faults-Consistent :
    (started check : ℕ) (reported : Bool) (b : Bus) (t : NotifState)
    → Consistent b t
    → Consistent
        (record b { fault_started_at = started; fault_reported = reported; fault_check_at = check })
        t
faults-Consistent started check reported b t c = ground arith

-- Nor is the CO2 baseline.
pub baseline-Consistent :
    (co2 : ℕ) (b : Bus) (t : NotifState)
    → Consistent b t
    → Consistent (record b { co2_baseline = co2 }) t
baseline-Consistent co2 b t c = ground arith

-- ===== src/System/Watch.antt =====
-- What the sensor-fault watchdog of main/bus_state.c leaves alone, and the poll without an edge.
use van_child_safety.Base.{
  ℕ, ◌+◌, ◌≡◌, refl, ◌∙◌, Bool, true, false, not, ◌&&◌, Option, none, some, arith, ltb,
  if◌then◌else◌,
}
use van_child_safety.Types.{BusState, same_state}
use van_child_safety.World.{World, Bus, Env, FaultSensor, FaultDetail}
use van_child_safety.Bus.Locked.{is_armed}
use van_child_safety.Bus.Transitions.{publish_event}
use van_child_safety.Bus.Poll.{clear_fault, fault_persists, fault_branch, seen_fault, watch_faults}
use van_child_safety.System.Invariant.{edge_bus}

-- The state, the generation and the distress are as they were.
pub record Watched (b b' : Bus) : Type 0 where
  pub state : b'.state ≡ b.state
  pub armed_generation : b'.armed_generation ≡ b.armed_generation
  pub distress_active : b'.distress_active ≡ b.distress_active
  pub distress_id : b'.distress_id ≡ b.distress_id
  pub ignition_on : b'.ignition_on ≡ b.ignition_on
  pub override_active : b'.override_active ≡ b.override_active
  pub override_value : b'.override_value ≡ b.override_value
  pub last_raw : b'.last_raw ≡ b.last_raw

Watched-trans : {a b c : Bus} → Watched a b → Watched b c → Watched a c
Watched-trans p q = record {
  state = q.state ∙ p.state;
  armed_generation = q.armed_generation ∙ p.armed_generation;
  distress_active = q.distress_active ∙ p.distress_active;
  distress_id = q.distress_id ∙ p.distress_id;
  ignition_on = q.ignition_on ∙ p.ignition_on;
  override_active = q.override_active ∙ p.override_active;
  override_value = q.override_value ∙ p.override_value;
  last_raw = q.last_raw ∙ p.last_raw;
}

fault_persists-Watched :
    (env : Env) (f : FaultSensor × FaultDetail) (w : World)
    → Watched w.bus (fault_persists env f w).bus
unfolding fault_persists publish_event
fault_persists-Watched env (sensor, detail) w = ground arith

fault_branch-Watched :
    (env : Env) (armed : Bool) (f : Option (FaultSensor × FaultDetail)) (w : World)
    → Watched w.bus (fault_branch env armed f w).bus
fault_branch-Watched env armed none w = record {
  state = refl;
  armed_generation = refl;
  distress_active = refl;
  distress_id = refl;
  ignition_on = refl;
  override_active = refl;
  override_value = refl;
  last_raw = refl;
}
fault_branch-Watched env true (some f) w = fault_persists-Watched env f w
fault_branch-Watched env false (some f) w = record {
  state = refl;
  armed_generation = refl;
  distress_active = refl;
  distress_id = refl;
  ignition_on = refl;
  override_active = refl;
  override_value = refl;
  last_raw = refl;
}

if-Watched :
    (c : Bool) {b : Bus} (u v : World)
    → Watched b u.bus
    → Watched b v.bus
    → Watched b (if c then u else v).bus
if-Watched true u v p q = p
if-Watched false u v p q = q

pub watch_faults-Watched :
    (env : Env) (s : BusState) (w : World) → Watched w.bus (watch_faults env s w).bus
unfolding watch_faults
watch_faults-Watched env s w =
    if-Watched (is_armed w.bus.state && ltb (w.bus.fault_check_at + 30000000) env.now)
      (fault_branch env critical f checked) otherwise
      (Watched-trans
        (record {
          state = refl;
          armed_generation = refl;
          distress_active = refl;
          distress_id = refl;
          ignition_on = refl;
          override_active = refl;
          override_value = refl;
          last_raw = refl;
        })
        (fault_branch-Watched env critical f checked))
      (if-Watched (not (is_armed w.bus.state)) (clear_fault w) w
        (record {
          state = refl;
          armed_generation = refl;
          distress_active = refl;
          distress_id = refl;
          ignition_on = refl;
          override_active = refl;
          override_value = refl;
          last_raw = refl;
        })
        (record {
          state = refl;
          armed_generation = refl;
          distress_active = refl;
          distress_id = refl;
          ignition_on = refl;
          override_active = refl;
          override_value = refl;
          last_raw = refl;
        }))
  where
    critical : Bool
    critical = same_state s BusState.armed

    f : Option (FaultSensor × FaultDetail)
    f = seen_fault env w.telemetry

    otherwise : World
    otherwise = if not (is_armed w.bus.state) then clear_fault w else w

    checked : World
    checked = record w { bus = record w.bus { fault_check_at = env.now } }

pub still_off :
    (now : ℕ) (effective : Bool) (b : Bus)
    → b.prev_effective ≡ false
    → effective ≡ false
    → edge_bus now effective b ≡ record b { ignition_on = false }
still_off now effective b p e = rw (p, e) refl

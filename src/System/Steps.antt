-- ===== src/System/Steps.antt =====
-- The operations of the tasks as steps of the whole system, and the invariant of every step.
use van_child_safety.Base.{
  ℕ, ◌+◌, ◌-◌, ◌/◌, ltb, leb, ◌==◌, Option, none, some, Bool, true, false, not, ◌&&◌, inl, inr,
  arith, eqb, Bool-cases, if◌then◌else◌,
}
use van_child_safety.Types.{BusState, same_state}
use van_child_safety.World.{
  World, NotifState, Env, TakeSite, Config, BusEvent, FaultSensor, FaultDetail,
}
use van_child_safety.Bus.Locked.{is_armed}
use van_child_safety.Bus.Transitions.{publish_event}
use van_child_safety.Bus.Commands.{clear_distress, disarm, force_empty}
use van_child_safety.Bus.Poll.{
  effective_ignition, observe_source, grace_over, apply_edge, end_grace, watch_faults, poll,
  fault_persists, fault_branch, seen_fault,
}
use van_child_safety.System.Frame.{
  Quiet, Quiet-refl, Quiet-map, Quiet-enter_state, Quiet-enter_armed, Quiet-set_telemetry_state,
  Quiet-publish_event, Quiet-clear_distress, Quiet-disarm,
}
use van_child_safety.System.Invariant.{
  Consistent, edge_bus, edge-Consistent, enter_armed-Consistent, clear-Consistent,
  disarm-Consistent, force_empty-Consistent, force_on-Consistent, faults-Consistent,
}

-- The invariant of a world.
pub record Held (w : World) : Type 0 where
  pub consistent : Consistent w.bus w.tracker.state

pub Quiet-Held : {w w' : World} → Quiet w w' → Held w → Held w'
Quiet-Held q h = record { consistent = rw (q.bus, q.tracker) h.consistent }

pub if-Held : (c : Bool) {u v : World} → Held u → Held v → Held (if c then u else v)
if-Held true hu hv = hu
if-Held false hu hv = hv

module _ (cfg : Config) (env : Env) where
  pub Quiet-apply_edge :
      (effective : Bool) (w : World)
      → Quiet (record w { bus = edge_bus env.now effective w.bus }) (apply_edge cfg env effective w)
  unfolding apply_edge
  Quiet-apply_edge true w = elim (Bool-cases (eqb true w.bus.prev_effective)) [
    | inl e ↦ rw e (Quiet-refl _)
    | inr e ↦ rw e (
        Quiet-map (λ b. record b { prev_effective = true })
          (Quiet-enter_state cfg env BusState.active _))
  ]
  Quiet-apply_edge false w = elim (Bool-cases (eqb false w.bus.prev_effective)) [
    | inl e ↦ rw e (Quiet-refl _)
    | inr e ↦ rw e (
        Quiet-map (λ b. record b { prev_effective = false })
          (Quiet-enter_state cfg env BusState.exit_grace _))
  ]

  end_grace-Held : (w : World) → Held w → Held (end_grace cfg env w)
  unfolding end_grace
  end_grace-Held w h = elim (Bool-cases (same_state w.bus.state BusState.exit_grace && over)) [
    | inl e ↦ rw e (
        Quiet-Held (Quiet-enter_armed cfg env w) (record {
          consistent = enter_armed-Consistent _ w.bus _ (ground (arith, h.consistent)) h.consistent;
        }))
    | inr e ↦ rw e h
  ]
    where
      over : Bool
      over = grace_over cfg.exit_grace_seconds env.now w.bus.exit_grace_started

-- The variables of the fault watchdog are no part of the invariant.
fault_fields-Held :
    (started check : ℕ) (reported : Bool) (w : World)
    → Held w
    → Held (record w {
      bus = record w.bus {
        fault_started_at = started;
        fault_reported = reported;
        fault_check_at = check;
      };
    })
fault_fields-Held started check reported w h = record {
  consistent = faults-Consistent started check reported w.bus _ h.consistent;
}

fault_persists-Held :
    (env : Env) (f : FaultSensor × FaultDetail) (w : World) → Held w → Held (fault_persists env f w)
unfolding fault_persists
fault_persists-Held env (sensor, detail) w h =
    if-Held (w.bus.fault_started_at == 0) (fault_fields-Held env.now w.bus.fault_check_at false w h)
      (if-Held (not w.bus.fault_reported && leb 120 duration_s)
        (fault_fields-Held w'.bus.fault_started_at w'.bus.fault_check_at true w'
          (Quiet-Held (Quiet-publish_event report w) h))
        h)
  where
    duration_s : ℕ
    duration_s = (env.now - w.bus.fault_started_at) / 1000000

    report : BusEvent
    report = BusEvent.sensor_fault sensor detail duration_s

    w' : World
    w' = publish_event report w

fault_branch-Held :
    (env : Env) (armed : Bool) (f : Option (FaultSensor × FaultDetail)) (w : World)
    → Held w
    → Held (fault_branch env armed f w)
fault_branch-Held env armed none w h = fault_fields-Held _ _ _ w h
fault_branch-Held env true (some f) w h = fault_persists-Held env f w h
fault_branch-Held env false (some f) w h = fault_fields-Held _ _ _ w h

watch_faults-Held : (env : Env) (s : BusState) (w : World) → Held w → Held (watch_faults env s w)
unfolding watch_faults
watch_faults-Held env s w h =
    if-Held (is_armed w.bus.state && ltb (w.bus.fault_check_at + 30000000) env.now)
      (fault_branch-Held env (same_state s BusState.armed) (seen_fault env w.telemetry) checked
        (fault_fields-Held w.bus.fault_started_at env.now w.bus.fault_reported w h))
      (if-Held (not (is_armed w.bus.state)) (fault_fields-Held 0 w.bus.fault_check_at false w h) h)
  where
    checked : World
    checked = record w { bus = record w.bus { fault_check_at = env.now } }

module _ (cfg : Config) (env : Env) where
  pub poll-Held : (w : World) → Held w → Held (poll cfg env w)
  unfolding poll
  poll-Held w h = Quiet-Held (Quiet-set_telemetry_state env TakeSite.settle _) (
      watch_faults-Held env _ _
        (end_grace-Held cfg env _ (Quiet-Held (Quiet-apply_edge cfg env effective observed) edge)))
    where
      effective : Bool
      effective = effective_ignition env.raw w.bus

      observed : World
      observed = record w { bus = observe_source env.raw w.bus }

      edge : Held (record w { bus = edge_bus env.now effective observed.bus })
      edge = record { consistent = edge-Consistent env.now env.raw w.bus _ h.consistent }

  pub clear-Held :
      (w : World) (t : NotifState) → Consistent w.bus t → Held (clear_distress cfg env w)
  unfolding clear_distress
  clear-Held w t h =
      Quiet-Held (Quiet-clear_distress cfg env w)
        (record { consistent = clear-Consistent w.bus t _ h })

  pub disarm-Held : (w : World) → Held w → Held (disarm cfg env w).0
  disarm-Held w h =
      Quiet-Held (Quiet-disarm cfg env w)
        (record { consistent = disarm-Consistent w.bus _ h.consistent })

  pub force_empty-Held : (empty : Bool) (w : World) → Held w → Held (force_empty cfg env empty w)
  unfolding force_empty
  force_empty-Held true w h =
      Quiet-Held (Quiet-enter_armed cfg env _)
        (record { consistent = force_empty-Consistent _ _ _ _ w.bus _ h.consistent })
  force_empty-Held false w h = Quiet-Held (Quiet-enter_state cfg env BusState.active _) (record {
    consistent = force_on-Consistent cfg.exit_grace_seconds env.now env.raw w.bus _ h.consistent;
  })

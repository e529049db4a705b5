-- ===== src/System/Grace.antt =====
-- The exit grace of main/bus_state.c: it ends in the armed state, and not before its time.
use van_child_safety.Base.{
  ℕ, ◌+◌, ◌*◌, ◌%◌, ◌^◌, ◌≡◌, refl, ap, ◌∙◌, Bool, true, false, ◌&&◌, arith, ltb, leb,
  if◌then◌else◌,
}
use van_child_safety.Base.Int.{pos}
use van_child_safety.Types.{BusState}
use van_child_safety.World.{World, Bus, NotifState, Env, TakeSite, Config}
use van_child_safety.Bus.Locked.{is_armed, enter_armed_locked, enter_state_locked}
use van_child_safety.Bus.Transitions.{armed_baseline, enter_armed}
use van_child_safety.Bus.Poll.{
  effective_ignition, observe_source, grace_over, apply_edge, end_grace, watch_faults, poll,
}
use van_child_safety.System.Frame.{Quiet-set_telemetry_state, Quiet-enter_armed, enter_bus}
use van_child_safety.System.Invariant.{Consistent}
use van_child_safety.System.Watch.{Watched, watch_faults-Watched, still_off}
use van_child_safety.System.Steps.{Held, Quiet-apply_edge}

-- The condition of the code, at a poll whose start of the grace is `start`.
abbrev pub grace_ended : Config → Env → ℕ → Bool
grace_ended cfg env start = ltb 0 start && leb (start + cfg.exit_grace_seconds * 1000000) env.now

was_off :
    (b : Bus) (t : NotifState)
    → Consistent b t
    → b.state ≡ BusState.exit_grace
    → b.prev_effective ≡ false
was_off b t c g = ground (arith, c.effective, c.on_is_active)

armed_bus :
    (co2 : ℕ) (b : Bus)
    → b.state ≡ BusState.exit_grace
    → let b' = enter_bus BusState.armed (enter_armed_locked co2 b) in
      (b'.state ≡ BusState.armed) × (b'.armed_generation ≡ (b.armed_generation + 1) % 2 ^ 32)
unfolding enter_armed_locked enter_state_locked is_armed
armed_bus co2 b g = ground arith

module _ (cfg : Config) (env : Env) where
  end_grace-over :
      (c : Bool) (w : World)
      → w.bus.state ≡ BusState.exit_grace
      → let w' = if c then enter_armed cfg env w else w in
        (w'.bus.state ≡ (if c then BusState.armed else BusState.exit_grace))
        × (w'.bus.armed_generation
            ≡ (if c then (w.bus.armed_generation + 1) % 2 ^ 32 else w.bus.armed_generation))
  end_grace-over false w g = (g, refl)
  end_grace-over true w g =
      let q = Quiet-enter_armed cfg env w in
      let (s, n) = armed_bus (armed_baseline env w) w.bus g in
      (ap (λ (b : Bus). b.state) q.bus ∙ s, ap (λ (b : Bus). b.armed_generation) q.bus ∙ n)

  end_condition :
      (t : ℕ) (w : World)
      → w.bus.state ≡ BusState.exit_grace
      → w.bus.exit_grace_started ≡ pos t
      → end_grace cfg env w ≡ (if grace_ended cfg env t then enter_armed cfg env w else w)
  unfolding end_grace grace_over
  end_condition t w g s = simp (g, s)

  -- In the exit grace, a poll of a consistent system with the ignition still off arms the unit, with
  -- the next generation, exactly if the grace is over; else both stay as they were.
  pub exit_grace_ends :
      (t : ℕ) (w : World)
      → Held w
      → w.bus.state ≡ BusState.exit_grace
      → w.bus.exit_grace_started ≡ pos t
      → effective_ignition env.raw w.bus ≡ false
      → let w' = poll cfg env w in
        (w'.bus.state ≡ (if grace_ended cfg env t then BusState.armed else BusState.exit_grace))
        × (w'.bus.armed_generation ≡ (
            if grace_ended cfg env t
            then (w.bus.armed_generation + 1) % 2 ^ 32
            else w.bus.armed_generation))
  unfolding poll observe_source
  exit_grace_ends t w h g s off = (
    ap (λ (b : Bus). b.state) quiet ∙ (r.state ∙ (ended.0)),
    ap (λ (b : Bus). b.armed_generation) quiet ∙ (r.armed_generation ∙ ended.1),
  )
    where
      effective : Bool
      effective = effective_ignition env.raw w.bus

      seen : Bus
      seen = observe_source env.raw w.bus

      w1 : World
      w1 = apply_edge cfg env effective (record w { bus = seen })

      w2 : World
      w2 = watch_faults env w1.bus.state (end_grace cfg env w1)

      edge : w1.bus ≡ record seen { ignition_on = false }
      edge =
          (Quiet-apply_edge cfg env effective (record w { bus = seen })).bus
          ∙ still_off env.now effective seen (was_off w.bus w.tracker.state h.consistent g) off

      grace : w1.bus.state ≡ BusState.exit_grace
      grace = ap (λ (b : Bus). b.state) edge ∙ g

      started : w1.bus.exit_grace_started ≡ pos t
      started = ap (λ (b : Bus). b.exit_grace_started) edge ∙ s

      ended :
          ((end_grace cfg env w1).bus.state
            ≡ (if grace_ended cfg env t then BusState.armed else BusState.exit_grace))
          × ((end_grace cfg env w1).bus.armed_generation ≡ (
              if grace_ended cfg env t
              then (w.bus.armed_generation + 1) % 2 ^ 32
              else w.bus.armed_generation))
      ended =
          let (a, n) = end_grace-over (grace_ended cfg env t) w1 grace in
          let e = end_condition t w1 grace started in
          (
            ap (λ (w : World). w.bus.state) e ∙ a,
            ap (λ (w : World). w.bus.armed_generation) e
                ∙ (n
                    ∙ ap
                        (λ (b : Bus).
                          if grace_ended cfg env t
                          then (b.armed_generation + 1) % 2 ^ 32
                          else b.armed_generation)
                        edge),
          )

      r : Watched (end_grace cfg env w1).bus w2.bus
      r = watch_faults-Watched env w1.bus.state (end_grace cfg env w1)

      quiet : (poll cfg env w).bus ≡ w2.bus
      quiet = (Quiet-set_telemetry_state env TakeSite.settle w2).bus

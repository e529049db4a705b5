-- ===== src/System/Forced.antt =====
-- `bus_empty_on` (main/bus_state.c) while a distress is acknowledged.
use van_child_safety.Base.{ℕ, ◌≡◌, refl, ap, ◌∙◌, Bool, true, arith}
use van_child_safety.Types.{BusState}
use van_child_safety.World.{World, Bus, Env, Config}
use van_child_safety.Bus.Locked.{
  is_armed, force_empty_locked, enter_armed_locked, enter_state_locked,
}
use van_child_safety.Bus.Transitions.{armed_baseline}
use van_child_safety.Bus.Commands.{force_empty}
use van_child_safety.Alarm.Tracker.{notification_round}
use van_child_safety.System.Frame.{Quiet, Quiet-enter_armed, enter_bus, alarms_in}
use van_child_safety.System.Steps.{Held, force_empty-Held}
use van_child_safety.System.History.{Op, step}
use van_child_safety.System.Alarms.{step-Silent}
use van_child_safety.System.Rounds.{acknowledged_is_silent}

forced_bus :
    (g now co2 : ℕ) (raw : Bool) (b : Bus)
    → let b' =
        enter_bus BusState.armed (enter_armed_locked co2 (force_empty_locked g raw now true b)) in
      (b'.state ≡ BusState.armed) × (b'.distress_acknowledged ≡ b.distress_acknowledged)
unfolding force_empty_locked enter_armed_locked enter_state_locked is_armed
forced_bus g now co2 raw b = ground arith

module _ (cfg : Config) (env : Env) where
  forced :
      (w : World)
      → let b' = (force_empty cfg env true w).bus in
        (b'.state ≡ BusState.armed) × (b'.distress_acknowledged ≡ w.bus.distress_acknowledged)
  unfolding force_empty
  forced w =
      let (s, a) =
        forced_bus cfg.exit_grace_seconds env.now (armed_baseline env before) env.raw w.bus in
      (ap (λ (b : Bus). b.state) q.bus ∙ s, ap (λ (b : Bus). b.distress_acknowledged) q.bus ∙ a)
    where
      before : World
      before = record w {
        bus = force_empty_locked cfg.exit_grace_seconds env.raw env.now true w.bus;
      }

      entered : Bus
      entered = enter_bus BusState.armed (enter_armed_locked (armed_baseline env before) before.bus)

      q : Quiet (record before { bus = entered }) (force_empty cfg env true w)
      q = Quiet-enter_armed cfg env before

  -- A forced empty van over an acknowledged distress is armed, still acknowledged, and the next
  -- round of the notification task publishes no alarm, whatever is queued.
  pub forced_empty_stays_silent :
      (later : Env) (w : World)
      → Held w
      → w.bus.distress_acknowledged ≡ true
      → let w' = force_empty cfg env true w in
        (w'.bus.state ≡ BusState.armed)
        × (w'.bus.distress_acknowledged ≡ true)
        × (alarms_in (notification_round cfg later w').published ≡ alarms_in w.published)
  unfolding step
  forced_empty_stays_silent later w h a =
      let (s, k) = forced w in
      let held = force_empty-Held cfg env true w h in
      (
        s,
        k ∙ a,
        acknowledged_is_silent cfg later Op.rounds (force_empty cfg env true w) held (k ∙ a)
            ∙ (step-Silent cfg env (Op.forces true) w refl).alarms,
      )

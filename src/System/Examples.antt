-- ===== src/System/Examples.antt =====
-- The theorems on the whole system, applied: one night of a unit from power-on to the alarm.
use van_child_safety.Base.Int.{pos}
use van_child_safety.System.Grace.{grace_ended, exit_grace_ends}
use van_child_safety.System.Override.{polls, poll_follows_ignition}
use van_child_safety.Roster.Distinct.{All}
use van_child_safety.System.Forced.{forced_empty_stays_silent}
use van_child_safety.Base.{
  ◌+◌, ◌%◌, ◌^◌, if◌then◌else◌, ◌≡◌, ◌≢◌, ◌⊎◌, refl, true, false, List, [], ◌∷◌, arith,
}
use van_child_safety.Base.Text.{codes}
use van_child_safety.Types.{BusState, DisarmResult, DistressType, DistressEvent}
use van_child_safety.World.{World, NotifState, Env, default_config}
use van_child_safety.Bus.Locked.{is_armed}
use van_child_safety.Bus.Commands.{disarm, force_empty}
use van_child_safety.Bus.Poll.{start, effective_ignition, poll}
use van_child_safety.Alarm.Tracker.{notification_round}
use van_child_safety.Samples.{at}
use van_child_safety.System.Frame.{alarms_in}
use van_child_safety.System.Invariant.{Consistent}
use van_child_safety.System.Steps.{Held}
use van_child_safety.System.History.{Op, step, run}
use van_child_safety.System.Rounds.{acknowledged_is_silent}
use van_child_safety.System.Pending.{Alarmed, pending_fires}
use van_child_safety.System.Persistence.{distress_persists}
use van_child_safety.System.Outcomes.{power_on, run-Consistent, without_distress, disarm_outcome}

abbrev presence : DistressEvent
presence = record {
  kind = DistressType.presence_detected;
  beacon_name = [];
  co2_delta = 0;
  timestamp = 190000000;
}

-- The grace of 120 s, the alarm at 200 s.
abbrev night : List (Env × Op)
night =
    (at 1, Op.connects true)
    ∷ (at 125, Op.polls)
    ∷ (at 190, Op.raises presence)
    ∷ (at 200, Op.rounds)
    ∷ []

abbrev pending_world : World
pending_world = record power_on {
  bus = record power_on.bus {
    state = BusState.distress_pending;
    bus_empty = true;
    armed_generation = 1;
  };
  tracker = record {
    state = NotifState.triggered;
    trigger_time = 200000000;
    last_send = 0;
    event = presence;
  };
  connected = true;
}

pending_world-Held : Held pending_world
unfolding is_armed
pending_world-Held = record { consistent = ground arith }

abbrev acked_world : World
acked_world = record pending_world {
  bus = record pending_world.bus {
    state = BusState.acked;
    distress_active = true;
    distress_acknowledged = true;
    distress_id = codes "distress-1";
  };
  tracker = record pending_world.tracker { state = NotifState.active };
}

acked_world-Held : Held acked_world
unfolding is_armed
acked_world-Held = record { consistent = ground arith }

night_is_pending :
    (run default_config night (start default_config (at 1) power_on)).bus.state
    ≡ BusState.distress_pending
unfolding run start
night_is_pending = refl

run-Consistent_example :
    let w = run default_config night (start default_config (at 1) power_on) in
    Consistent w.bus w.tracker.state
run-Consistent_example = run-Consistent default_config (at 1) night

acknowledged_is_silent_example :
    alarms_in (step default_config (at 500) Op.rounds acked_world).published
    ≡ alarms_in acked_world.published
acknowledged_is_silent_example =
    acknowledged_is_silent default_config (at 500) Op.rounds acked_world acked_world-Held refl

pending_fires_example :
    Alarmed (at 320) pending_world (notification_round default_config (at 320) pending_world)
pending_fires_example =
    pending_fires default_config (at 320) pending_world pending_world-Held refl refl (omega arith)

distress_persists_example :
    ((step default_config (at 500) (Op.forces true) acked_world).bus.distress_active ≡ true)
    × ((step default_config (at 500) (Op.forces true) acked_world).bus.distress_id
        ≡ codes "distress-1")
distress_persists_example =
    distress_persists default_config (at 500) (Op.forces true) acked_world acked_world-Held refl
      refl

disarm_outcome_example :
    let (w', r) = disarm default_config (at 500) pending_world in
    ((r ≡ DisarmResult.ok)
      × (w'.bus ≡ without_distress BusState.disarmed pending_world.bus)
      × (alarms_in w'.published ≡ alarms_in pending_world.published))
    ⊎ ((r ≢ DisarmResult.ok) × (w' ≡ pending_world))
disarm_outcome_example = disarm_outcome default_config (at 500) pending_world

abbrev grace_world : World
grace_world = record power_on {
  bus = record power_on.bus { state = BusState.exit_grace; exit_grace_started = pos 1000000 };
}

grace_world-Held : Held grace_world
unfolding is_armed
grace_world-Held = record { consistent = ground arith }

exit_grace_ends_example :
    let w' = poll default_config (at 121) grace_world in
    (w'.bus.state ≡ (
      if grace_ended default_config (at 121) 1000000 then BusState.armed else BusState.exit_grace))
    × (w'.bus.armed_generation
        ≡ (if grace_ended default_config (at 121) 1000000 then (0 + 1) % 2 ^ 32 else 0))
unfolding effective_ignition
exit_grace_ends_example =
    exit_grace_ends default_config (at 121) 1000000 grace_world grace_world-Held refl refl refl

grace_is_over : grace_ended default_config (at 121) 1000000 ≡ true
grace_is_over = refl

-- Forced to drive, with the source off.
abbrev forced_world : World
forced_world = record grace_world {
  bus = record grace_world.bus { override_active = true; override_value = true };
}

poll_follows_ignition_example :
    let b' = (poll default_config (at 121) forced_world).bus in
    (false ≢ false → (b'.ignition_on ≡ false) × (b'.override_active ≡ false))
    × (true ≡ false → (b'.ignition_on ≡ false) × (b'.override_active ≡ false))
    × (true ≡ true
        → false ≡ false
        → (envs : List Env) → All (λ (later : Env). later.raw ≡ false) envs
        → let b'' = (polls default_config envs (poll default_config (at 121) forced_world)).bus in
          (b''.ignition_on ≡ true) × (b''.override_active ≡ true))
    × (b'.last_raw ≡ false)
poll_follows_ignition_example = poll_follows_ignition default_config (at 121) forced_world

forced_empty_stays_silent_example :
    let w' = force_empty default_config (at 500) true acked_world in
    (w'.bus.state ≡ BusState.armed)
    × (w'.bus.distress_acknowledged ≡ true)
    × (alarms_in (notification_round default_config (at 600) w').published ≡ alarms_in [])
forced_empty_stays_silent_example =
    forced_empty_stays_silent default_config (at 500) (at 600) acked_world acked_world-Held refl

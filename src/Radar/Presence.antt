-- ===== src/Radar/Presence.antt =====
-- The presence trigger of main/sensor_ld2412.c (evaluate_presence_trigger).
use van_child_safety.Base.{
  ℕ, ◌+◌, ◌-◌, ◌*◌, ◌/◌, Bool, true, false, not, ◌&&◌, ◌||◌, [], ltb, leb, ◌==◌, if◌then◌else◌,
}
use van_child_safety.Types.{DistressType, DistressEvent}
use van_child_safety.World.{World, Env, TakeSite, Config, queue_send}
use van_child_safety.Bus.Locked.{is_armed}

-- `s_target_since` to `s_target_was_present_at_arm`; a time of 0 stands for none.
pub record Presence : Type 0 where
  pub target_since : ℕ
  pub reported_generation : ℕ
  pub seen_armed_generation : ℕ
  pub target_dropped_at : ℕ
  pub present_at_arm : Bool

abbrev pub power_on_presence : Presence
power_on_presence = record {
  target_since = 0;
  reported_generation = 0;
  seen_armed_generation = 0;
  target_dropped_at = 0;
  present_at_arm = false;
}

-- A new armed generation: the dwell of a target that is there counts from now.
unfoldable pub see_generation : ℕ → Bool → ℕ → Presence → Presence
see_generation now has_target generation p =
    if generation == p.seen_armed_generation then p else record {
      target_since = if has_target then now else p.target_since;
      reported_generation = 0;
      seen_armed_generation = generation;
      target_dropped_at = if has_target then 0 else p.target_dropped_at;
      present_at_arm = has_target;
    }

-- A frame with a target: `s_target_dropped_at` and `s_target_since`.
unfoldable pub note_target : ℕ → Presence → Presence
note_target now p = record p {
  target_dropped_at = 0;
  target_since = if p.target_since == 0 then now else p.target_since;
}

abbrev pub write_since : Env → TakeSite → ℕ → World → World
write_since env site t w =
    if env.taken site
    then record w { telemetry = record w.telemetry { ld2412_target_since_us = t } }
    else w

abbrev pub presence_event : ℕ → DistressEvent
presence_event now = record {
  kind = DistressType.presence_detected;
  beacon_name = [];
  co2_delta = 0;
  timestamp = now;
}

-- The distance gate and the energy gate.
unfoldable pub passes_gates : Config → ℕ → ℕ → Bool
passes_gates cfg still_distance still_energy =
    not (
      ltb cfg.presence_still_distance_max_cm 9999
      && ltb cfg.presence_still_distance_max_cm still_distance)
    && not (ltb 0 cfg.presence_still_energy_min && ltb still_energy cfg.presence_still_energy_min)

-- `required_s`.
abbrev pub required_s : Config → Presence → ℕ
required_s cfg p =
    if p.present_at_arm then cfg.presence_sustain_armed_existing_s else cfg.presence_sustain_s

-- An event that the queue refused is not counted as reported.
abbrev pub send_result : ℕ → Presence → World × Bool → Presence × World
send_result generation p (w, true) = (record p { reported_generation = generation }, w)
send_result generation p (w, false) = (p, w)

module _ (cfg : Config) where
  -- The frames without a target.
  unfoldable pub target_absent : Env → Presence → World → Presence × World
  target_absent env p w =
      if p.target_dropped_at == 0
      then (record p { target_dropped_at = env.now }, w)
      else if ltb env.now (p.target_dropped_at + cfg.presence_target_drop_debounce_ms * 1000)
      then (p, w)
      else (
        record p { target_since = 0; target_dropped_at = 0; reported_generation = 0 },
        write_since env TakeSite.radar_drop 0 w,
      )

  -- The end of the function: the event, once the target has stayed long enough.
  unfoldable pub report_presence : Env → ℕ → ℕ → Presence → World → Presence × World
  unfolding is_armed passes_gates queue_send
  report_presence env still_distance still_energy p w =
      let generation = w.bus.armed_generation in
      if not (is_armed w.bus.state) || (generation == 0 || p.reported_generation == generation)
      then (p, w)
      else if not (passes_gates cfg still_distance still_energy)
      then (p, w)
      else if leb (required_s cfg p) ((env.now - p.target_since) / 1000000)
      then send_result generation p (queue_send (presence_event env.now) w)
      else (p, w)

  -- After the armed generation is seen.
  unfoldable pub evaluate_target : Env → Bool → ℕ → ℕ → Presence → World → Presence × World
  unfolding target_absent note_target report_presence
  evaluate_target env true still_distance still_energy p w =
      let p' = note_target env.now p in
      report_presence env still_distance still_energy p'
        (write_since env TakeSite.radar_since p'.target_since w)
  evaluate_target env false still_distance still_energy p w = target_absent env p w

  -- `evaluate_presence_trigger`.
  unfoldable pub evaluate_presence_trigger :
      Env → Bool → ℕ → ℕ → Presence → World → Presence × World
  unfolding see_generation evaluate_target
  evaluate_presence_trigger env has_target still_distance still_energy p w =
      evaluate_target env has_target still_distance still_energy
        (see_generation env.now has_target w.bus.armed_generation p) w

-- ===== src/Co2/Tracker.antt =====
-- One reading in `co2_tracker_task` of main/co2_tracker.c. The int16_t fields of telemetry are
-- clamped as the code clamps them.
use van_child_safety.Base.{
  ℕ, suc, ◌+◌, ◌-◌, ◌%◌, Bool, true, false, not, ◌&&◌, List, [], ltb, leb, ◌==◌, if◌then◌else◌,
  replicate, set, get_or,
}
use van_child_safety.Base.Int.{ℤ, pos, negsuc, pos_part, sub_ℕ, ltb_ℤ, leb_ℤ}
use van_child_safety.Types.{DistressType, DistressEvent, Telemetry}
use van_child_safety.World.{World, Env, TakeSite, Config, queue_send}
use van_child_safety.Mqtt.Report.{is_stale}
use van_child_safety.Bus.Locked.{is_armed}
use van_child_safety.Bus.Commands.{set_co2_baseline}

-- `s_buffer` to `s_alerted_this_armed`.
pub record Co2 : Type 0 where
  pub buffer : List ℕ
  pub idx : ℕ
  pub count : ℕ
  pub seen_armed_generation : ℕ
  pub consecutive_rise : ℕ
  pub alerted_this_armed : Bool

abbrev pub power_on_co2 : Config → Co2
power_on_co2 cfg = record {
  buffer = replicate cfg.co2_window_readings 0;
  idx = 0;
  count = 0;
  seen_armed_generation = 0;
  consecutive_rise = 0;
  alerted_this_armed = false;
}

-- A new armed generation.
unfoldable pub see_generation : ℕ → Co2 → Co2
see_generation generation c = if generation == c.seen_armed_generation then c else record c {
  seen_armed_generation = generation;
  consecutive_rise = 0;
  alerted_this_armed = false;
}

-- The reading goes into the ring.
unfoldable pub push_reading : ℕ → ℕ → Co2 → Co2
push_reading window co2 c = record c {
  buffer = set c.buffer c.idx co2;
  idx = suc c.idx % window;
  count = if ltb c.count window then suc c.count else c.count;
}

-- `s_buffer[oldest_idx]`. `s_idx - s_count + WINDOW_SIZE` is not negative.
unfoldable pub oldest_reading : ℕ → Co2 → ℕ
oldest_reading window c = get_or c.buffer ((c.idx + window - c.count) % window) 0

-- The clamp to int16_t.
unfoldable pub clamp_16 : ℤ → ℤ
clamp_16 z =
    if ltb_ℤ (pos 32767) z then pos 32767 else if ltb_ℤ z (negsuc 32767) then negsuc 32767 else z

-- `since_armed`.
abbrev pub since_armed : ℕ → World → ℤ
since_armed co2 w = sub_ℕ co2 w.bus.co2_baseline

-- The two deltas in telemetry.
unfoldable pub write_deltas : Env → ℕ → ℤ → World → World
unfolding clamp_16
write_deltas env co2 delta w =
    if env.taken TakeSite.co2_delta
    then record w {
      telemetry = record w.telemetry {
        co2_delta_3min = delta;
        co2_delta_since_armed = clamp_16 (since_armed co2 w);
      };
    }
    else w

-- `stale` and `delta_3min_snapshot`, if the wait for the mutex succeeds.
abbrev pub read_stale : Env → Telemetry → Bool
read_stale env t =
    if env.taken TakeSite.co2_read then is_stale env.now t.co2_last_update_us else false

abbrev pub read_delta : Env → Telemetry → ℤ
read_delta env t = if env.taken TakeSite.co2_read then t.co2_delta_3min else pos 0

abbrev pub co2_event : ℕ → ℤ → DistressEvent
co2_event now since = record {
  kind = DistressType.co2_rise;
  beacon_name = [];
  co2_delta = pos_part since % 65536;
  timestamp = now;
}

abbrev pub write_count : Env → Co2 × World → Co2 × World
write_count env (c, w) = (
  c,
  if env.taken TakeSite.co2_count
      then record w {
        telemetry = record w.telemetry { co2_consecutive_rise_count = c.consecutive_rise % 256 };
      }
      else w,
)

module _ (cfg : Config) where
  -- The first reading after arming without a baseline becomes the baseline.
  unfoldable pub init_baseline : Env → ℕ → Co2 → World → Co2 × World
  unfolding is_armed set_co2_baseline
  init_baseline env co2 c w =
      if is_armed w.bus.state && (w.bus.co2_baseline == 0 && ltb 0 co2)
      then (let w' = set_co2_baseline env co2 w in
          (
            record c { consecutive_rise = 0 },
            if env.taken TakeSite.co2_zero
                then record w' { telemetry = record w'.telemetry { co2_delta_since_armed = pos 0 } }
                else w',
          ))
      else (c, w)

  -- `trigger_condition`.
  unfoldable pub rise_triggers : Env → ℕ → World → Bool
  unfolding is_armed is_stale
  rise_triggers env co2 w =
      is_armed w.bus.state
      && (leb_ℤ (pos cfg.co2_rise_threshold_ppm) (since_armed co2 w)
          && (not (read_stale env w.telemetry)
              && not (
                  cfg.co2_require_delta_3min_rising && leb_ℤ (read_delta env w.telemetry) (pos 0))))

  -- The second rise in a row sends the event. `s_alerted_this_armed` is set whether or not the
  -- queue takes it.
  unfoldable pub count_rise : Env → ℕ → Co2 → World → Co2 × World
  unfolding rise_triggers queue_send is_armed
  count_rise env co2 c w =
      if rise_triggers env co2 w
      then (let c' = record c { consecutive_rise = suc c.consecutive_rise } in
          if not c.alerted_this_armed && leb 2 c'.consecutive_rise
          then (
            record c' { alerted_this_armed = true },
            (queue_send (co2_event env.now (since_armed co2 w)) w).0,
          )
          else (c', w))
      else (
        record c {
          consecutive_rise = 0;
          alerted_this_armed = c.alerted_this_armed && is_armed w.bus.state;
        },
        w,
      )

  -- What follows once there are two readings.
  unfoldable pub evaluate_rise : Env → ℕ → Co2 → World → Co2 × World
  unfolding oldest_reading clamp_16 write_deltas count_rise
  evaluate_rise env co2 c w =
      if leb 2 c.count
      then (let delta = clamp_16 (sub_ℕ co2 (oldest_reading cfg.co2_window_readings c)) in
          write_count env (count_rise env co2 c (write_deltas env co2 delta w)))
      else (c, w)

  -- One round of `co2_tracker_task`.
  unfoldable pub track_reading : Env → ℕ → Co2 → World → Co2 × World
  unfolding see_generation push_reading init_baseline evaluate_rise
  track_reading env co2 c w =
      let c1 = push_reading cfg.co2_window_readings co2 (see_generation w.bus.armed_generation c) in
      let (c2, w2) = init_baseline env co2 c1 w in evaluate_rise env co2 c2 w2

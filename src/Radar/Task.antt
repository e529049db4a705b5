-- ===== src/Radar/Task.antt =====
-- Finished radar frames and the task of main/sensor_ld2412.c.
use van_child_safety.Base.{
  ℕ, ◌+◌, ◌-◌, ◌*◌, Bool, not, ◌&&◌, ◌||◌, List, [], ◌∷◌, ltb, leb, ◌==◌, if◌then◌else◌, length,
  get_or,
}
use van_child_safety.Types.{SensorStatus, Telemetry}
use van_child_safety.World.{World, Env, TakeSite, Config}
use van_child_safety.Radar.Parser.{Parser, FrameEnd, parse_byte}
use van_child_safety.Radar.Presence.{Presence, evaluate_presence_trigger}

-- The file-scope variables, but for those that only a log line reads.
pub record Radar : Type 0 where
  pub parser : Parser
  pub presence : Presence
  pub byte_count : ℕ
  pub last_log : ℕ

-- What the first bytes of a payload say; the bytes past `len` are not read.
pub record Target : Type 0 where
  pub has_target : Bool
  pub has_moving : Bool
  pub has_still : Bool
  pub moving_dist : ℕ
  pub moving_energy : ℕ
  pub still_dist : ℕ
  pub still_energy : ℕ
  pub detect_dist : ℕ

unfoldable pub read_target : List ℕ → ℕ → Target
read_target bytes len = record {
  has_target = not (byte 0 == 0);
  has_moving = byte 0 == 1 || byte 0 == 3;
  has_still = byte 0 == 2 || byte 0 == 3;
  moving_dist = byte 1 + byte 2 * 256;
  moving_energy = byte 3;
  still_dist = byte 4 + byte 5 * 256;
  still_energy = byte 6;
  detect_dist = if leb 9 len then byte 7 + byte 8 * 256 else 0;
}
  where
    byte : ℕ → ℕ
    byte i = get_or bytes i 0

unfoldable pub write_target : ℕ → Target → Telemetry → Telemetry
write_target now d t = record t {
  ld2412_target = d.has_target;
  ld2412_moving = d.has_moving;
  ld2412_still = d.has_still;
  moving_distance = d.moving_dist;
  still_distance = d.still_dist;
  moving_energy = d.moving_energy;
  still_energy = d.still_energy;
  detection_distance = d.detect_dist;
  ld2412_last_frame_us = now;
}

-- `s_data[37]`, which an engineering target frame carries.
unfoldable pub write_light : Env → Parser → World → World
write_light env p w =
    if (p.std_type == 1 && leb 38 p.data_idx) && env.taken TakeSite.radar_light
    then record w { telemetry = record w.telemetry { ld2412_light = get_or p.data_bytes 37 0 } }
    else w

-- `new_status`: no byte since the counter was reset and no frame ever, or no frame for 90 s.
unfoldable pub radar_status : ℕ → ℕ → ℕ → SensorStatus
radar_status now byte_count last_frame_us =
    if byte_count == 0 && last_frame_us == 0
    then SensorStatus.no_uart
    else if ltb 0 last_frame_us && ltb (last_frame_us + 90000000) now
    then SensorStatus.stale
    else SensorStatus.ok

module _ (cfg : Config) where
  -- What both kinds of frame do with the target that they carry.
  unfoldable pub handle_target : Env → Target → Presence → World → Presence × World
  unfolding write_target evaluate_presence_trigger
  handle_target env d p w =
      evaluate_presence_trigger cfg env d.has_target d.still_dist d.still_energy p (
        if env.taken TakeSite.radar_frame
        then record w { telemetry = write_target env.now d w.telemetry }
        else w)

  -- `process_frame_eng`.
  unfoldable pub process_frame_eng : Env → ℕ → List ℕ → ℕ → Presence → World → Presence × World
  unfolding read_target handle_target
  process_frame_eng env cmd bytes len p w =
      if (cmd == 0xAA02 || cmd == 0x0101) && leb 9 len
      then handle_target env (read_target bytes len) p w
      else (p, w)

  -- `process_frame_std`.
  unfoldable pub process_frame_std : Env → List ℕ → ℕ → Presence → World → Presence × World
  unfolding read_target handle_target
  process_frame_std env bytes len p w =
      if ltb len 7 then (p, w) else handle_target env (read_target bytes len) p w

  -- The call that the last byte of a frame makes. `s_data_len - 4` is not negative there, and the
  -- test on it is that of `int`.
  unfoldable pub end_frame : Env → FrameEnd → Parser → Presence → World → Presence × World
  unfolding process_frame_eng process_frame_std write_light
  end_frame env FrameEnd.none q p w = (p, w)
  end_frame env FrameEnd.engineering q p w = process_frame_eng env q.cmd q.data_bytes q.data_idx p w
  end_frame env FrameEnd.standard q p w =
      let (p', w') =
        if leb 11 q.data_len
        then process_frame_std env q.data_bytes (q.data_len - 4) p w
        else (p, w) in
      (p', write_light env q w')

  -- `process_byte`.
  unfoldable pub process_byte : Env → ℕ → Radar → World → Radar × World
  unfolding parse_byte end_frame
  process_byte env b r w =
      let (q, frame) = parse_byte b r.parser in
      let (p, w') = end_frame env frame r.parser r.presence w in
      (record r { parser = q; presence = p }, w')

  unfoldable pub process_bytes : Env → List ℕ → Radar → World → Radar × World
  unfolding process_byte
  process_bytes env [] r w = (r, w)
  process_bytes env (b ∷ bs) r w =
      let (r', w') = process_byte env b r w in process_bytes env bs r' w'

  -- The counters, reset every 15 s.
  unfoldable pub log_counters : ℕ → Radar → Radar
  log_counters now r =
      if ltb (r.last_log + 15000000) now then record r { byte_count = 0; last_log = now } else r

  -- The health of the sensor. A wait for the mutex that fails reads no last frame.
  unfoldable pub update_health : Env → Radar → World → World
  unfolding radar_status
  update_health env r w =
      let last = if env.taken TakeSite.radar_read then w.telemetry.ld2412_last_frame_us else 0 in
      if env.taken TakeSite.radar_health
      then record w {
        telemetry = record w.telemetry { ld2412_status = radar_status env.now r.byte_count last };
      }
      else w

  -- One round of `ld2412_task` with the bytes that the UART gave.
  unfoldable pub radar_round : Env → List ℕ → Radar → World → Radar × World
  unfolding process_bytes log_counters update_health
  radar_round env bs r w =
      let (r1, w1) = process_bytes env bs (record r { byte_count = r.byte_count + length bs }) w in
      let r2 = log_counters env.now r1 in (r2, update_health env r2 w1)

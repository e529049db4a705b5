-- ===== src/Radar/Examples.antt =====
-- The theorems on the radar, applied.
use van_child_safety.Base.{
  ℕ, ◌+◌, ◌*◌, inl, ◌≡◌, refl, true, false, [], ◌∷◌, arith, length, take, replicate,
}
use van_child_safety.Types.{BusState}
use van_child_safety.World.{World, Env, default_config}
use van_child_safety.Bus.Locked.{is_armed}
use van_child_safety.Samples.{at}
use van_child_safety.System.Outcomes.{power_on}
use van_child_safety.Radar.Parser.{Phase, FrameEnd, data_size, power_on_parser, parse_byte, parse}
use van_child_safety.Radar.Bounds.{InBuffer, Inside, parse-Inside}
use van_child_safety.Radar.Frames.{engineering_frame, engineering_roundtrip}
use van_child_safety.Radar.Presence.{
  Presence, presence_event, passes_gates, evaluate_presence_trigger,
}
use van_child_safety.Radar.History.{Frame, frame_step, after}
use van_child_safety.Radar.Fires.{Waiting, presence_fires}
use van_child_safety.Radar.Gaps.{gap_at_arming_fires}

parse-Inside_example :
    let p = parse (0xFD ∷ 0xFC ∷ 0xFB ∷ 0xFA ∷ 66 ∷ 0 ∷ replicate 80 7) power_on_parser in
    (length p.data_bytes ≡ data_size) × Inside p.state p.data_idx p.data_len
parse-Inside_example = parse-Inside (0xFD ∷ 0xFC ∷ 0xFB ∷ 0xFA ∷ 66 ∷ 0 ∷ replicate 80 7)

idle_parser : InBuffer power_on_parser
idle_parser = record { size = refl; bounds = record {} }

engineering_roundtrip_example :
    let p' =
      parse
        (engineering_frame 0xAA02 (1 ∷ 120 ∷ 0 ∷ 60 ∷ 90 ∷ 0 ∷ 45 ∷ 90 ∷ 0 ∷ []))
        power_on_parser in
    ((parse_byte 0x01 p').1 ≡ FrameEnd.engineering)
    × ((parse_byte 0x01 p').0.state ≡ Phase.idle)
    × (p'.cmd ≡ 0xAA02)
    × (take p'.data_idx p'.data_bytes ≡ 1 ∷ 120 ∷ 0 ∷ 60 ∷ 90 ∷ 0 ∷ 45 ∷ 90 ∷ 0 ∷ [])
engineering_roundtrip_example =
    engineering_roundtrip 0xAA02 1 (120 ∷ 0 ∷ 60 ∷ 90 ∷ 0 ∷ 45 ∷ 90 ∷ 0 ∷ []) power_on_parser
      idle_parser refl (omega arith)

-- Armed since 100 s, with a target since 20 s that the last generation saw.
abbrev armed_world : World
armed_world = record power_on {
  bus = record power_on.bus { state = BusState.armed; bus_empty = true; armed_generation = 1 };
}

abbrev since_driving : Presence
since_driving = record {
  target_since = 20000000;
  reported_generation = 0;
  seen_armed_generation = 0;
  target_dropped_at = 0;
  present_at_arm = false;
}

-- A frame with a target.
abbrev frame_at : ℕ → Frame
frame_at n = record {
  env = at n;
  has_target = true;
  distance = 100;
  energy = 50;
  world = armed_world;
}

waiting : Waiting default_config 1 100000000 (frame_at 101 ∷ frame_at 100 ∷ [])
unfolding after is_armed passes_gates
waiting =
    Waiting.waits (frame_at 101) (frame_at 100 ∷ [])
      (Waiting.arrives (frame_at 100) [] (ground arith) refl refl refl refl) refl refl refl

presence_fires_example :
    (frame_step default_config
      (frame_at 112)
      (after default_config (frame_at 101 ∷ frame_at 100 ∷ []))).1.distress_queue
    ≡ presence_event 112000000 ∷ []
unfolding is_armed
presence_fires_example =
    presence_fires default_config 1 100000000 (frame_at 112) (frame_at 101 ∷ frame_at 100 ∷ [])
      (ground arith) (ground arith) waiting refl refl refl (inl (omega arith), omega arith)
      (omega arith) (omega arith)

at_ms : ℕ → Env
at_ms n = record (at 0) { now = 105000000 + n * 1000 }

gap_at_arming_fires_example :
    let (p1, w1) =
      evaluate_presence_trigger default_config (at 100) false 0 0 since_driving armed_world in
    (evaluate_presence_trigger default_config (at 101) true 100 50 p1 w1).1.distress_queue
    ≡ presence_event 101000000 ∷ []
unfolding is_armed passes_gates
gap_at_arming_fires_example =
    gap_at_arming_fires default_config (at 100) (at 101) 100 50 0 0 since_driving armed_world refl
      (ground arith) (ground arith) refl (ground arith) refl (omega arith) (omega arith)

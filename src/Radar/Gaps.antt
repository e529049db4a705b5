-- ===== src/Radar/Gaps.antt =====
-- Gaps: frames of main/sensor_ld2412.c without a target, while one is there.
use Prim.{Unit}
use van_child_safety.Base.{
  ℕ, ◌+◌, ◌-◌, ◌*◌, ◌/◌, ◌≤◌, ◌<◌, ◌≡◌, ◌≢◌, refl, ap, ◌∙◌, Bool, true, false, List, [], ◌∷◌, ◌++◌,
  arith, length,
}
use van_child_safety.World.{World, Env, Config, queue_capacity}
use van_child_safety.Bus.Locked.{is_armed}
use van_child_safety.Radar.Presence.{
  Presence, see_generation, note_target, presence_event, passes_gates, target_absent,
  evaluate_target, evaluate_presence_trigger,
}
use van_child_safety.Radar.Dwell.{noted, frame_fires}

-- Frames without a target, one after another.
unfoldable pub absent_frames : Config → List Env → Presence → World → Presence × World
unfolding evaluate_presence_trigger
absent_frames cfg [] p w = (p, w)
absent_frames cfg (env ∷ envs) p w =
    let (p', w') = evaluate_presence_trigger cfg env false 0 0 p w in absent_frames cfg envs p' w'

abbrev pub AllBefore : ℕ → List Env → Type 0
AllBefore t [] = Unit
AllBefore t (env ∷ envs) = (env.now < t) × AllBefore t envs

-- The first frame without a target starts the debounce.
dropped : ℕ → Presence → Presence
dropped now p = record p { target_dropped_at = now }

first_absent :
    (cfg : Config) (env : Env) (d e : ℕ) (p : Presence) (w : World)
    → (see_generation env.now false w.bus.armed_generation p).target_dropped_at ≡ 0
    → evaluate_presence_trigger cfg env false d e p w
      ≡ (dropped env.now (see_generation env.now false w.bus.armed_generation p), w)
unfolding evaluate_presence_trigger evaluate_target target_absent dropped
first_absent cfg env d e p w z = rw z refl

seen :
    (now : ℕ) (t : Bool) (g : ℕ) (p : Presence)
    → p.seen_armed_generation ≡ g
    → see_generation now t g p ≡ p
unfolding see_generation
seen now t g p e = ground arith

-- The frames that follow within the debounce change nothing.
later_absent :
    (cfg : Config) (env : Env) (p : Presence) (w : World)
    → p.seen_armed_generation ≡ w.bus.armed_generation
    → p.target_dropped_at ≢ 0
    → env.now < p.target_dropped_at + cfg.presence_target_drop_debounce_ms * 1000
    → evaluate_presence_trigger cfg env false 0 0 p w ≡ (p, w)
unfolding evaluate_presence_trigger evaluate_target target_absent
later_absent cfg env p w g d l = rw (seen env.now false w.bus.armed_generation p g) (ground arith)

absent_frames-same :
    (cfg : Config) (envs : List Env) (p : Presence) (w : World)
    → p.seen_armed_generation ≡ w.bus.armed_generation
    → p.target_dropped_at ≢ 0
    → AllBefore (p.target_dropped_at + cfg.presence_target_drop_debounce_ms * 1000) envs
    → absent_frames cfg envs p w ≡ (p, w)
unfolding absent_frames
absent_frames-same cfg [] p w g d a = refl
absent_frames-same cfg (env ∷ envs) p w g d (l, a) =
    rw (later_absent cfg env p w g d l) (absent_frames-same cfg envs p w g d a)

restored :
    (env0 env1 : Env) (w : World) (p : Presence)
    → p.seen_armed_generation ≡ w.bus.armed_generation
    → p.target_dropped_at ≡ 0
    → p.target_since ≢ 0
    → noted env1 w (dropped env0.now p) ≡ p
unfolding see_generation note_target dropped
restored env0 env1 w p g z s = ground arith

-- If the trigger has a target and has seen this generation, a gap of frames without a target, the
-- first not at time 0 and all others within its debounce, leaves the system as it was, and the next
-- frame with a target finds the dwell, the report and the generation as they were before the gap.
pub gap_keeps_dwell :
    (cfg : Config) (env0 env1 : Env) (envs : List Env) (p : Presence) (w : World)
    → p.seen_armed_generation ≡ w.bus.armed_generation
    → p.target_dropped_at ≡ 0
    → p.target_since ≢ 0
    → env0.now ≢ 0
    → AllBefore (env0.now + cfg.presence_target_drop_debounce_ms * 1000) envs
    → let (p', w') = absent_frames cfg (env0 ∷ envs) p w in (w' ≡ w) × (noted env1 w p' ≡ p)
unfolding absent_frames dropped
gap_keeps_dwell cfg env0 env1 envs p w g z s n a = (
  ap (λ (s : Presence × World). s.1) all,
  ap (λ (s : Presence × World). noted env1 w s.0) all ∙ restored env0 env1 w p g z s,
)
  where
    same : see_generation env0.now false w.bus.armed_generation p ≡ p
    same = seen env0.now false w.bus.armed_generation p g

    first : evaluate_presence_trigger cfg env0 false 0 0 p w ≡ (dropped env0.now p, w)
    first =
        first_absent cfg env0 0 0 p w (ap (λ (p : Presence). p.target_dropped_at) same ∙ z)
        ∙ ap (λ (p : Presence). (dropped env0.now p, w)) same

    all : absent_frames cfg (env0 ∷ envs) p w ≡ (dropped env0.now p, w)
    all =
        ap (λ (s : Presence × World). absent_frames cfg envs s.0 s.1) first
        ∙ absent_frames-same cfg envs (dropped env0.now p) w g n a

-- If the unit is armed with a generation that the trigger has not seen, the gates pass and the queue
-- has room, a target that was there before, and is missing from just the first frame, is reported by
-- a frame after the shorter dwell, counted from before the arming.
pub gap_at_arming_fires :
    (cfg : Config) (env0 env1 : Env) (d e d' e' : ℕ) (p : Presence) (w : World)
    → is_armed w.bus.state ≡ true
    → w.bus.armed_generation ≢ 0
    → p.seen_armed_generation ≢ w.bus.armed_generation
    → p.target_dropped_at ≡ 0
    → p.target_since ≢ 0
    → passes_gates cfg d e ≡ true
    → cfg.presence_sustain_s ≤ (env1.now - p.target_since) / 1000000
    → length w.distress_queue < queue_capacity
    → let (p1, w1) = evaluate_presence_trigger cfg env0 false d' e' p w in
      (evaluate_presence_trigger cfg env1 true d e p1 w1).1.distress_queue
      ≡ w.distress_queue ++ presence_event env1.now ∷ []
unfolding see_generation note_target dropped
gap_at_arming_fires cfg env0 env1 d e d' e' p w armed g new z s gates sustain room =
    rw (first_absent cfg env0 d' e' p w (ground arith))
      (frame_fires cfg env1 d e p1 w (armed, g, ground arith, gates, ground arith) room)
  where
    p1 : Presence
    p1 = dropped env0.now (see_generation env0.now false w.bus.armed_generation p)

-- ===== src/Radar/Dwell.antt =====
-- When the presence trigger of main/sensor_ld2412.c sends its event, and what interrupts the
-- dwell of a target.
use van_child_safety.Base.{
  ℕ, ◌-◌, ◌/◌, ◌≤◌, ◌<◌, ◌≡◌, ◌≢◌, ◌⊎◌, refl, inl, inr, ap, Bool, true, false, [], ◌∷◌, ◌++◌, arith,
  if◌then◌else◌, length,
}
use van_child_safety.World.{World, Env, TakeSite, Config, queue_capacity, queue_send}
use van_child_safety.Bus.Locked.{is_armed}
use van_child_safety.Radar.Presence.{
  Presence, see_generation, note_target, presence_event, passes_gates, required_s, target_absent,
  report_presence, evaluate_target, evaluate_presence_trigger,
}

-- The condition of the event, for a target that has been there since `p.target_since`.
abbrev pub Reportable : Config → Env → ℕ → ℕ → Presence → World → Type 0
Reportable cfg env d e p w =
    (is_armed w.bus.state ≡ true)
    × (w.bus.armed_generation ≢ 0)
    × (p.reported_generation ≢ w.bus.armed_generation)
    × (passes_gates cfg d e ≡ true)
    × (required_s cfg p ≤ (env.now - p.target_since) / 1000000)

report_sends :
    (cfg : Config) (env : Env) (d e : ℕ) (p : Presence) (w : World)
    → let (p', w') = report_presence cfg env d e p w in
      (w'.distress_queue ≡ w.distress_queue)
      ⊎ (Reportable cfg env d e p w
          × (p' ≡ record p { reported_generation = w.bus.armed_generation })
          × (w'.distress_queue ≡ w.distress_queue ++ presence_event env.now ∷ []))
unfolding report_presence queue_send
report_sends cfg env d e p w = ground arith

report_fires :
    (cfg : Config) (env : Env) (d e : ℕ) (p : Presence) (w : World)
    → Reportable cfg env d e p w
    → length w.distress_queue < queue_capacity
    → (report_presence cfg env d e p w).1.distress_queue
      ≡ w.distress_queue ++ presence_event env.now ∷ []
unfolding report_presence queue_send
report_fires cfg env d e p w r l = ground arith

-- Before the report: the generation is seen and the target noted.
abbrev pub noted : Env → World → Presence → Presence
noted env w p = note_target env.now (see_generation env.now true w.bus.armed_generation p)

-- What is written to telemetry in between has no part in the report.
with_since : Bool → ℕ → World → World
with_since c t w =
    if c then record w { telemetry = record w.telemetry { ld2412_target_since_us = t } } else w

sends_with :
    (cfg : Config) (env : Env) (d e : ℕ) (p : Presence) (w : World) (c : Bool) (t : ℕ)
    → let (p', w') = report_presence cfg env d e p (with_since c t w) in
      (w'.distress_queue ≡ w.distress_queue)
      ⊎ (Reportable cfg env d e p w
          × (p' ≡ record p { reported_generation = w.bus.armed_generation })
          × (w'.distress_queue ≡ w.distress_queue ++ presence_event env.now ∷ []))
unfolding with_since
sends_with cfg env d e p w true t = report_sends cfg env d e p (with_since true t w)
sends_with cfg env d e p w false t = report_sends cfg env d e p w

fires_with :
    (cfg : Config) (env : Env) (d e : ℕ) (p : Presence) (w : World) (c : Bool) (t : ℕ)
    → Reportable cfg env d e p w
    → length w.distress_queue < queue_capacity
    → (report_presence cfg env d e p (with_since c t w)).1.distress_queue
      ≡ w.distress_queue ++ presence_event env.now ∷ []
unfolding with_since
fires_with cfg env d e p w true t r l = report_fires cfg env d e p (with_since true t w) r l
fires_with cfg env d e p w false t r l = report_fires cfg env d e p w r l

absent-queue :
    (cfg : Config) (env : Env) (p : Presence) (w : World)
    → (target_absent cfg env p w).1.distress_queue ≡ w.distress_queue
unfolding target_absent
absent-queue cfg env p w = ground arith

-- A frame sends at most the one event, and only if it has a target, the unit is armed, the event
-- was not reported in this generation, the gates pass, and the target has stayed long enough; the
-- event then counts as reported.
pub frame_sends :
    (cfg : Config) (env : Env) (has_target : Bool) (d e : ℕ) (p : Presence) (w : World)
    → let (p', w') = evaluate_presence_trigger cfg env has_target d e p w in
      (w'.distress_queue ≡ w.distress_queue)
      ⊎ ((has_target ≡ true)
          × Reportable cfg env d e (noted env w p) w
          × (p'.reported_generation ≡ w.bus.armed_generation)
          × (w'.distress_queue ≡ w.distress_queue ++ presence_event env.now ∷ []))
unfolding evaluate_presence_trigger evaluate_target with_since
frame_sends cfg env true d e p w =
    elim (sends_with cfg env d e (noted env w p) w (env.taken TakeSite.radar_since)
      (noted env w p).target_since) [
        | inl q ↦ inl q
        | inr (r, s, q) ↦ inr (refl, r, ap (λ (p : Presence). p.reported_generation) s, q)
      ]
frame_sends cfg env false d e p w = inl (absent-queue cfg env _ w)

-- A frame with a target that meets these conditions does send the event, if the queue has room.
pub frame_fires :
    (cfg : Config) (env : Env) (d e : ℕ) (p : Presence) (w : World)
    → Reportable cfg env d e (noted env w p) w
    → length w.distress_queue < queue_capacity
    → (evaluate_presence_trigger cfg env true d e p w).1.distress_queue
      ≡ w.distress_queue ++ presence_event env.now ∷ []
unfolding evaluate_presence_trigger evaluate_target with_since
frame_fires cfg env d e p w r l =
    fires_with cfg env d e (noted env w p) w (env.taken TakeSite.radar_since)
      (noted env w p).target_since r l

-- ===== src/Radar/History.antt =====
-- The frames of the radar since power-on, and what the variables of the presence trigger of
-- main/sensor_ld2412.c say of them.
use van_child_safety.Base.{
  ℕ, ◌+◌, ◌*◌, ◌<◌, ◌≡◌, ◌≢◌, ◌⊎◌, refl, inl, inr, ap, sym, subst, ◌∙◌, Bool, true, false, List, [],
  ◌∷◌, arith, ◌==◌, if◌then◌else◌,
}
use van_child_safety.World.{World, Env, TakeSite, Config, queue_send}
use van_child_safety.Radar.Presence.{
  Presence, power_on_presence, see_generation, note_target, target_absent, report_presence,
  write_since, evaluate_target, evaluate_presence_trigger,
}
use van_child_safety.Radar.Dwell.{noted}

-- A frame, and the variables of the other tasks when it is read.
pub record Frame : Type 0 where
  pub env : Env
  pub has_target : Bool
  pub distance : ℕ
  pub energy : ℕ
  pub world : World

module _ (cfg : Config) where
  abbrev pub frame_step : Frame → Presence → Presence × World
  frame_step f p = evaluate_presence_trigger cfg f.env f.has_target f.distance f.energy p f.world

  -- The variables of the trigger after these frames, the last one first.
  unfoldable pub after : List Frame → Presence
  unfolding evaluate_presence_trigger
  after [] = power_on_presence
  after (f ∷ fs) = (frame_step f (after fs)).0

-- The armed generation of the last frame.
abbrev pub generation : List Frame → ℕ
generation [] = 0
generation (f ∷ fs) = f.world.bus.armed_generation

-- The first frame of this generation had a target.
unfoldable pub target_at_arm : List Frame → Bool
target_at_arm [] = false
target_at_arm (f ∷ fs) =
    if generation (f ∷ fs) == generation fs then target_at_arm fs else f.has_target

-- The time of the first of the last frames without a target; 0 after a frame with one.
unfoldable pub gap_start : List Frame → ℕ
gap_start [] = 0
gap_start (f ∷ fs) =
    if f.has_target then 0 else if gap_start fs == 0 then f.env.now else gap_start fs

-- There is a frame with a target at that time, and no later gap lasts as long as the debounce.
unfoldable pub StaysSince : Config → ℕ → List Frame → Type 0
unfolding gap_start
StaysSince cfg since [] = ⊥
StaysSince cfg since (f ∷ fs) =
    if f.has_target
    then (since ≡ f.env.now) ⊎ StaysSince cfg since fs
    else StaysSince cfg since fs
      × ((gap_start fs ≡ 0)
          ⊎ (f.env.now < gap_start fs + cfg.presence_target_drop_debounce_ms * 1000))

-- What the variables say of the frames.
pub record Tracked (cfg : Config) (fs : List Frame) (p : Presence) : Type 0 where
  pub seen : p.seen_armed_generation ≡ generation fs
  pub at_arm : p.present_at_arm ≡ target_at_arm fs
  pub stays : p.target_since ≢ 0 → StaysSince cfg p.target_since fs
  pub gap : p.target_since ≢ 0 → p.target_dropped_at ≡ gap_start fs

report-Keeps :
    (cfg : Config) (env : Env) (d e : ℕ) (p : Presence) (w : World)
    → let p' = (report_presence cfg env d e p w).0 in
      (p'.target_since ≡ p.target_since)
      × (p'.target_dropped_at ≡ p.target_dropped_at)
      × (p'.seen_armed_generation ≡ p.seen_armed_generation)
      × (p'.present_at_arm ≡ p.present_at_arm)
unfolding report_presence queue_send
report-Keeps cfg env d e p w = ground arith

-- A frame with a target.
with_target :
    (env : Env) (w : World) (p : Presence)
    → let p' = noted env w p in
      ((p'.target_since ≡ env.now) ⊎ ((p.target_since ≢ 0) × (p'.target_since ≡ p.target_since)))
      × (p'.target_dropped_at ≡ 0)
      × (p'.seen_armed_generation ≡ w.bus.armed_generation)
      × (p'.present_at_arm
          ≡ (if w.bus.armed_generation == p.seen_armed_generation then p.present_at_arm else true))
unfolding see_generation note_target
with_target env w p = ground arith

-- A frame without a target.
without_target :
    (cfg : Config) (env : Env) (p : Presence) (w : World)
    → let p' =
        (target_absent cfg env (see_generation env.now false w.bus.armed_generation p) w).0 in
      (p'.seen_armed_generation ≡ w.bus.armed_generation)
      × (p'.present_at_arm
          ≡ (if w.bus.armed_generation == p.seen_armed_generation then p.present_at_arm else false))
      × ((p'.target_since ≡ 0)
          ⊎ ((p'.target_since ≡ p.target_since)
              × (p'.target_dropped_at
                  ≡ (if p.target_dropped_at == 0 then env.now else p.target_dropped_at))
              × ((p.target_dropped_at ≡ 0)
                  ⊎ (env.now < p.target_dropped_at + cfg.presence_target_drop_debounce_ms * 1000))))
unfolding see_generation target_absent
without_target cfg env p w = ground arith

module _ (cfg : Config) where
  pub target_stays :
      (env : Env) (d e : ℕ) (w : World) (fs : List Frame) (p : Presence)
      → let f : Frame = record {
        env = env;
        has_target = true;
        distance = d;
        energy = e;
        world = w;
      } in
        Tracked cfg fs p → StaysSince cfg (noted env w p).target_since (f ∷ fs)
  unfolding StaysSince
  target_stays env d e w fs p t = elim ((with_target env w p).0) [
    | inl q ↦ inl q
    | inr (z, q) ↦ inr (subst (λ s. StaysSince cfg s fs) (sym q) (t.stays z))
  ]

  pub Tracked-target :
      (env : Env) (d e : ℕ) (w : World) (fs : List Frame) (p : Presence)
      → let f : Frame = record {
        env = env;
        has_target = true;
        distance = d;
        energy = e;
        world = w;
      } in
        Tracked cfg fs p → Tracked cfg (f ∷ fs) (noted env w p)
  unfolding target_at_arm gap_start StaysSince
  Tracked-target env d e w fs p t =
      let (_, gap, seen, at_arm) = with_target env w p in
      record {
        seen = seen;
        at_arm = ground (arith, at_arm, t.seen, t.at_arm);
        stays = λ n. target_stays env d e w fs p t;
        gap = λ n. gap;
      }

  Tracked-kept :
      (fs : List Frame) (p p' : Presence)
      → (p'.target_since ≡ p.target_since)
        × (p'.target_dropped_at ≡ p.target_dropped_at)
        × (p'.seen_armed_generation ≡ p.seen_armed_generation)
        × (p'.present_at_arm ≡ p.present_at_arm)
      → Tracked cfg fs p
      → Tracked cfg fs p'
  Tracked-kept fs p p' (a, b, c, d) t = record {
    seen = c ∙ t.seen;
    at_arm = d ∙ t.at_arm;
    stays = λ n. subst (λ s. StaysSince cfg s fs) (sym a) (t.stays (λ z. n (a ∙ z)));
    gap = λ n. b ∙ t.gap (λ z. n (a ∙ z));
  }

  Tracked-absent :
      (env : Env) (d e : ℕ) (w : World) (fs : List Frame) (p : Presence)
      → let f : Frame = record {
        env = env;
        has_target = false;
        distance = d;
        energy = e;
        world = w;
      } in
        Tracked cfg fs p
        → Tracked cfg
            (f ∷ fs)
            (target_absent cfg env (see_generation env.now false w.bus.armed_generation p) w).0
  unfolding target_at_arm gap_start StaysSince
  Tracked-absent env d e w fs p t =
      let (seen, at_arm, since) = without_target cfg env p w in
      record {
        seen = seen;
        at_arm = ground (arith, at_arm, t.seen, t.at_arm);
        stays = λ n. elim since [
          | inl z ↦ absurd (n z)
          | inr (q, _, l) ↦
              let y : p.target_since ≢ 0 = λ z. n (q ∙ z) in
              (
                subst (λ s. StaysSince cfg s fs) (sym q) (t.stays y),
                subst (λ g. (g ≡ 0) ⊎ (env.now < g + cfg.presence_target_drop_debounce_ms * 1000))
                    (t.gap y) l,
              )
        ];
        gap = λ n. elim since [
          | inl z ↦ absurd (n z)
          | inr (q, r, _) ↦ r ∙ ap (λ g. if g == 0 then env.now else g) (t.gap (λ z. n (q ∙ z)))
        ];
      }

  Tracked-step :
      (env : Env) (h : Bool) (d e : ℕ) (w : World) (fs : List Frame) (p : Presence)
      → let f : Frame = record { env = env; has_target = h; distance = d; energy = e; world = w } in
        Tracked cfg fs p → Tracked cfg (f ∷ fs) (frame_step cfg f p).0
  unfolding evaluate_presence_trigger evaluate_target
  Tracked-step env true d e w fs p t =
      let f : Frame = record {
        env = env;
        has_target = true;
        distance = d;
        energy = e;
        world = w;
      } in
      let p' = noted env w p in
      Tracked-kept (f ∷ fs) p' (frame_step cfg f p).0
        (report-Keeps cfg env d e p' (write_since env TakeSite.radar_since p'.target_since w))
        (Tracked-target env d e w fs p t)
  Tracked-step env false d e w fs p t = Tracked-absent env d e w fs p t

  pub after-Tracked : (fs : List Frame) → Tracked cfg fs (after cfg fs)
  unfolding after target_at_arm
  after-Tracked [] = record {
    seen = refl;
    at_arm = refl;
    stays = λ n. absurd (n refl);
    gap = λ n. absurd (n refl);
  }
  after-Tracked (f ∷ fs) =
      Tracked-step f.env f.has_target f.distance f.energy f.world fs (after cfg fs)
        (after-Tracked fs)

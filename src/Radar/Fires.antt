-- ===== src/Radar/Fires.antt =====
-- That the presence trigger of main/sensor_ld2412.c sends the event of a target that stays.
use van_child_safety.Base.{
  ℕ, ◌-◌, ◌/◌, ◌≤◌, ◌<◌, ◌≡◌, ◌≢◌, ◌⊎◌, inl, inr, ap, sym, subst, length-append, ◌∙◌, Bool, true,
  false, List, [], ◌∷◌, ◌++◌, arith, length,
}
use van_child_safety.World.{World, Env, TakeSite, Config, queue_capacity, queue_send}
use van_child_safety.Bus.Locked.{is_armed}
use van_child_safety.Radar.Presence.{
  Presence, see_generation, note_target, presence_event, report_presence, write_since,
  evaluate_target, evaluate_presence_trigger,
}
use van_child_safety.Radar.Dwell.{Reportable, noted, frame_fires}
use van_child_safety.Radar.History.{Frame, frame_step, after, generation, after-Tracked}
use van_child_safety.Radar.Stays.{InGates, InGates-passes_gates}

-- The frame queues no event.
abbrev pub Quiet : Config → List Frame → Frame → Type 0
Quiet cfg fs f = (frame_step cfg f (after cfg fs)).1.distress_queue ≡ f.world.distress_queue

-- After any frames, the first frame of a generation has a target at that time, and so has every
-- frame after it, and none of them queued an event.
pub data Waiting (cfg : Config) (g since : ℕ) : List Frame → Type 0 where
  arrives :
      (f : Frame) (fs : List Frame)
      → generation fs ≢ g
      → f.world.bus.armed_generation ≡ g
      → f.has_target ≡ true
      → f.env.now ≡ since
      → Quiet cfg fs f
      → Waiting cfg g since (f ∷ fs)
  waits :
      (f : Frame) (fs : List Frame)
      → Waiting cfg g since fs
      → f.world.bus.armed_generation ≡ g
      → f.has_target ≡ true
      → Quiet cfg fs f
      → Waiting cfg g since (f ∷ fs)

-- What the variables hold meanwhile.
record Expects (g since : ℕ) (p : Presence) : Type 0 where
  seen : p.seen_armed_generation ≡ g
  at_arm : p.present_at_arm ≡ true
  start : p.target_since ≡ since
  unreported : p.reported_generation ≢ g

-- A report that queues nothing leaves the variables.
quiet_report :
    (cfg : Config) (env : Env) (d e : ℕ) (p : Presence) (w : World)
    → let (p', w') = report_presence cfg env d e p w in
      (p' ≡ p) ⊎ (w'.distress_queue ≡ w.distress_queue ++ presence_event env.now ∷ [])
unfolding report_presence queue_send
quiet_report cfg env d e p w = ground arith

-- The target arrives with the generation, and stays.
noted_new :
    (env : Env) (w : World) (p : Presence)
    → w.bus.armed_generation ≢ 0
    → p.seen_armed_generation ≢ w.bus.armed_generation
    → Expects w.bus.armed_generation env.now (noted env w p)
unfolding see_generation note_target
noted_new env w p z n = ground arith

noted_same :
    (env : Env) (w : World) (p : Presence) (since : ℕ)
    → since ≢ 0
    → Expects w.bus.armed_generation since p
    → Expects w.bus.armed_generation since (noted env w p)
unfolding see_generation note_target
noted_same env w p since z h = ground arith

write_since-queue :
    (env : Env) (site : TakeSite) (t : ℕ) (w : World)
    → (write_since env site t w).distress_queue ≡ w.distress_queue
write_since-queue env site t w = ground arith

longer : {A : Type 0} (xs : List A) (x : A) → xs ++ x ∷ [] ≢ xs
longer xs x e = omega (arith, length-append xs (x ∷ []), ap length e)

module _ (cfg : Config) where
  quiet-Expects :
      (env : Env) (h : Bool) (d e : ℕ) (w : World) (p : Presence) (g since : ℕ)
      → let f : Frame = record { env = env; has_target = h; distance = d; energy = e; world = w } in
        h ≡ true
        → Expects g since (noted env w p)
        → (frame_step cfg f p).1.distress_queue ≡ w.distress_queue
        → Expects g since (frame_step cfg f p).0
  unfolding evaluate_presence_trigger evaluate_target
  quiet-Expects env true d e w p g since h x q =
      let p' = noted env w p in
      let v = write_since env TakeSite.radar_since p'.target_since w in
      elim (quiet_report cfg env d e p' v) [
        | inl s ↦ subst (λ p. Expects g since p) (sym s) x
        | inr s ↦ absurd (
            longer v.distress_queue (presence_event env.now)
              (sym s ∙ (q ∙ sym (write_since-queue env TakeSite.radar_since p'.target_since w))))
      ]
  quiet-Expects env false d e w p g since h x q = ground (arith, h)

  noted-Expects :
      (f : Frame) (fs : List Frame) (g since : ℕ)
      → since ≢ 0
      → f.world.bus.armed_generation ≡ g
      → Expects g since (after cfg fs)
      → Expects g since (noted f.env f.world (after cfg fs))
  noted-Expects f fs g since sz e x =
      subst (λ g. Expects g since (noted f.env f.world (after cfg fs))) e
        (noted_same f.env f.world (after cfg fs) since sz
          (subst (λ g. Expects g since (after cfg fs)) (sym e) x))

  Waiting-Expects :
      (g since : ℕ) (fs : List Frame)
      → g ≢ 0
      → since ≢ 0
      → Waiting cfg g since fs
      → Expects g since (after cfg fs)
  unfolding after
  Waiting-Expects g since _ gz sz (Waiting.arrives f fs n e h t q) =
      let p = after cfg fs in
      quiet-Expects f.env f.has_target f.distance f.energy f.world p g since h
        (subst (λ g. Expects g since (noted f.env f.world p)) e
          (subst (λ t. Expects f.world.bus.armed_generation t (noted f.env f.world p)) t
            (noted_new f.env f.world p (λ z. gz (sym e ∙ z))
              (λ s. n (sym ((after-Tracked cfg fs).seen) ∙ (s ∙ e))))))
        q
  Waiting-Expects g since _ gz sz (Waiting.waits f fs x e h q) =
      quiet-Expects f.env f.has_target f.distance f.energy f.world (after cfg fs) g since h
        (noted-Expects f fs g since sz e (Waiting-Expects g since fs gz sz x)) q

  target_fires :
      (env : Env) (h : Bool) (d e : ℕ) (w : World) (p : Presence)
      → h ≡ true
      → Reportable cfg env d e (noted env w p) w
      → length w.distress_queue < queue_capacity
      → (evaluate_presence_trigger cfg env h d e p w).1.distress_queue
        ≡ w.distress_queue ++ presence_event env.now ∷ []
  target_fires env true d e w p h r room = frame_fires cfg env d e p w r room
  target_fires env false d e w p h r room = ground (arith, h)

  -- If since the first frame of a generation (number and time not 0) every frame has a target and
  -- none queued an event, then a next such frame that is in both gates, and as old as the dwell for
  -- a target that was there at arming, queues the event, if the unit is armed in that generation and
  -- the queue has room.
  pub presence_fires :
      (g since : ℕ) (f : Frame) (fs : List Frame)
      → g ≢ 0
      → since ≢ 0
      → Waiting cfg g since fs
      → f.world.bus.armed_generation ≡ g
      → f.has_target ≡ true
      → is_armed f.world.bus.state ≡ true
      → InGates cfg f
      → cfg.presence_sustain_armed_existing_s ≤ (f.env.now - since) / 1000000
      → length f.world.distress_queue < queue_capacity
      → (frame_step cfg f (after cfg fs)).1.distress_queue
        ≡ f.world.distress_queue ++ presence_event f.env.now ∷ []
  presence_fires g since f fs gz sz x e h armed gates old room =
      let n = noted-Expects f fs g since sz e (Waiting-Expects g since fs gz sz x) in
      target_fires f.env f.has_target f.distance f.energy f.world (after cfg fs) h
        (
          armed,
          λ z. gz (sym e ∙ z),
          λ q. n.unreported (q ∙ e),
          InGates-passes_gates cfg f gates,
          rw n.at_arm (rw n.start old),
        )
        room

-- ===== src/Co2/Rise.antt =====
-- When the tracker of main/co2_tracker.c sends its event, and how often.
use van_child_safety.Base.{
  ℕ, ◌≤◌, ◌≡◌, ◌≢◌, ◌⊎◌, inl, inr, refl, ap, ◌∙◌, sym, true, false, Bool-cases, [], ◌∷◌, ◌++◌,
  arith, leb,
}
use van_child_safety.Base.Int.{ℤ, sub_ℕ}
use van_child_safety.World.{World, Env, Config, queue_send}
use van_child_safety.Bus.Locked.{is_armed}
use van_child_safety.Bus.Transitions.{set_telemetry_state}
use van_child_safety.Bus.Commands.{set_co2_baseline}
use van_child_safety.Co2.Tracker.{
  Co2, see_generation, push_reading, oldest_reading, clamp_16, since_armed, write_deltas, co2_event,
  write_count, init_baseline, rise_triggers, count_rise, evaluate_rise, track_reading,
}

-- The state, the generation and the queue are as they were.
pub record Same (w w' : World) : Type 0 where
  pub state : w'.bus.state ≡ w.bus.state
  pub generation : w'.bus.armed_generation ≡ w.bus.armed_generation
  pub queue : w'.distress_queue ≡ w.distress_queue

Same-trans : {u v w : World} → Same u v → Same v w → Same u w
Same-trans p q = record {
  state = q.state ∙ p.state;
  generation = q.generation ∙ p.generation;
  queue = q.queue ∙ p.queue;
}

pub init_baseline-Same :
    (cfg : Config) (env : Env) (co2 : ℕ) (c : Co2) (w : World)
    → Same w (init_baseline cfg env co2 c w).1
unfolding init_baseline set_co2_baseline set_telemetry_state
init_baseline-Same cfg env co2 c w = ground arith

pub init_baseline-alerted :
    (cfg : Config) (env : Env) (co2 : ℕ) (c : Co2) (w : World)
    → let c' = (init_baseline cfg env co2 c w).0 in
      (c'.alerted_this_armed ≡ c.alerted_this_armed)
      × (c'.seen_armed_generation ≡ c.seen_armed_generation)
      × (c'.consecutive_rise ≤ c.consecutive_rise)
unfolding init_baseline
init_baseline-alerted cfg env co2 c w = ground arith

pub write_deltas-Same :
    (env : Env) (co2 : ℕ) (delta : ℤ) (w : World) → Same w (write_deltas env co2 delta w)
unfolding write_deltas
write_deltas-Same env co2 delta w = ground arith

-- The count queues at most the one event, and only if the condition holds, no event counts as sent
-- and the reading before triggered too; it then counts as sent.
pub count_sends :
    (cfg : Config) (env : Env) (co2 : ℕ) (c : Co2) (w : World)
    → let (c', w') = count_rise cfg env co2 c w in
      (w'.distress_queue ≡ w.distress_queue)
      ⊎ ((rise_triggers cfg env co2 w ≡ true)
          × (c.alerted_this_armed ≡ false)
          × (1 ≤ c.consecutive_rise)
          × (c'.alerted_this_armed ≡ true)
          × (w'.distress_queue ≡ w.distress_queue ++ co2_event env.now (since_armed co2 w) ∷ []))
unfolding count_rise queue_send
count_sends cfg env co2 c w = ground arith

-- What one reading leaves of an alarm that was sent.
pub record Alerted (w : World) (s : Co2 × World) : Type 0 where
  pub world : Same w s.1
  pub alerted : s.0.alerted_this_armed ≡ true
  pub seen : s.0.seen_armed_generation ≡ w.bus.armed_generation

count-Alerted :
    (cfg : Config) (env : Env) (co2 : ℕ) (c : Co2) (w : World)
    → is_armed w.bus.state ≡ true
    → c.alerted_this_armed ≡ true
    → c.seen_armed_generation ≡ w.bus.armed_generation
    → Alerted w (count_rise cfg env co2 c w)
unfolding count_rise
count-Alerted cfg env co2 c w armed a g = ground arith

write_count-Alerted :
    (env : Env) (w : World) (s : Co2 × World) → Alerted w s → Alerted w (write_count env s)
write_count-Alerted env w (c, v) h = ground arith

from-Alerted : {u w : World} {s : Co2 × World} → Same u w → Alerted w s → Alerted u s
from-Alerted e h = record {
  world = Same-trans e h.world;
  alerted = h.alerted;
  seen = h.seen ∙ e.generation;
}

evaluate-Alerted :
    (cfg : Config) (env : Env) (co2 : ℕ) (c : Co2) (w : World)
    → is_armed w.bus.state ≡ true
    → c.alerted_this_armed ≡ true
    → c.seen_armed_generation ≡ w.bus.armed_generation
    → Alerted w (evaluate_rise cfg env co2 c w)
unfolding evaluate_rise
evaluate-Alerted cfg env co2 c w armed a g = elim (Bool-cases (leb 2 c.count)) [
  | inl e ↦ rw e (
      write_count-Alerted env w _ (
        from-Alerted q
          (count-Alerted cfg env co2 c v (ap is_armed q.state ∙ armed) a (g ∙ sym q.generation))))
  | inr e ↦ rw e (record {
    world = record { state = refl; generation = refl; queue = refl };
    alerted = a;
    seen = g;
  })
]
  where
    delta : ℤ
    delta = clamp_16 (sub_ℕ co2 (oldest_reading cfg.co2_window_readings c))

    v : World
    v = write_deltas env co2 delta w

    q : Same w v
    q = write_deltas-Same env co2 delta w

same_generation : (g : ℕ) (c : Co2) → c.seen_armed_generation ≡ g → see_generation g c ≡ c
unfolding see_generation
same_generation g c e = ground arith

-- One alarm for each arming: if the unit is armed and the event of this generation counts as sent, a
-- reading sends no other, and it still counts as sent.
pub one_alarm_per_arming :
    (cfg : Config) (env : Env) (co2 : ℕ) (c : Co2) (w : World)
    → is_armed w.bus.state ≡ true
    → c.seen_armed_generation ≡ w.bus.armed_generation
    → c.alerted_this_armed ≡ true
    → let (c', w') = track_reading cfg env co2 c w in
      (w'.distress_queue ≡ w.distress_queue)
      × (c'.alerted_this_armed ≡ true)
      × (c'.seen_armed_generation ≡ w'.bus.armed_generation)
unfolding track_reading push_reading
one_alarm_per_arming cfg env co2 c w armed g a =
    rw (same_generation w.bus.armed_generation c g)
      (r.world.queue, r.alerted, r.seen ∙ sym r.world.generation)
  where
    c1 : Co2
    c1 = push_reading cfg.co2_window_readings co2 c

    s : Co2 × World
    s = init_baseline cfg env co2 c1 w

    q : Same w s.1
    q = init_baseline-Same cfg env co2 c1 w

    r : Alerted w (evaluate_rise cfg env co2 s.0 s.1)
    r =
        let (a', g', n) = init_baseline-alerted cfg env co2 c1 w in
        from-Alerted q (
          evaluate-Alerted cfg env co2 s.0 s.1 (ap is_armed q.state ∙ armed) (a' ∙ a)
            (g' ∙ (g ∙ sym q.generation)))

new_generation :
    (g : ℕ) (c : Co2) → c.seen_armed_generation ≢ g → (see_generation g c).consecutive_rise ≡ 0
unfolding see_generation
new_generation g c n = ground arith

pub write_count-queue :
    (env : Env) (s : Co2 × World) → (write_count env s).1.distress_queue ≡ s.1.distress_queue
write_count-queue env (c, w) = ground arith

count_first :
    (cfg : Config) (env : Env) (co2 : ℕ) (c : Co2) (w : World)
    → c.consecutive_rise ≡ 0
    → (count_rise cfg env co2 c w).1.distress_queue ≡ w.distress_queue
count_first cfg env co2 c w z = elim (count_sends cfg env co2 c w) [
  | inl q ↦ q
  | inr (_, _, n, _, _) ↦ absurd (omega (arith, n, z))
]

evaluate_first :
    (cfg : Config) (env : Env) (co2 : ℕ) (c : Co2) (w : World)
    → c.consecutive_rise ≡ 0
    → (evaluate_rise cfg env co2 c w).1.distress_queue ≡ w.distress_queue
unfolding evaluate_rise
evaluate_first cfg env co2 c w z = elim (Bool-cases (leb 2 c.count)) [
  | inl e ↦ rw e (
      write_count-queue env (count_rise cfg env co2 c v)
      ∙ (count_first cfg env co2 c v z ∙ (write_deltas-Same env co2 delta w).queue))
  | inr e ↦ rw e refl
]
  where
    delta : ℤ
    delta = clamp_16 (sub_ℕ co2 (oldest_reading cfg.co2_window_readings c))

    v : World
    v = write_deltas env co2 delta w

-- The first reading after the unit is armed sends no event, however far it is above the baseline.
pub first_reading_is_quiet :
    (cfg : Config) (env : Env) (co2 : ℕ) (c : Co2) (w : World)
    → c.seen_armed_generation ≢ w.bus.armed_generation
    → (track_reading cfg env co2 c w).1.distress_queue ≡ w.distress_queue
unfolding track_reading push_reading
first_reading_is_quiet cfg env co2 c w new =
    evaluate_first cfg env co2 s.0 s.1 (omega (arith, none, init_baseline-alerted cfg env co2 c1 w))
    ∙ (init_baseline-Same cfg env co2 c1 w).queue
  where
    c0 : Co2
    c0 = see_generation w.bus.armed_generation c

    c1 : Co2
    c1 = push_reading cfg.co2_window_readings co2 c0

    s : Co2 × World
    s = init_baseline cfg env co2 c1 w

    none : c1.consecutive_rise ≡ 0
    none = new_generation w.bus.armed_generation c new

-- ===== src/Co2/Lost.antt =====
-- What main/co2_tracker.c does with an event that finds the distress queue full.
use Prim.{Unit}
use van_child_safety.Base.{
  ℕ, ◌≤◌, ◌≡◌, ◌≢◌, inl, inr, refl, ap, ◌∙◌, sym, subst, true, false, Bool-cases, List, [], ◌∷◌,
  arith, leb, length,
}
use van_child_safety.Base.Int.{ℤ, sub_ℕ}
use van_child_safety.World.{World, Env, Config, queue_capacity, queue_send}
use van_child_safety.Bus.Locked.{is_armed}
use van_child_safety.Bus.Transitions.{set_telemetry_state}
use van_child_safety.Bus.Commands.{set_co2_baseline}
use van_child_safety.Co2.Tracker.{
  Co2, see_generation, push_reading, oldest_reading, clamp_16, write_deltas, init_baseline,
  rise_triggers, count_rise, evaluate_rise, track_reading,
}
use van_child_safety.Co2.Rise.{
  count_sends, init_baseline-Same, init_baseline-alerted, write_deltas-Same, write_count-queue,
  one_alarm_per_arming,
}

-- The same variables with an empty queue.
abbrev pub emptied : World → World
emptied w = record w { distress_queue = [] }

-- A later reading, with the variables of the other tasks.
pub record Reading : Type 0 where
  pub env : Env
  pub co2 : ℕ
  pub world : World

-- The unit is armed at all these readings, and in this generation.
abbrev pub AllArmed : ℕ → List Reading → Type 0
AllArmed g [] = Unit
AllArmed g (r ∷ rs) =
    (is_armed r.world.bus.state ≡ true) × (r.world.bus.armed_generation ≡ g) × AllArmed g rs

-- None of these readings queues an event.
abbrev pub Silent : Config → List Reading → Co2 → Type 0
Silent cfg [] c = Unit
Silent cfg (r ∷ rs) c =
    let (c', w') = track_reading cfg r.env r.co2 c r.world in
    (w'.distress_queue ≡ r.world.distress_queue) × Silent cfg rs c'

count_dropped :
    (cfg : Config) (env : Env) (co2 : ℕ) (c : Co2) (w : World)
    → rise_triggers cfg env co2 w ≡ true
    → c.alerted_this_armed ≡ false
    → 1 ≤ c.consecutive_rise
    → queue_capacity ≤ length w.distress_queue
    → let (c', w') = count_rise cfg env co2 c w in
      (w'.distress_queue ≡ w.distress_queue) × (c'.alerted_this_armed ≡ true)
unfolding count_rise queue_send
count_dropped cfg env co2 c w t a n full = ground arith

rise_triggers-emptied :
    (cfg : Config) (env : Env) (co2 : ℕ) (w : World)
    → rise_triggers cfg env co2 (emptied w) ≡ rise_triggers cfg env co2 w
unfolding rise_triggers
rise_triggers-emptied cfg env co2 w = refl

count_lost :
    (cfg : Config) (env : Env) (co2 : ℕ) (c : Co2) (w : World)
    → (count_rise cfg env co2 c (emptied w)).1.distress_queue ≢ []
    → queue_capacity ≤ length w.distress_queue
    → let (c', w') = count_rise cfg env co2 c w in
      (w'.distress_queue ≡ w.distress_queue) × (c'.alerted_this_armed ≡ true)
count_lost cfg env co2 c w n full = elim (count_sends cfg env co2 c (emptied w)) [
  | inl q ↦ absurd (n q)
  | inr (t, a, m, _, _) ↦
      count_dropped cfg env co2 c w (sym (rise_triggers-emptied cfg env co2 w) ∙ t) a m full
]

write_deltas-emptied :
    (env : Env) (co2 : ℕ) (delta : ℤ) (w : World)
    → write_deltas env co2 delta (emptied w) ≡ emptied (write_deltas env co2 delta w)
unfolding write_deltas
write_deltas-emptied env co2 delta w = ground arith

init_baseline-emptied :
    (cfg : Config) (env : Env) (co2 : ℕ) (c : Co2) (w : World)
    → init_baseline cfg env co2 c (emptied w)
      ≡ ((init_baseline cfg env co2 c w).0, emptied (init_baseline cfg env co2 c w).1)
unfolding init_baseline set_co2_baseline set_telemetry_state
init_baseline-emptied cfg env co2 c w = ground arith

evaluate_lost :
    (cfg : Config) (env : Env) (co2 : ℕ) (c : Co2) (w : World)
    → (evaluate_rise cfg env co2 c (emptied w)).1.distress_queue ≢ []
    → queue_capacity ≤ length w.distress_queue
    → let (c', w') = evaluate_rise cfg env co2 c w in
      (w'.distress_queue ≡ w.distress_queue) × (c'.alerted_this_armed ≡ true)
unfolding evaluate_rise
evaluate_lost cfg env co2 c w = elim (Bool-cases (leb 2 c.count)) [
  | inl e ↦ rw e (λ n full.
      let (q, a) =
        count_lost cfg env co2 c v
          (λ z. n (
            write_count-queue env
              (count_rise cfg env co2 c (write_deltas env co2 delta (emptied w)))
            ∙ (ap (λ v. (count_rise cfg env co2 c v).1.distress_queue)
                  (write_deltas-emptied env co2 delta w)
                ∙ z)))
          (subst (λ q. queue_capacity ≤ length q) (sym kept) full) in
      (write_count-queue env (count_rise cfg env co2 c v) ∙ (q ∙ kept), a))
  | inr e ↦ rw e (λ n full. absurd (n refl))
]
  where
    delta : ℤ
    delta = clamp_16 (sub_ℕ co2 (oldest_reading cfg.co2_window_readings c))

    v : World
    v = write_deltas env co2 delta w

    kept : v.distress_queue ≡ w.distress_queue
    kept = (write_deltas-Same env co2 delta w).queue

seen_generation : (g : ℕ) (c : Co2) → (see_generation g c).seen_armed_generation ≡ g
unfolding see_generation
seen_generation g c = ground arith

count-seen :
    (cfg : Config) (env : Env) (co2 : ℕ) (c : Co2) (w : World)
    → (count_rise cfg env co2 c w).0.seen_armed_generation ≡ c.seen_armed_generation
unfolding count_rise
count-seen cfg env co2 c w = ground arith

module _ (cfg : Config) where
  track_lost :
      (env : Env) (co2 : ℕ) (c : Co2) (w : World)
      → (track_reading cfg env co2 c (emptied w)).1.distress_queue ≢ []
      → queue_capacity ≤ length w.distress_queue
      → let (c', w') = track_reading cfg env co2 c w in
        (w'.distress_queue ≡ w.distress_queue) × (c'.alerted_this_armed ≡ true)
  unfolding track_reading push_reading
  track_lost env co2 c w n full =
      let (q, a) =
        evaluate_lost cfg env co2 s.0 s.1
          (λ z. n (
            ap (λ (s : Co2 × World). (evaluate_rise cfg env co2 s.0 s.1).1.distress_queue)
              (init_baseline-emptied cfg env co2 c1 w)
            ∙ z))
          (subst (λ q. queue_capacity ≤ length q) (sym kept) full) in
      (q ∙ kept, a)
    where
      c1 : Co2
      c1 = push_reading cfg.co2_window_readings co2 (see_generation w.bus.armed_generation c)

      s : Co2 × World
      s = init_baseline cfg env co2 c1 w

      kept : s.1.distress_queue ≡ w.distress_queue
      kept = (init_baseline-Same cfg env co2 c1 w).queue

  evaluate-seen :
      (env : Env) (co2 : ℕ) (c : Co2) (w : World)
      → (evaluate_rise cfg env co2 c w).0.seen_armed_generation ≡ c.seen_armed_generation
  unfolding evaluate_rise
  evaluate-seen env co2 c w = elim (Bool-cases (leb 2 c.count)) [
    | inl e ↦ rw e (
        count-seen cfg env co2 c (
          write_deltas env co2 (clamp_16 (sub_ℕ co2 (oldest_reading cfg.co2_window_readings c))) w))
    | inr e ↦ rw e refl
  ]

  track-seen :
      (env : Env) (co2 : ℕ) (c : Co2) (w : World)
      → (track_reading cfg env co2 c w).0.seen_armed_generation ≡ w.bus.armed_generation
  unfolding track_reading push_reading
  track-seen env co2 c w =
      let c1 = push_reading cfg.co2_window_readings co2 (see_generation w.bus.armed_generation c) in
      let s = init_baseline cfg env co2 c1 w in
      evaluate-seen env co2 s.0 s.1
      ∙ ((init_baseline-alerted cfg env co2 c1 w).1 ∙ seen_generation w.bus.armed_generation c)

  no_later_alarm :
      (g : ℕ) (rs : List Reading) (c : Co2)
      → AllArmed g rs
      → c.alerted_this_armed ≡ true
      → c.seen_armed_generation ≡ g
      → Silent cfg rs c
  no_later_alarm g [] c armed a s = record {}
  no_later_alarm g (r ∷ rs) c (armed, e, all) a s =
      let (q, a', _) = one_alarm_per_arming cfg r.env r.co2 c r.world armed (s ∙ sym e) a in
      (q, no_later_alarm g rs _ all a' (track-seen r.env r.co2 c r.world ∙ e))

  -- A reading that would queue an event if the queue were empty queues none if it is full, and the
  -- alarm is not tried again: no later reading of that armed generation queues one, whatever room
  -- there is by then.
  pub full_queue_loses_alarm :
      (env : Env) (co2 : ℕ) (c : Co2) (w : World) (later : List Reading)
      → (track_reading cfg env co2 c (emptied w)).1.distress_queue ≢ []
      → queue_capacity ≤ length w.distress_queue
      → AllArmed w.bus.armed_generation later
      → let (c', w') = track_reading cfg env co2 c w in
        (w'.distress_queue ≡ w.distress_queue) × Silent cfg later c'
  full_queue_loses_alarm env co2 c w later n full armed =
      let (q, a) = track_lost env co2 c w n full in
      (q, no_later_alarm w.bus.armed_generation later _ armed a (track-seen env co2 c w))

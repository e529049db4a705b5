-- ===== src/Gps/Fixes.antt =====
-- How a fix is taken, and how it is lost (main/sensor_gps.c).
use van_child_safety.Base.{◌+◌, ◌*◌, ◌<◌, ◌≡◌, refl, ap, ◌∙◌, true, false, List, [], ◌∷◌, ltb-true}
use van_child_safety.Gps.Sentences.{Floats, Moment, Gps, mark_gps_invalid}
use van_child_safety.Gps.Receiver.{Receiver, gps_fix_stale_s, read_bytes, check_stale, gps_round}

module _ (F : Floats) where
  -- A fix that is reported, older than the limit.
  abbrev pub Overdue : Moment → Gps F → Type 0
  Overdue m g =
      (g.gps_valid_reported ≡ true)
      × (0 < g.last_valid_fix_us)
      × (g.last_valid_fix_us + gps_fix_stale_s * 1000000 < m.now)

  pub check-Overdue :
      (m : Moment) (g : Gps F) → Overdue m g → check_stale F m g ≡ mark_gps_invalid F m g
  unfolding check_stale
  check-Overdue m g h = rw (h.0, ltb-true _ _ h.1, ltb-true _ _ h.2) refl

  -- After a fix that no wait followed up: no later round without bytes takes it back.
  pub unreported_stays :
      (m : Moment) (g : Gps F) → g.gps_valid_reported ≡ false → check_stale F m g ≡ g
  unfolding check_stale
  unreported_stays m g h = rw h refl

  -- Any number of rounds in which no byte arrives.
  abbrev pub quiet_rounds : List Moment → Receiver F → Receiver F
  quiet_rounds [] r = r
  quiet_rounds (m ∷ ms) r = quiet_rounds ms (gps_round F (λ _. m) [] m r)

  unreported_rounds :
      (ms : List Moment) (r : Receiver F) → r.gps.gps_valid_reported ≡ false → quiet_rounds ms r ≡ r
  unfolding gps_round read_bytes
  unreported_rounds [] r h = refl
  unreported_rounds (m ∷ ms) r h = rw (unreported_stays m r.gps h) (unreported_rounds ms r h)

  Overdue-round :
      (m : Moment) (r : Receiver F)
      → Overdue m r.gps
      → gps_round F (λ _. m) [] m r ≡ record r { gps = mark_gps_invalid F m r.gps }
  unfolding gps_round read_bytes
  Overdue-round m r h = rw (check-Overdue m r.gps h) refl

  -- What the round marks stays marked.
  Overdue-rounds :
      (m : Moment) (ms : List Moment) (r : Receiver F)
      → Overdue m r.gps
      → quiet_rounds (m ∷ ms) r ≡ record r { gps = mark_gps_invalid F m r.gps }
  unfolding mark_gps_invalid
  Overdue-rounds m ms r h = ap (quiet_rounds ms) (Overdue-round m r h) ∙ unreported_rounds ms _ refl

  -- A stale fix is marked invalid in the first round without bytes that gets the mutex, and stays.
  pub stale_fix_is_dropped :
      (m : Moment) (ms : List Moment) (r : Receiver F)
      → Overdue m r.gps
      → m.taken ≡ true
      → (quiet_rounds (m ∷ ms) r).gps.gps_valid ≡ false
  unfolding mark_gps_invalid
  stale_fix_is_dropped m ms r h t = rw (Overdue-rounds m ms r h, t) refl

  -- If that round does not get the mutex, the fix stays valid, however many rounds without bytes
  -- follow and whatever they get.
  pub missed_wait_keeps_fix :
      (m : Moment) (ms : List Moment) (r : Receiver F)
      → Overdue m r.gps
      → m.taken ≡ false
      → (quiet_rounds (m ∷ ms) r).gps.gps_valid ≡ r.gps.gps_valid
  unfolding mark_gps_invalid
  missed_wait_keeps_fix m ms r h t = rw (Overdue-rounds m ms r h, t) refl

-- ===== src/System/Pending.antt =====
-- The pending window: the alarm waits for the initial delay, then goes out with a fresh id.
use van_child_safety.Base.{
  ◌+◌, ◌-◌, ◌*◌, ◌/◌, ◌≤◌, ◌<◌, ◌≡◌, ◌≢◌, ap, sym, ◌∙◌, Bool, true, false, not, ◌&&◌, ◌∷◌, arith,
  leb, if◌then◌else◌,
}
use van_child_safety.Base.Text.{is_empty}
use van_child_safety.Types.{BusState}
use van_child_safety.World.{
  World, Bus, NotifState, Env, TakeSite, Config, DistressReport, publish, distress_id_at,
}
use van_child_safety.Mqtt.Report.{distress_report, stable_id}
use van_child_safety.Bus.Locked.{mark_active_locked}
use van_child_safety.Bus.Transitions.{sync_and_publish}
use van_child_safety.Bus.Commands.{mark_distress_active}
use van_child_safety.Alarm.Tracker.{
  same_notif, reset_if_cleared, receive, send_alarm, fire, after_receive, notification_round,
}
use van_child_safety.System.Frame.{Quiet, Quiet-sync_and_publish, alarms_in}
use van_child_safety.System.Invariant.{distress_id_at-nonempty}
use van_child_safety.System.Steps.{Held}
use van_child_safety.System.Alarms.{Silent}
use van_child_safety.System.Rounds.{Busy, receive-Busy, receive-Silent}

-- A pending alarm, as the invariant describes it.
record Waiting (w : World) : Type 0 where
  state : w.bus.state ≡ BusState.distress_pending
  off : w.bus.ignition_on ≡ false
  tracker : w.tracker.state ≡ NotifState.triggered
  unacknowledged : w.bus.distress_acknowledged ≡ false
  no_id : is_empty w.bus.distress_id ≡ true

Held-Waiting : (w : World) → Held w → w.bus.state ≡ BusState.distress_pending → Waiting w
Held-Waiting w h p = record {
  state = p;
  off = ground (arith, h.consistent.on_is_active);
  tracker = h.consistent.pending p;
  unacknowledged =
      ground (arith, h.consistent.acknowledged, h.consistent.raised, h.consistent.pending p);
  no_id = ground (arith, h.consistent.raised_id, h.consistent.raised, h.consistent.pending p);
}

not_idle : {w : World} → Waiting w → w.tracker.state ≢ NotifState.idle
not_idle p i = cc (p.tracker)

not_active :
    {w : World}
    → Waiting w
    → (same_notif w.tracker.state NotifState.active && not w.bus.distress_acknowledged) ≡ false
not_active p = simp p.tracker

reset_pending : (v : World) → Waiting v → reset_if_cleared v ≡ v
unfolding reset_if_cleared
reset_pending v p = simp p.state

-- `elapsed_s >= INITIAL_DELAY_S`.
delay_over : Config → Env → World → Bool
delay_over cfg env v =
    leb cfg.distress_initial_delay_s ((env.now - v.tracker.trigger_time) / 1000000)

module _ (cfg : Config) (env : Env) where
  after_receive_pending :
      (v : World)
      → Waiting v
      → after_receive cfg env v ≡ (if delay_over cfg env v then fire cfg env v else v)
  unfolding after_receive delay_over
  after_receive_pending v p = rw (reset_pending v p) (simp (p.unacknowledged, p.tracker))

  received-Waiting : (w : World) → Waiting w → Waiting (receive cfg env w.distress_queue w)
  received-Waiting w p =
      let b = receive-Busy cfg env w.distress_queue w (not_idle p) in
      record {
        state = rw b.bus p.state;
        off = rw b.bus p.off;
        tracker = b.state ∙ p.tracker;
        unacknowledged = rw b.bus p.unacknowledged;
        no_id = rw b.bus p.no_id;
      }

-- The variables once the alarm is out.
raised_bus : Env → Bus → Bus
raised_bus env b = record b {
  state = BusState.distress_active;
  distress_active = true;
  distress_acknowledged = false;
  distress_id = distress_id_at env.utc;
}

mark_active_pending :
    (env : Env) (v : World)
    → Waiting v
    → mark_active_locked env.utc v.bus ≡ (raised_bus env v.bus, true)
unfolding mark_active_locked raised_bus
mark_active_pending env v p = simp (p.state, p.off, p.no_id)

-- The outcome of an alarm that goes out: `r` is what is published.
abbrev pub Alarmed : Env → World → World → Type 0
Alarmed env w w' =
    (r : DistressReport) × (alarms_in w'.published ≡ r ∷ alarms_in w.published)
    × (r.id ≡ distress_id_at env.utc)
    × (r.bus_state ≡ BusState.distress_active)
    × (w'.bus.distress_id ≡ r.id)
    × (w'.bus.state ≡ BusState.distress_active)
    × (w'.bus.distress_acknowledged ≡ false)
    × (w'.tracker.state ≡ NotifState.active)

Alarmed-from :
    (env : Env) (u v w : World)
    → alarms_in v.published ≡ alarms_in u.published
    → Alarmed env v w
    → Alarmed env u w
Alarmed-from env u v w e (r, sent, i, s, k, t, a, n) = (r, rw (← e) sent, i, s, k, t, a, n)

stable_id-nonempty : (id : _) → is_empty id ≡ false → stable_id id ≡ id
unfolding stable_id
stable_id-nonempty id e = rw e

send_alarm_lem :
    (env : Env) (w v : World)
    → v.connected ≡ true
    → v.bus ≡ raised_bus env w.bus
    → alarms_in v.published ≡ alarms_in w.published
    → Alarmed env w (send_alarm env v)
unfolding send_alarm publish distress_report alarms_in raised_bus
send_alarm_lem env w v c b a = (
  distress_report env v.tracker.event sent,
  simp (c, a),
  id,
  ap (λ (x : Bus). x.state) b,
  simp c (ap (λ (x : Bus). x.distress_id) b ∙ sym id),
  simp c (ap (λ (x : Bus). x.state) b),
  simp c (ap (λ (x : Bus). x.distress_acknowledged) b),
  simp c,
)
  where
    sent : World
    sent = record v {
      tracker = record v.tracker { state = NotifState.active; last_send = env.now };
    }

    id : stable_id v.bus.distress_id ≡ distress_id_at env.utc
    id =
        ap (λ (x : Bus). stable_id x.distress_id) b
        ∙ stable_id-nonempty (distress_id_at env.utc) (distress_id_at-nonempty env.utc)

module _ (cfg : Config) (env : Env) where
  fire_pending : (w : World) → Waiting w → w.connected ≡ true → Alarmed env w (fire cfg env w)
  unfolding fire mark_distress_active
  fire_pending w p c = rw (mark_active_pending env w p) (
      send_alarm_lem env w (sync_and_publish cfg env TakeSite.settle u) (q.connected ∙ c) q.bus
        q.alarms)
    where
      u : World
      u = record w { bus = raised_bus env w.bus }

      q : Quiet u (sync_and_publish cfg env TakeSite.settle u)
      q = Quiet-sync_and_publish cfg env TakeSite.settle u

  -- If the system is consistent and connected and an alarm is pending, a round at or after the end of
  -- the initial delay raises it: exactly one report goes out, with the id of that moment, which the
  -- state machine keeps, and the tracker is active. It does so whatever is queued.
  pub pending_fires :
      (w : World)
      → Held w
      → w.bus.state ≡ BusState.distress_pending
      → w.connected ≡ true
      → w.tracker.trigger_time + cfg.distress_initial_delay_s * 1000000 ≤ env.now
      → Alarmed env w (notification_round cfg env w)
  unfolding notification_round delay_over
  pending_fires w h p c t =
      rw (after_receive_pending cfg env v pv, over)
        (Alarmed-from env w v (fire cfg env v) s.alarms (fire_pending v pv (b.connected ∙ c)))
    where
      v : World
      v = receive cfg env w.distress_queue w

      pw : Waiting w
      pw = Held-Waiting w h p

      pv : Waiting v
      pv = received-Waiting cfg env w pw

      b : Busy w v
      b = receive-Busy cfg env w.distress_queue w (not_idle pw)

      s : Silent w v
      s = receive-Silent cfg env w.distress_queue w (not_idle pw) (not_active pw)

      over : delay_over cfg env v ≡ true
      over = rw (delay_over, b.trigger_time) (ground arith)

  -- If the system is consistent and an alarm is pending, a round between its trigger and the end of
  -- the initial delay keeps the variables of the state machine, the tracker's state and its start,
  -- and publishes no alarm.
  pub pending_waits :
      (w : World)
      → Held w
      → w.bus.state ≡ BusState.distress_pending
      → w.tracker.trigger_time ≤ env.now
      → env.now < w.tracker.trigger_time + cfg.distress_initial_delay_s * 1000000
      → let w' = notification_round cfg env w in
        (w'.bus ≡ w.bus)
        × (w'.tracker.state ≡ NotifState.triggered)
        × (w'.tracker.trigger_time ≡ w.tracker.trigger_time)
        × (alarms_in w'.published ≡ alarms_in w.published)
  unfolding notification_round delay_over
  pending_waits w h p le t =
      rw (after_receive_pending cfg env v pv, early)
        (b.bus, b.state ∙ pw.tracker, b.trigger_time, s.alarms)
    where
      v : World
      v = receive cfg env w.distress_queue w

      pw : Waiting w
      pw = Held-Waiting w h p

      pv : Waiting v
      pv = received-Waiting cfg env w pw

      b : Busy w v
      b = receive-Busy cfg env w.distress_queue w (not_idle pw)

      s : Silent w v
      s = receive-Silent cfg env w.distress_queue w (not_idle pw) (not_active pw)

      early : delay_over cfg env v ≡ false
      early = rw (delay_over, b.trigger_time) (ground arith)

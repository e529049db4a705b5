-- ===== src/System/Persistence.antt =====
-- What can end a distress, and what happens to its id until then.
use van_child_safety.Base.{ℕ, ◌≡◌, ◌≢◌, refl, ap, ◌∙◌, Bool, true, false, not, arith, if◌then◌else◌}
use van_child_safety.Types.{BusState, DistressEvent}
use van_child_safety.World.{World, Bus, NotifState, Env, TakeSite, Config, publish}
use van_child_safety.Mqtt.Report.{mqtt_publish_distress}
use van_child_safety.Bus.Locked.{
  is_armed, AckPath, ack_locked, disarm_locked, force_empty_locked, enter_armed_locked,
  enter_state_locked,
}
use van_child_safety.Bus.Commands.{force_empty, set_co2_baseline}
use van_child_safety.Bus.Poll.{
  effective_ignition, observe_source, apply_edge, end_grace, watch_faults, poll,
}
use van_child_safety.Alarm.Tracker.{
  receive, timers, after_receive, reset_if_cleared, notification_round, republish_distress,
}
use van_child_safety.Alarm.Ack.{ack_branch, ack_distress}
use van_child_safety.System.Frame.{
  Quiet-trans, Quiet-publish_event, Quiet-set_telemetry_state, Quiet-sync_and_publish,
  Quiet-enter_armed, Quiet-disarm, Quiet-queue_send, enter_bus,
}
use van_child_safety.System.Invariant.{Consistent}
use van_child_safety.System.Watch.{Watched, watch_faults-Watched, still_off}
use van_child_safety.System.Steps.{Held, Quiet-apply_edge}
use van_child_safety.System.History.{Op, step}
use van_child_safety.System.Rounds.{Busy, receive-Busy}

-- The flag and the id of a distress are as they were.
pub record Kept (b b' : Bus) : Type 0 where
  pub distress_active : b'.distress_active ≡ b.distress_active
  pub distress_id : b'.distress_id ≡ b.distress_id

Kept-refl : (b : Bus) → Kept b b
Kept-refl b = record { distress_active = refl; distress_id = refl }

Kept-trans : {a b c : Bus} → Kept a b → Kept b c → Kept a c
Kept-trans p q = record {
  distress_active = q.distress_active ∙ p.distress_active;
  distress_id = q.distress_id ∙ p.distress_id;
}

Kept-eq : {b b' : Bus} → b' ≡ b → Kept b b'
Kept-eq e = record {
  distress_active = ap (λ (x : Bus). x.distress_active) e;
  distress_id = ap (λ (x : Bus). x.distress_id) e;
}

Watched-Kept : {b b' : Bus} → Watched b b' → Kept b b'
Watched-Kept q = record { distress_active = q.distress_active; distress_id = q.distress_id }

if-Kept :
    (c : Bool) {b : Bus} (u v : World)
    → Kept b u.bus
    → Kept b v.bus
    → Kept b (if c then u else v).bus
if-Kept true u v p q = p
if-Kept false u v p q = q

-- The operations that may end a distress: clearing, an ignition that is on, and a disarm once
-- it is acknowledged.
abbrev pub may_end : Env → Op → World → Bool
may_end env Op.clears w = true
may_end env (Op.forces empty) w = not empty
may_end env Op.polls w = effective_ignition env.raw w.bus
may_end env Op.disarms w = w.bus.distress_acknowledged
may_end env _ w = false

was_off :
    (b : Bus) (t : NotifState)
    → Consistent b t
    → b.distress_active ≡ true
    → b.prev_effective ≡ false
unfolding is_armed
was_off b t c d = ground (arith, c.raised_armed d, c.effective, c.on_is_active)

bus_publish :
    (env : Env) (e : DistressEvent) (w : World) → (mqtt_publish_distress env e w).bus ≡ w.bus
unfolding mqtt_publish_distress publish
bus_publish env e w = ground arith

timers-bus :
    (cfg : Config) (env : Env) (t : NotifState) (w : World)
    → t ≡ NotifState.active
    → (timers cfg env t w).bus ≡ w.bus
unfolding timers mqtt_publish_distress publish
timers-bus cfg env t w e = rw e (ground arith)

republish-bus : (env : Env) (w : World) → (republish_distress env w).bus ≡ w.bus
unfolding republish_distress mqtt_publish_distress publish
republish-bus env w = ground arith

no_reset : (w : World) → w.bus.distress_active ≡ true → reset_if_cleared w ≡ w
unfolding reset_if_cleared
no_reset w d = ground arith

ack_branch-Kept :
    (cfg : Config) (env : Env) (p : AckPath) (w : World)
    → p ≢ AckPath.was_pending
    → Kept w.bus (ack_branch cfg env p w).bus
unfolding ack_branch
ack_branch-Kept cfg env AckPath.was_pending w n = absurd (n refl)
ack_branch-Kept cfg env AckPath.was_active w n =
    Kept-eq
      (Quiet-trans (Quiet-sync_and_publish cfg env TakeSite.settle w) (Quiet-publish_event _ _)).bus
ack_branch-Kept cfg env AckPath.neither w n = Kept-refl w.bus

ack_locked-Kept :
    (b : Bus)
    → b.state ≢ BusState.distress_pending
    → Kept b (ack_locked b).0 × ((ack_locked b).1 ≢ AckPath.was_pending)
unfolding ack_locked
ack_locked-Kept b n = ground arith

disarm_locked-Kept :
    (b : Bus) (t : NotifState)
    → Consistent b t
    → b.distress_active ≡ true
    → b.distress_acknowledged ≡ false
    → Kept b (disarm_locked b).0
unfolding disarm_locked
disarm_locked-Kept b t c d a = ground (arith, c.raised d)

force_bus-Kept :
    (g now co2 : ℕ) (raw : Bool) (b : Bus)
    → Kept b
        (enter_bus BusState.armed (enter_armed_locked co2 (force_empty_locked g raw now true b)))
unfolding force_empty_locked enter_state_locked enter_armed_locked
force_bus-Kept g now co2 raw b = ground arith

module _ (cfg : Config) (env : Env) where
  no_grace : (w : World) → is_armed w.bus.state ≡ true → end_grace cfg env w ≡ w
  unfolding end_grace is_armed
  no_grace w a = ground arith

  poll-Kept :
      (w : World)
      → Held w
      → w.bus.distress_active ≡ true
      → effective_ignition env.raw w.bus ≡ false
      → Kept w.bus (poll cfg env w).bus
  unfolding poll observe_source
  poll-Kept w h d off = Kept-trans edge_kept (
      Kept-trans (rw (no_grace w1 armed) (Watched-Kept (watch_faults-Watched env w1.bus.state w1)))
        (Kept-eq (Quiet-set_telemetry_state env TakeSite.settle w2).bus))
    where
      effective : Bool
      effective = effective_ignition env.raw w.bus

      seen : Bus
      seen = observe_source env.raw w.bus

      w1 : World
      w1 = apply_edge cfg env effective (record w { bus = seen })

      w2 : World
      w2 = watch_faults env w1.bus.state (end_grace cfg env w1)

      edge : w1.bus ≡ record seen { ignition_on = false }
      edge =
          (Quiet-apply_edge cfg env effective (record w { bus = seen })).bus
          ∙ still_off env.now effective seen (was_off w.bus w.tracker.state h.consistent d) off

      edge_kept : Kept w.bus w1.bus
      edge_kept = Kept-trans (record { distress_active = refl; distress_id = refl }) (Kept-eq edge)

      armed : is_armed w1.bus.state ≡ true
      armed = ap (λ (b : Bus). is_armed b.state) edge ∙ h.consistent.raised_armed d

  round-Kept :
      (w : World)
      → Held w
      → w.bus.distress_active ≡ true
      → Kept w.bus (notification_round cfg env w).bus
  unfolding notification_round after_receive
  round-Kept w h d = rw (no_reset v active) (
      Kept-trans (Kept-eq q.bus) (
        if-Kept v.bus.distress_acknowledged v (timers cfg env v.tracker.state v) (Kept-refl v.bus)
          (Kept-eq (timers-bus cfg env v.tracker.state v (q.state ∙ h.consistent.raised d)))))
    where
      v : World
      v = receive cfg env w.distress_queue w

      q : Busy w v
      q = receive-Busy cfg env w.distress_queue w (λ i. cc (h.consistent.raised d))

      active : v.bus.distress_active ≡ true
      active = ap (λ (b : Bus). b.distress_active) q.bus ∙ d

  ack-Kept :
      (w : World) → Held w → w.bus.distress_active ≡ true → Kept w.bus (ack_distress cfg env w).bus
  unfolding ack_distress
  ack-Kept w h d =
      let (kept, other) =
        ack_locked-Kept w.bus (λ p. cc (h.consistent.pending p, h.consistent.raised d)) in
      Kept-trans kept (ack_branch-Kept cfg env (ack_locked w.bus).1 _ other)

  force_empty-Kept : (w : World) → Kept w.bus (force_empty cfg env true w).bus
  unfolding force_empty
  force_empty-Kept w =
      Kept-trans (force_bus-Kept cfg.exit_grace_seconds env.now _ env.raw w.bus)
        (Kept-eq (Quiet-enter_armed cfg env _).bus)

-- In a consistent system a distress lasts: an operation that is no clearing, no forced drive, no
-- poll that finds the ignition on and no disarm after an acknowledgement keeps its flag and id.
pub distress_persists :
    (cfg : Config) (env : Env) (op : Op) (w : World)
    → Held w
    → w.bus.distress_active ≡ true
    → may_end env op w ≡ false
    → ((step cfg env op w).bus.distress_active ≡ true)
      × ((step cfg env op w).bus.distress_id ≡ w.bus.distress_id)
unfolding step set_co2_baseline
distress_persists cfg env op w h d m = let k = go op m in (k.distress_active ∙ d, k.distress_id)
  where
    go : (op : Op) → may_end env op w ≡ false → Kept w.bus (step cfg env op w).bus
    go Op.polls off = poll-Kept cfg env w h d off
    go Op.rounds m = round-Kept cfg env w h d
    go Op.acks m = ack-Kept cfg env w h d
    go Op.disarms a =
        Kept-trans (disarm_locked-Kept w.bus w.tracker.state h.consistent d a)
          (Kept-eq (Quiet-disarm cfg env w).bus)
    go (Op.forces true) m = force_empty-Kept cfg env w
    go Op.republishes m = Kept-eq (republish-bus env w)
    go (Op.raises e) m = Kept-eq (Quiet-queue_send e w).bus
    go (Op.baselines co2) m =
        Kept-trans (record { distress_active = refl; distress_id = refl })
          (Kept-eq (Quiet-set_telemetry_state env TakeSite.settle _).bus)
    go (Op.senses t bs) m = Kept-refl w.bus
    go (Op.connects up) m = Kept-refl w.bus
    go Op.clears m = ground (arith, m)
    go (Op.forces false) m = ground (arith, m)

-- ===== src/System/Rounds.antt =====
-- Rounds of the notification task: what a busy tracker does, the end of the initial delay, and
-- the silence after an acknowledgement.
use van_child_safety.Base.{
  ◌≡◌, ◌≢◌, refl, ap, ◌∙◌, subst, true, false, not, ◌&&◌, List, [], ◌∷◌, arith,
}
use van_child_safety.Types.{DistressEvent}
use van_child_safety.World.{World, Bus, NotifState, Env, Config}
use van_child_safety.Mqtt.Report.{mqtt_publish_distress}
use van_child_safety.Bus.Locked.{is_armed}
use van_child_safety.Alarm.Tracker.{
  same_notif, has_better_trigger, update_evidence, reset_if_cleared, on_event, receive,
  after_receive, notification_round, republish_distress,
}
use van_child_safety.System.Frame.{alarms_in}
use van_child_safety.System.Steps.{Held}
use van_child_safety.System.History.{Op, step}
use van_child_safety.System.Alarms.{
  Silent, Silent-refl, Silent-trans, Silent-of, off-Silent, if-Silent, step-Silent,
}

-- What an event does to a tracker that is busy: at most its evidence changes.
pub record Busy (w w' : World) : Type 0 where
  pub bus : w'.bus ≡ w.bus
  pub state : w'.tracker.state ≡ w.tracker.state
  pub trigger_time : w'.tracker.trigger_time ≡ w.tracker.trigger_time
  pub connected : w'.connected ≡ w.connected

update_evidence-Busy :
    (env : Env) (e : DistressEvent) (w : World) → Busy w (update_evidence env e w)
unfolding update_evidence mqtt_publish_distress
update_evidence-Busy env e w = ground arith

update_evidence-Silent :
    (env : Env) (e : DistressEvent) (w : World)
    → (same_notif w.tracker.state NotifState.active && not w.bus.distress_acknowledged) ≡ false
    → Silent w (update_evidence env e w)
unfolding update_evidence
update_evidence-Silent env e w h =
    if-Silent
      (not (same_notif w.tracker.state NotifState.idle)
        && (is_armed w.bus.state && has_better_trigger w.tracker.event e))
      (off-Silent _ _ h (Silent-of w w' refl)) (Silent-refl w)
  where
    w' : World
    w' = record w { tracker = record w.tracker { event = e } }

reset-Silent : (w : World) → Silent w (reset_if_cleared w)
unfolding reset_if_cleared
reset-Silent w = ground arith

pub reset-bus : (w : World) → (reset_if_cleared w).bus ≡ w.bus
unfolding reset_if_cleared
reset-bus w = ground arith

not_idle : (t : NotifState) → t ≢ NotifState.idle → same_notif t NotifState.idle ≡ false
not_idle NotifState.idle n = absurd (n refl)
not_idle NotifState.triggered n = refl
not_idle NotifState.active n = refl

no_send : (t : NotifState) → (same_notif t NotifState.active && false) ≡ false
no_send NotifState.active = refl
no_send _ = refl

module _ (cfg : Config) (env : Env) where
  on_event-busy :
      (e : DistressEvent) (w : World)
      → w.tracker.state ≢ NotifState.idle
      → on_event cfg env e w ≡ update_evidence env e w
  unfolding on_event
  on_event-busy e w b = rw (not_idle w.tracker.state b)

  pub receive-Busy :
      (es : List DistressEvent) (w : World)
      → w.tracker.state ≢ NotifState.idle
      → Busy w (receive cfg env es w)
  unfolding receive
  receive-Busy [] w b = record { bus = refl; state = refl; trigger_time = refl; connected = refl }
  receive-Busy (e ∷ es) w b =
      let q = update_evidence-Busy env e w' in
      rw (on_event-busy e w' b) (record {
        bus = q.bus;
        state = q.state;
        trigger_time = q.trigger_time;
        connected = q.connected;
      })
    where
      w' : World
      w' = record w { distress_queue = es }

  pub receive-Silent :
      (es : List DistressEvent) (w : World)
      → w.tracker.state ≢ NotifState.idle
      → (same_notif w.tracker.state NotifState.active && not w.bus.distress_acknowledged) ≡ false
      → Silent w (receive cfg env es w)
  unfolding receive
  receive-Silent [] w b h = Silent-refl w
  receive-Silent (e ∷ es) w b h =
      rw (on_event-busy e w' b) (Silent-of w _ (update_evidence-Silent env e w' h).alarms)
    where
      w' : World
      w' = record w { distress_queue = es }

  -- A round over an acknowledged distress, with a tracker that is busy.
  acked_round-Silent :
      (w : World)
      → w.tracker.state ≢ NotifState.idle
      → w.bus.distress_acknowledged ≡ true
      → Silent w (notification_round cfg env w)
  unfolding notification_round after_receive
  acked_round-Silent w b a =
      Silent-trans (receive-Silent w.distress_queue w b (rw a (no_send w.tracker.state)))
        (rw still (reset-Silent v))
    where
      v : World
      v = receive cfg env w.distress_queue w

      still : (reset_if_cleared v).bus.distress_acknowledged ≡ true
      still =
          ap (λ (b : Bus). b.distress_acknowledged)
            (reset-bus v ∙ (receive-Busy w.distress_queue w b).bus)
          ∙ a

-- In a consistent system with an acknowledged distress, no single operation of any task publishes
-- an alarm, whatever is queued.
pub acknowledged_is_silent :
    (cfg : Config) (env : Env) (op : Op) (w : World)
    → Held w
    → w.bus.distress_acknowledged ≡ true
    → alarms_in (step cfg env op w).published ≡ alarms_in w.published
unfolding step republish_distress
acknowledged_is_silent cfg env op w h a = (go op).alarms
  where
    busy : w.tracker.state ≢ NotifState.idle
    busy i = cc (h.consistent.raised (h.consistent.acknowledged a))

    again : w ≡ republish_distress env w
    again = ground arith

    go : (op : Op) → Silent w (step cfg env op w)
    go Op.rounds = acked_round-Silent cfg env w busy a
    go Op.republishes = subst (Silent w) again (Silent-refl w)
    go op = step-Silent cfg env op w refl

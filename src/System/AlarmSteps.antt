-- ===== src/System/AlarmSteps.antt =====
-- The operations of the tracker and the acknowledgement keep the invariant.
use van_child_safety.Base.{
  ◌≡◌, refl, subst, Bool, true, false, not, ◌&&◌, ◌||◌, inl, inr, List, [], ◌∷◌, arith, Bool-cases,
  if◌then◌else◌,
}
use van_child_safety.Types.{BusState, DistressEvent, same_state}
use van_child_safety.World.{World, Bus, NotifState, Env, TakeSite, Config, Message, publish}
use van_child_safety.Mqtt.Report.{mqtt_publish_distress}
use van_child_safety.Bus.Locked.{
  is_armed, AckPath, mark_pending_locked, mark_active_locked, ack_locked,
}
use van_child_safety.Bus.Transitions.{sync_and_publish}
use van_child_safety.Bus.Commands.{publish_if, mark_distress_pending, mark_distress_active}
use van_child_safety.Alarm.Tracker.{
  same_notif, take_event, update_evidence, reset_if_cleared, handle_ack, begin_result, begin_alarm,
  on_event, receive, send_alarm, fire_result, fire, timers, after_receive, notification_round,
  republish_distress,
}
use van_child_safety.Alarm.Ack.{ack_branch, ack_distress}
use van_child_safety.System.Frame.{Quiet, Quiet-trans, Quiet-sync_and_publish, Quiet-publish_event}
use van_child_safety.System.Invariant.{
  Consistent, begin-Consistent, fire-Consistent, reset-Consistent, ack-Consistent,
  distress_id_at-nonempty,
}
use van_child_safety.System.Steps.{Held, Quiet-Held, if-Held, clear-Held}

publish-Held : (m : Message) (w : World) → Held w → Held (publish m w)
unfolding publish
publish-Held m w h = if-Held w.connected (record { consistent = h.consistent }) h

alarm-Held :
    (env : Env) (e : DistressEvent) (w : World) → Held w → Held (mqtt_publish_distress env e w)
unfolding mqtt_publish_distress
alarm-Held env e w h = publish-Held _ w h

pub republish-Held : (env : Env) (w : World) → Held w → Held (republish_distress env w)
unfolding republish_distress
republish-Held env w h = if-Held _ h (alarm-Held env w.tracker.event w h)

update_evidence-Held :
    (env : Env) (e : DistressEvent) (w : World) → Held w → Held (update_evidence env e w)
unfolding update_evidence
update_evidence-Held env e w h = if-Held _ (if-Held _ (alarm-Held env e w' h') h') h
  where
    w' : World
    w' = record w { tracker = record w.tracker { event = e } }

    h' : Held w'
    h' = record { consistent = h.consistent }

reset-Held : (w : World) → Held w → Held (reset_if_cleared w)
unfolding reset_if_cleared
reset-Held w h = elim (Bool-cases cleared) [
  | inl e ↦ rw e (record {
    consistent = reset-Consistent w.bus w.tracker.state (ground arith) (ground arith) h.consistent;
  })
  | inr e ↦ rw e h
]
  where
    cleared : Bool
    cleared =
        (same_state w.bus.state BusState.active
          || (same_state w.bus.state BusState.armed || same_state w.bus.state BusState.disarmed))
        && (not (same_notif w.tracker.state NotifState.idle) && not w.bus.distress_active)

-- The acknowledgement cancels an alarm in the pending state only.
ack_path_pending :
    (b : Bus)
    → (ack_locked b).1 ≡ AckPath.was_pending
    → (ack_locked b).0.state ≡ BusState.distress_pending
unfolding ack_locked
ack_path_pending b e = ground arith

module _ (cfg : Config) (env : Env) where
  begin_with :
      (done : Bool) (w : World)
      → w.tracker.state ≡ NotifState.triggered
      → Consistent w.bus (if done then NotifState.triggered else NotifState.idle)
      → Held (begin_result (publish_if cfg env done w))
  begin_with true w t c =
      Quiet-Held (Quiet-sync_and_publish cfg env TakeSite.settle w) (record { consistent = rw t c })
  begin_with false w t c = record { consistent = c }

  begin_alarm-Held :
      (e : DistressEvent) (w : World)
      → Consistent w.bus NotifState.idle
      → Held (begin_alarm cfg env e w)
  unfolding begin_alarm mark_distress_pending take_event
  begin_alarm-Held e w c =
      begin_with (mark_pending_locked w.bus).1 _ refl (begin-Consistent w.bus c)

  -- An event meets an idle tracker, or one that is busy.
  on_event-Held : (e : DistressEvent) (w : World) → Held w → Held (on_event cfg env e w)
  unfolding on_event
  on_event-Held e w h = elim (Bool-cases fresh) [
    | inl f ↦ rw f (begin_alarm-Held e w (subst (Consistent w.bus) (ground arith) h.consistent))
    | inr f ↦ rw f (update_evidence-Held env e w h)
  ]
    where
      fresh : Bool
      fresh = same_notif w.tracker.state NotifState.idle && is_armed w.bus.state

  receive-Held : (es : List DistressEvent) (w : World) → Held w → Held (receive cfg env es w)
  unfolding receive
  receive-Held [] w h = h
  receive-Held (e ∷ es) w h = on_event-Held e _ (record { consistent = h.consistent })

  fire_with :
      (done : Bool) (w : World)
      → Consistent w.bus (if done then NotifState.active else NotifState.idle)
      → Held (fire_result env (publish_if cfg env done w))
  unfolding send_alarm
  fire_with true w c = alarm-Held env w'.tracker.event sent (record { consistent = rw q.bus c })
    where
      w' : World
      w' = sync_and_publish cfg env TakeSite.settle w

      sent : World
      sent = record w' {
        tracker = record w'.tracker { state = NotifState.active; last_send = env.now };
      }

      q : Quiet w (sync_and_publish cfg env TakeSite.settle w)
      q = Quiet-sync_and_publish cfg env TakeSite.settle w
  fire_with false w c = record { consistent = c }

  fire-Held : (w : World) → w.tracker.state ≡ NotifState.triggered → Held w → Held (fire cfg env w)
  unfolding fire mark_distress_active
  fire-Held w t h = fire_with (mark_active_locked env.utc w.bus).1 _ (
      fire-Consistent env.utc w.bus (distress_id_at-nonempty env.utc)
        (subst (Consistent w.bus) t h.consistent))

  timers-Held :
      (s : NotifState) (w : World) → w.tracker.state ≡ s → Held w → Held (timers cfg env s w)
  unfolding timers
  timers-Held NotifState.idle w t h = h
  timers-Held NotifState.triggered w t h = if-Held _ (fire-Held w t h) h
  timers-Held NotifState.active w t h =
      if-Held _ (alarm-Held env w.tracker.event _ (record { consistent = h.consistent })) h

  pub round-Held : (w : World) → Held w → Held (notification_round cfg env w)
  unfolding notification_round after_receive
  round-Held w h = if-Held _ settled (timers-Held _ _ refl settled)
    where
      received : Held (receive cfg env w.distress_queue w)
      received = receive-Held w.distress_queue w h

      settled : Held (reset_if_cleared (receive cfg env w.distress_queue w))
      settled = reset-Held _ received

  pub handle_ack-Held :
      (w : World) → w.bus.state ≡ BusState.distress_pending → Held w → Held (handle_ack cfg env w)
  unfolding handle_ack
  handle_ack-Held w p h = rw (h.consistent.pending p) (
      clear-Held cfg env _ NotifState.triggered
        (subst (Consistent w.bus) (h.consistent.pending p) h.consistent))

  ack_branch-Held :
      (path : AckPath) (w : World)
      → (path ≡ AckPath.was_pending → w.bus.state ≡ BusState.distress_pending)
      → Held w
      → Held (ack_branch cfg env path w)
  unfolding ack_branch
  ack_branch-Held AckPath.was_pending w p h = handle_ack-Held w (p refl) h
  ack_branch-Held AckPath.was_active w p h =
      Quiet-Held
        (Quiet-trans (Quiet-sync_and_publish cfg env TakeSite.settle w) (Quiet-publish_event _ _)) h
  ack_branch-Held AckPath.neither w p h = h

  pub ack-Held : (w : World) → Held w → Held (ack_distress cfg env w)
  unfolding ack_distress
  ack-Held w h =
      ack_branch-Held (ack_locked w.bus).1 _ (ack_path_pending w.bus)
        (record { consistent = ack-Consistent w.bus w.tracker.state h.consistent })

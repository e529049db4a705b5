-- ===== src/Alarm/Tracker.antt =====
-- `notification_task` of main/notifications.c, one round at a time, and the calls that other tasks
-- make of the tracker. The legacy Discord webhook, off by default, is left out.
use van_child_safety.Base.{
  ℕ, ◌-◌, ◌/◌, Bool, true, false, not, ◌&&◌, ◌||◌, List, [], ◌∷◌, leb, ◌==◌, if◌then◌else◌,
}
use van_child_safety.Base.Text.{is_empty}
use van_child_safety.Types.{DistressType, DistressEvent, BusState, same_state}
use van_child_safety.World.{World, NotifState, Env, Config}
use van_child_safety.Mqtt.Report.{mqtt_publish_distress}
use van_child_safety.Bus.Locked.{is_armed}
use van_child_safety.Bus.Commands.{mark_distress_pending, mark_distress_active, clear_distress}

-- The value of the C enumerators.
abbrev pub notif_index : NotifState → ℕ
notif_index NotifState.idle = 0
notif_index NotifState.triggered = 1
notif_index NotifState.active = 2

abbrev pub same_notif : NotifState → NotifState → Bool
same_notif s t = notif_index s == notif_index t

abbrev is_beacon : DistressType → Bool
is_beacon DistressType.beacon_near = true
is_beacon _ = false

abbrev is_co2 : DistressType → Bool
is_co2 DistressType.co2_rise = true
is_co2 _ = false

abbrev is_presence : DistressType → Bool
is_presence DistressType.presence_detected = true
is_presence _ = false

-- `event_has_better_identity`.
unfoldable pub has_better_identity : DistressEvent → DistressEvent → Bool
has_better_identity current candidate =
    if is_beacon current.kind
    then false
    else is_beacon candidate.kind && not (is_empty candidate.beacon_name)

-- `event_has_better_trigger`.
unfoldable pub has_better_trigger : DistressEvent → DistressEvent → Bool
unfolding has_better_identity
has_better_trigger current candidate =
    has_better_identity current candidate || (is_presence current.kind && is_co2 candidate.kind)

abbrev pub set_state : NotifState → World → World
set_state s w = record w { tracker = record w.tracker { state = s } }

-- `notification_republish_distress`.
unfoldable pub republish_distress : Env → World → World
unfolding mqtt_publish_distress
republish_distress env w =
    if same_notif w.tracker.state NotifState.idle || w.bus.distress_acknowledged
    then w
    else mqtt_publish_distress env w.tracker.event w

-- The tracker takes the event: the first assignments of a new alarm.
unfoldable pub take_event : ℕ → DistressEvent → World → World
take_event now e w = record w {
  tracker = record { state = NotifState.triggered; trigger_time = now; last_send = 0; event = e };
}

-- An event that finds the tracker busy replaces weaker evidence.
unfoldable pub update_evidence : Env → DistressEvent → World → World
unfolding is_armed has_better_trigger mqtt_publish_distress
update_evidence env e w =
    if not (same_notif w.tracker.state NotifState.idle)
      && (is_armed w.bus.state && has_better_trigger w.tracker.event e)
    then (let w' = record w { tracker = record w.tracker { event = e } } in
        if same_notif w'.tracker.state NotifState.active && not w'.bus.distress_acknowledged
        then mqtt_publish_distress env e w'
        else w')
    else w

-- The reset of a tracker whose distress was cleared.
unfoldable pub reset_if_cleared : World → World
reset_if_cleared w =
    if (same_state w.bus.state BusState.active
        || (same_state w.bus.state BusState.armed || same_state w.bus.state BusState.disarmed))
      && (not (same_notif w.tracker.state NotifState.idle) && not w.bus.distress_active)
    then set_state NotifState.idle w
    else w

-- What becomes of a new alarm that was marked, or was refused.
abbrev pub begin_result : World × Bool → World
begin_result (w, true) = w
begin_result (w, false) = set_state NotifState.idle w

-- The tracker repeats from here on, and the alarm goes out.
unfoldable pub send_alarm : Env → World → World
unfolding mqtt_publish_distress
send_alarm env w =
    mqtt_publish_distress env w.tracker.event
      (record w { tracker = record w.tracker { state = NotifState.active; last_send = env.now } })

abbrev pub fire_result : Env → World × Bool → World
fire_result env (w, true) = send_alarm env w
fire_result env (w, false) = set_state NotifState.idle w

module _ (cfg : Config) where
  -- `notification_handle_ack`.
  unfoldable pub handle_ack : Env → World → World
  unfolding clear_distress
  handle_ack env w =
      let had_pending = same_notif w.tracker.state NotifState.triggered in
      let w' = record w { tracker = record w.tracker { state = NotifState.idle; last_send = 0 } } in
      if had_pending then clear_distress cfg env w' else w'

  -- A new alarm: `bus_state_mark_distress_pending` may refuse it.
  unfoldable pub begin_alarm : Env → DistressEvent → World → World
  unfolding take_event mark_distress_pending
  begin_alarm env e w = begin_result (mark_distress_pending cfg env (take_event env.now e w))

  -- What the round does with an event that it received.
  unfoldable pub on_event : Env → DistressEvent → World → World
  unfolding is_armed begin_alarm update_evidence
  on_event env e w =
      if same_notif w.tracker.state NotifState.idle && is_armed w.bus.state
      then begin_alarm env e w
      else update_evidence env e w

  -- `xQueueReceive`: the oldest event, or none within the second.
  unfoldable pub receive : Env → List DistressEvent → World → World
  unfolding on_event
  receive env [] w = w
  receive env (e ∷ es) w = on_event env e (record w { distress_queue = es })

  -- The end of the initial delay: `bus_state_mark_distress_active` may refuse the alarm.
  unfoldable pub fire : Env → World → World
  unfolding mark_distress_active send_alarm
  fire env w = fire_result env (mark_distress_active cfg env w)

  -- The timers. Clock readings grow, so each difference is that of `int64_t`.
  unfoldable pub timers : Env → NotifState → World → World
  unfolding fire mqtt_publish_distress
  timers env NotifState.triggered w =
      if leb cfg.distress_initial_delay_s ((env.now - w.tracker.trigger_time) / 1000000)
      then fire env w
      else w
  timers env NotifState.active w =
      if leb cfg.distress_repeat_interval_s ((env.now - w.tracker.last_send) / 1000000)
      then mqtt_publish_distress env w.tracker.event
          (record w { tracker = record w.tracker { last_send = env.now } })
      else w
  timers env NotifState.idle w = w

  -- What follows the queue in a round. Once acknowledged, nothing repeats.
  unfoldable pub after_receive : Env → World → World
  unfolding reset_if_cleared timers
  after_receive env w =
      let w' = reset_if_cleared w in
      if w'.bus.distress_acknowledged then w' else timers env w'.tracker.state w'

  -- One round of the loop of `notification_task`.
  unfoldable pub notification_round : Env → World → World
  unfolding receive after_receive
  notification_round env w = after_receive env (receive env w.distress_queue w)

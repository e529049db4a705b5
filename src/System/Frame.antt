-- ===== src/System/Frame.antt =====
-- What the publishing parts of the operations leave alone: the variables of main/bus_state.c,
-- the tracker, the roster, and the alarms that were published.
use van_child_safety.Base.{
  ◌≡◌, refl, ap, ◌∙◌, Bool, true, false, ◌&&◌, List, [], ◌∷◌, inl, inr, arith, Bool-cases,
  if◌then◌else◌,
}
use van_child_safety.Types.{Beacon, BusState, DisarmResult, DistressEvent, same_state}
use van_child_safety.World.{
  World, Bus, Env, TakeSite, Config, BusEvent, DistressReport, Message, mqtt_clear_distress,
  queue_send,
}
use van_child_safety.Roster.Near.{is_near, near_event, queue_near_from}
use van_child_safety.Mqtt.Report.{mqtt_publish_bus_state}
use van_child_safety.Bus.Commands.{
  should_transition, clear_branch, clear_distress, after_disarm, disarm_branch, disarm,
}
use van_child_safety.Bus.Locked.{
  reset_distress, disarm_locked, enter_state_locked, enter_armed_locked,
}
use van_child_safety.Bus.Transitions.{
  set_telemetry_state, publish_event, publish_bus_clear_if_clear, announce, sync_and_publish,
  enter_state, take_baseline, armed_baseline, enter_armed,
}

-- The distress reports among the messages.
unfoldable pub alarms_in : List Message → List DistressReport
alarms_in [] = []
alarms_in (Message.distress r ∷ ms) = r ∷ alarms_in ms
alarms_in (Message.bus_state _ ∷ ms) = alarms_in ms
alarms_in (Message.clear_distress ∷ ms) = alarms_in ms
alarms_in (Message.event _ _ ∷ ms) = alarms_in ms
alarms_in (Message.beacon_state _ _ _ ∷ ms) = alarms_in ms
alarms_in (Message.command_result _ ∷ ms) = alarms_in ms
alarms_in (Message.config_result _ ∷ ms) = alarms_in ms
alarms_in (Message.roster _ ∷ ms) = alarms_in ms
alarms_in (Message.online ∷ ms) = alarms_in ms
alarms_in (Message.discovery _ ∷ ms) = alarms_in ms
alarms_in (Message.beacon_discovery _ _ ∷ ms) = alarms_in ms
alarms_in (Message.clear_retained _ ∷ ms) = alarms_in ms

abbrev pub alarms : World → List DistressReport
alarms w = alarms_in w.published

-- `w'` differs from `w` at most in telemetry, the distress queue and messages that are no alarms.
pub record Quiet (w w' : World) : Type 0 where
  pub bus : w'.bus ≡ w.bus
  pub tracker : w'.tracker ≡ w.tracker
  pub beacons : w'.beacons ≡ w.beacons
  pub connected : w'.connected ≡ w.connected
  pub alarms : alarms_in w'.published ≡ alarms_in w.published

pub Quiet-refl : (w : World) → Quiet w w
Quiet-refl w = record {
  bus = refl;
  tracker = refl;
  beacons = refl;
  connected = refl;
  alarms = refl;
}

pub Quiet-trans : {u v w : World} → Quiet u v → Quiet v w → Quiet u w
Quiet-trans p q = record {
  bus = q.bus ∙ p.bus;
  tracker = q.tracker ∙ p.tracker;
  beacons = q.beacons ∙ p.beacons;
  connected = q.connected ∙ p.connected;
  alarms = q.alarms ∙ p.alarms;
}

-- The same change of the variables keeps two worlds alike.
pub Quiet-map :
    {w w' : World} (f : Bus → Bus)
    → Quiet w w'
    → Quiet (record w { bus = f w.bus }) (record w' { bus = f w'.bus })
Quiet-map f q = record {
  bus = ap f q.bus;
  tracker = q.tracker;
  beacons = q.beacons;
  connected = q.connected;
  alarms = q.alarms;
}

pub Quiet-publish_event : (e : BusEvent) (w : World) → Quiet w (publish_event e w)
unfolding publish_event alarms_in
Quiet-publish_event e w = ground arith

pub Quiet-mqtt_clear_distress : (w : World) → Quiet w (mqtt_clear_distress w)
unfolding mqtt_clear_distress alarms_in
Quiet-mqtt_clear_distress w = ground arith

pub Quiet-set_telemetry_state :
    (env : Env) (site : TakeSite) (w : World) → Quiet w (set_telemetry_state env site w)
unfolding set_telemetry_state
Quiet-set_telemetry_state env site w = ground arith

pub Quiet-queue_send : (e : DistressEvent) (w : World) → Quiet w (queue_send e w).0
unfolding queue_send
Quiet-queue_send e w = ground arith

Quiet-queue_near_one :
    (env : Env) (b : Beacon) (w : World)
    → Quiet w (if b.active && is_near b.state then (queue_send (near_event env b) w).0 else w)
Quiet-queue_near_one env b w = elim (Bool-cases (b.active && is_near b.state)) [
  | inl e ↦ rw e (Quiet-queue_send _ w)
  | inr e ↦ rw e (Quiet-refl w)
]

Quiet-queue_near_from :
    (env : Env) (bs : List Beacon) (w : World) → Quiet w (queue_near_from env bs w)
unfolding queue_near_from
Quiet-queue_near_from env [] w = Quiet-refl w
Quiet-queue_near_from env (b ∷ bs) w =
    Quiet-trans (Quiet-queue_near_one env b w) (Quiet-queue_near_from env bs _)

Quiet-publish_bus_clear : (env : Env) (w : World) → Quiet w (publish_bus_clear_if_clear env w)
unfolding publish_bus_clear_if_clear alarms_in
Quiet-publish_bus_clear env w = ground arith

-- Whatever a transition announces, the state machine and the tracker stay as they were.
pub Quiet-announce : (env : Env) (s : BusState) (w : World) → Quiet w (announce env s w)
unfolding announce
Quiet-announce env BusState.active w =
    Quiet-trans (Quiet-mqtt_clear_distress w) (Quiet-publish_event _ _)
Quiet-announce env BusState.disarmed w = Quiet-mqtt_clear_distress w
Quiet-announce env BusState.exit_grace w = Quiet-publish_event _ w
Quiet-announce env BusState.armed w =
    Quiet-trans (Quiet-publish_event BusEvent.armed w)
      (Quiet-trans (Quiet-queue_near_from env w'.beacons w') (Quiet-publish_bus_clear env _))
  where
    w' : World
    w' = publish_event BusEvent.armed w
Quiet-announce env _ w = Quiet-refl w

-- The effect of `enter_state` on the variables.
abbrev pub enter_bus : BusState → Bus → Bus
enter_bus s b = if same_state b.state s then b else enter_state_locked s b

-- The effect of the branch of `bus_state_clear_distress`, and of the whole.
abbrev pub clear_branch_bus : BusState → Bus → Bus
clear_branch_bus old b =
    if should_transition old
    then (if b.ignition_on then enter_bus BusState.active b else enter_bus BusState.armed b)
    else b

abbrev pub clear_bus : Bus → Bus
clear_bus b = clear_branch_bus b.state (reset_distress b)

module _ (cfg : Config) (env : Env) where
  pub Quiet-sync_and_publish :
      (site : TakeSite) (w : World) → Quiet w (sync_and_publish cfg env site w)
  unfolding sync_and_publish alarms_in
  Quiet-sync_and_publish site w = Quiet-trans (Quiet-set_telemetry_state env site w) (published _)
    where
      published : (v : World) → Quiet v (mqtt_publish_bus_state cfg env v)
      published v = ground arith

  -- `enter_state` does to the variables what its critical section does, and no more.
  pub Quiet-enter_state :
      (s : BusState) (w : World)
      → Quiet (record w { bus = enter_bus s w.bus }) (enter_state cfg env s w)
  unfolding enter_state
  Quiet-enter_state s w = elim (Bool-cases (same_state w.bus.state s)) [
    | inl e ↦ rw e (Quiet-refl w)
    | inr e ↦
        rw e (Quiet-trans (Quiet-sync_and_publish TakeSite.transition _) (Quiet-announce env s _))
  ]

  Quiet-take_baseline : (w : World) → Quiet w (take_baseline env w)
  unfolding take_baseline
  Quiet-take_baseline w = ground arith

  -- `enter_armed`: the generation, the baseline, and the transition.
  pub Quiet-enter_armed :
      (w : World)
      → Quiet
          (record w {
            bus = enter_bus BusState.armed (enter_armed_locked (armed_baseline env w) w.bus);
          })
          (enter_armed cfg env w)
  unfolding enter_armed
  Quiet-enter_armed w =
      Quiet-trans (Quiet-map (enter_bus BusState.armed) (Quiet-map locked (Quiet-take_baseline w)))
        (Quiet-enter_state BusState.armed w')
    where
      locked : Bus → Bus
      locked = enter_armed_locked (armed_baseline env w)

      w' : World
      w' = record (take_baseline env w) { bus = locked (take_baseline env w).bus }

  Quiet-either :
      (on : Bool) (w : World)
      → Quiet
          (record w {
            bus = if on then enter_bus BusState.active w.bus else enter_bus BusState.armed w.bus;
          })
          (if on
            then enter_state cfg env BusState.active w
            else enter_state cfg env BusState.armed w)
  Quiet-either true w = Quiet-enter_state BusState.active w
  Quiet-either false w = Quiet-enter_state BusState.armed w

  Quiet-clear_branch :
      (old : BusState) (w : World)
      → Quiet (record w { bus = clear_branch_bus old w.bus }) (clear_branch cfg env old w)
  unfolding clear_branch
  Quiet-clear_branch old w = elim (Bool-cases (should_transition old)) [
    | inl e ↦ rw e (Quiet-either w.bus.ignition_on w)
    | inr e ↦ rw e (Quiet-sync_and_publish TakeSite.settle w)
  ]

  -- `bus_state_clear_distress`: the flags, and the transition.
  pub Quiet-clear_distress :
      (w : World) → Quiet (record w { bus = clear_bus w.bus }) (clear_distress cfg env w)
  unfolding clear_distress
  Quiet-clear_distress w =
      Quiet-trans
        (Quiet-trans (Quiet-map (clear_branch_bus w.bus.state) (Quiet-mqtt_clear_distress w'))
          (Quiet-clear_branch w.bus.state (mqtt_clear_distress w')))
        (Quiet-publish_event _ _)
    where
      w' : World
      w' = record w { bus = reset_distress w.bus }

  pub Quiet-after_disarm : (w : World) → Quiet w (after_disarm cfg env w)
  unfolding after_disarm
  Quiet-after_disarm w =
      Quiet-trans (Quiet-sync_and_publish TakeSite.settle w)
        (Quiet-trans (Quiet-mqtt_clear_distress _) (Quiet-publish_event _ _))

  Quiet-disarm_branch : (w : World) (r : DisarmResult) → Quiet w (disarm_branch cfg env w r).0
  Quiet-disarm_branch w DisarmResult.ok = Quiet-after_disarm w
  Quiet-disarm_branch w _ = Quiet-refl w

  -- `bus_state_disarm`: the critical section.
  pub Quiet-disarm :
      (w : World) → Quiet (record w { bus = (disarm_locked w.bus).0 }) (disarm cfg env w).0
  unfolding disarm
  Quiet-disarm w = Quiet-disarm_branch _ (disarm_locked w.bus).1

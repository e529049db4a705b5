-- ===== src/Session/Reconcile.antt =====
-- After a new connection the retained distress topic says what the state machine says
-- (main/mqtt_client.c).
use van_child_safety.Base.{
  ◌≡◌, refl, ap, ◌∙◌, Bool, true, false, not, Option, none, some, List, [], ◌∷◌, if◌then◌else◌,
}
use van_child_safety.Base.Text.{Text, is_empty}
use van_child_safety.Types.{Beacon}
use van_child_safety.World.{
  World, Bus, Tracker, NotifState, Env, Config, DistressReport, Message, publish,
  mqtt_clear_distress,
}
use van_child_safety.Mqtt.Report.{
  mqtt_publish_bus_state, mqtt_publish_distress, distress_report, stable_id,
}
use van_child_safety.Alarm.Tracker.{republish_distress}
use van_child_safety.Roster.Json.{Cjson}
use van_child_safety.Roster.Document.{build_roster_json}
use van_child_safety.Roster.Config.{list_beacons, publish_list}
use van_child_safety.System.Frame.{Quiet, Quiet-refl, Quiet-trans, alarms_in}
use van_child_safety.System.Invariant.{Consistent}
use van_child_safety.Session.Handler.{
  publish_entities, publish_beacon_entities, publish_all_discovery, publish_states_of,
  announce_unit, reconcile_distress, connect_session, base_entities,
}

-- What the broker retains on the distress topic after the messages, the newest first.
unfoldable pub retained_distress : List Message → Option DistressReport
retained_distress [] = none
retained_distress (Message.distress r ∷ ms) = some r
retained_distress (Message.clear_distress ∷ ms) = none
retained_distress (_ ∷ ms) = retained_distress ms

-- Messages that say nothing of a distress, and telemetry, and the queue.
pub record Aside (w w' : World) : Type 0 where
  pub quiet : Quiet w w'
  pub retained : retained_distress w'.published ≡ retained_distress w.published

Aside-refl : (w : World) → Aside w w
Aside-refl w = record { quiet = Quiet-refl w; retained = refl }

Aside-trans : {u v w : World} → Aside u v → Aside v w → Aside u w
Aside-trans p q = record { quiet = Quiet-trans p.quiet q.quiet; retained = q.retained ∙ p.retained }

if-Aside : (c : Bool) {w u : World} → Aside w u → Aside w (if c then u else w)
if-Aside true a = a
if-Aside false a = Aside-refl _

-- A message of another topic.
Aside-publish :
    (m : Message) (w : World)
    → (alarms_in (m ∷ w.published) ≡ alarms_in w.published)
    → (retained_distress (m ∷ w.published) ≡ retained_distress w.published)
    → Aside w (publish m w)
unfolding publish
Aside-publish m w a r = if-Aside w.connected record {
  quiet = record { bus = refl; tracker = refl; beacons = refl; connected = refl; alarms = a };
  retained = r;
}

Aside-entities : (es : List Text) (w : World) → Aside w (publish_entities es w)
unfolding publish_entities alarms_in retained_distress
Aside-entities [] w = Aside-refl w
Aside-entities (e ∷ es) w =
    Aside-trans (Aside-publish (Message.discovery e) w refl refl) (Aside-entities es _)

Aside-beacon_entities : (bs : List Beacon) (w : World) → Aside w (publish_beacon_entities bs w)
unfolding publish_beacon_entities alarms_in retained_distress
Aside-beacon_entities [] w = Aside-refl w
Aside-beacon_entities (b ∷ bs) w =
    Aside-trans (if-Aside b.active (Aside-publish (Message.beacon_discovery _ _) w refl refl))
      (Aside-beacon_entities bs _)

Aside-states : (bs : List Beacon) (w : World) → Aside w (publish_states_of bs w)
unfolding publish_states_of alarms_in retained_distress
Aside-states [] w = Aside-refl w
Aside-states (b ∷ bs) w =
    Aside-trans (if-Aside b.active (Aside-publish (Message.beacon_state _ _ _) w refl refl))
      (Aside-states bs _)

Aside-list : (json : Option Text) (w : World) → Aside w (publish_list json w)
unfolding alarms_in retained_distress
Aside-list none w = Aside-refl w
Aside-list (some json) w = Aside-publish (Message.roster json) w refl refl

module _ (cj : Cjson) (cfg : Config) (env : Env) where
  Aside-bus_state : (w : World) → Aside w (mqtt_publish_bus_state cfg env w)
  unfolding mqtt_publish_bus_state alarms_in retained_distress
  Aside-bus_state w = Aside-publish (Message.bus_state _) w refl refl

  pub Aside-announce : (w : World) → Aside w (announce_unit cj cfg env w)
  unfolding announce_unit list_beacons alarms_in retained_distress publish_all_discovery
  Aside-announce w =
      let w1 = publish_entities base_entities (publish Message.online w) in
      let w2 = mqtt_publish_bus_state cfg env (publish_beacon_entities w1.beacons w1) in
      let w3 = publish_states_of w2.beacons w2 in
      Aside-trans (Aside-publish Message.online w refl refl) (
        Aside-trans (Aside-entities base_entities _) (
          Aside-trans (Aside-beacon_entities w1.beacons w1) (
            Aside-trans (Aside-bus_state _) (
              Aside-trans (Aside-states w2.beacons w2)
                (Aside-list (cj.print (build_roster_json cj cfg env.utc w3.beacons)) w3)))))

-- The last step, over a connection.
clears :
    (env : Env) (v : World)
    → v.connected ≡ true
    → v.bus.distress_active ≡ false
    → retained_distress (reconcile_distress env v).published ≡ none
unfolding reconcile_distress mqtt_clear_distress publish retained_distress
clears env v c d = rw (d, c) refl

republishes :
    (env : Env) (v : World)
    → v.connected ≡ true
    → v.bus.distress_active ≡ true
    → v.bus.distress_acknowledged ≡ false
    → v.tracker.state ≡ NotifState.active
    → retained_distress (reconcile_distress env v).published
      ≡ some (distress_report env v.tracker.event v)
unfolding reconcile_distress republish_distress mqtt_publish_distress publish retained_distress
republishes env v c d k t = rw (d, c, k, t) refl

leaves :
    (env : Env) (v : World)
    → v.bus.distress_active ≡ true
    → v.bus.distress_acknowledged ≡ true
    → v.tracker.state ≡ NotifState.active
    → reconcile_distress env v ≡ v
unfolding reconcile_distress republish_distress
leaves env v d k t = rw (d, k, t) refl

stable_id_kept : (id : Text) → is_empty id ≡ false → stable_id id ≡ id
unfolding stable_id
stable_id_kept id e = rw e refl

module _ (cj : Cjson) (cfg : Config) (env : Env) where
  -- After a new connection of a consistent unit: without a distress the retained distress is gone;
  -- with one that is not acknowledged it carries its id, its trigger and the state; with an
  -- acknowledged one it is whatever the broker had, since nothing is published.
  pub reconnect_reconciles :
      (w : World)
      → Consistent w.bus w.tracker.state
      → let after = retained_distress (connect_session cj cfg env w).published in
        (w.bus.distress_active ≡ false → after ≡ none)
        × (w.bus.distress_active ≡ true
            → w.bus.distress_acknowledged ≡ false
            → (r : DistressReport) × (after ≡ some r)
              × (r.id ≡ w.bus.distress_id)
              × (r.trigger ≡ w.tracker.event.kind)
              × (r.bus_state ≡ w.bus.state))
        × (w.bus.distress_active ≡ true
            → w.bus.distress_acknowledged ≡ true
            → after ≡ retained_distress w.published)
  unfolding connect_session distress_report
  reconnect_reconciles w h =
      let v = announce_unit cj cfg env (record w { connected = true }) in
      let a = Aside-announce cj cfg env (record w { connected = true }) in
      let bus = a.quiet.bus in
      (
        λ d. clears env v a.quiet.connected (ap (λ (b : Bus). b.distress_active) bus ∙ d),
        λ d k. (
          distress_report env v.tracker.event v,
          republishes env v a.quiet.connected (ap (λ (b : Bus). b.distress_active) bus ∙ d)
              (ap (λ (b : Bus). b.distress_acknowledged) bus ∙ k)
              (ap (λ (t : Tracker). t.state) a.quiet.tracker ∙ h.raised d),
          ap (λ (b : Bus). stable_id b.distress_id) bus
              ∙ stable_id_kept w.bus.distress_id (h.raised_id ∙ ap not d),
          ap (λ (t : Tracker). t.event.kind) a.quiet.tracker,
          ap (λ (b : Bus). b.state) bus,
        ),
        λ d k.
            ap (λ (u : World). retained_distress u.published)
              (leaves env v (ap (λ (b : Bus). b.distress_active) bus ∙ d)
                (ap (λ (b : Bus). b.distress_acknowledged) bus ∙ k)
                (ap (λ (t : Tracker). t.state) a.quiet.tracker ∙ h.raised d))
            ∙ a.retained,
      )

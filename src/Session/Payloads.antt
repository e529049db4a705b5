-- ===== src/Session/Payloads.antt =====
-- Where a payload of the MQTT session goes, and that no event of the session breaks the system's
-- invariant (main/mqtt_client.c).
use van_child_safety.Base.{◌≡◌, refl, Bool, true, false, List, [], ◌∷◌, if◌then◌else◌}
use van_child_safety.Base.Text.{Text}
use van_child_safety.World.{World, Env, Config}
use van_child_safety.Roster.Json.{Cjson}
use van_child_safety.Roster.Document.{Nvs}
use van_child_safety.Roster.Requests.{handle_mqtt-Quiet}
use van_child_safety.Command.Handler.{Parse}
use van_child_safety.Command.Keeps.{handle_command-Held}
use van_child_safety.System.Frame.{Quiet-mqtt_clear_distress}
use van_child_safety.System.Steps.{Held, Quiet-Held, if-Held}
use van_child_safety.System.AlarmSteps.{republish-Held}
use van_child_safety.Session.Handler.{
  Device, MqttEvent, reconcile_distress, connect_session, take_payload, mqtt_event_handler,
}
use van_child_safety.Session.Reconcile.{Aside-announce}

either_same {ℓ} : {A : Type ℓ} (c d : Bool) (x : A) → (if c then x else if d then x else x) ≡ x
either_same true d x = refl
either_same false true x = refl
either_same false false x = refl

reconcile-Held : (env : Env) (w : World) → Held w → Held (reconcile_distress env w)
unfolding reconcile_distress
reconcile-Held env w h =
    if-Held w.bus.distress_active (republish-Held env w h)
      (Quiet-Held (Quiet-mqtt_clear_distress w) h)

-- The outcome of a payload, by the two tests of the topic and the one of the retain flag.
abbrev routed : Bool → Bool → Bool → Device → Device → Device → Bool → Device × Bool
routed c d retain u commanded changed restarts =
    if c
    then (if retain then (u, false) else (commanded, restarts))
    else if d
    then (if retain then (u, false) else (changed, false))
    else (u, false)

route-Held :
    (c d retain : Bool) (u commanded changed : Device) (restarts : Bool)
    → Held u.world
    → Held commanded.world
    → Held changed.world
    → Held (routed c d retain u commanded changed restarts).0.world
route-Held true d true u commanded changed restarts h k l = h
route-Held true d false u commanded changed restarts h k l = k
route-Held false true true u commanded changed restarts h k l = h
route-Held false true false u commanded changed restarts h k l = l
route-Held false false retain u commanded changed restarts h k l = h

module _ (base : Text) (parse : Parse) (cj : Cjson) (cfg : Config) where
  -- A message that the broker had retained changes nothing, whatever its topic and its payload are.
  pub stored_payload_is_ignored :
      (env : Env) (nvs : Nvs) (topic payload : Text) (u : Device)
      → mqtt_event_handler base parse cj cfg env nvs (MqttEvent.arrived topic true payload) u
        ≡ (u, false)
  unfolding mqtt_event_handler take_payload
  stored_payload_is_ignored env nvs topic payload u = either_same _ _ (u, false)

  connect-Held : (env : Env) (w : World) → Held w → Held (connect_session cj cfg env w)
  unfolding connect_session
  connect-Held env w h = reconcile-Held env _ (
      Quiet-Held (Aside-announce cj cfg env (record w { connected = true })).quiet
        record { consistent = h.consistent })

  event-Held :
      (env : Env) (nvs : Nvs) (e : MqttEvent) (u : Device)
      → Held u.world
      → Held (mqtt_event_handler base parse cj cfg env nvs e u).0.world
  unfolding mqtt_event_handler take_payload
  event-Held env nvs MqttEvent.connected u h = connect-Held env u.world h
  event-Held env nvs MqttEvent.disconnected u h = record { consistent = h.consistent }
  event-Held env nvs MqttEvent.other u h = h
  event-Held env nvs (MqttEvent.arrived topic retain payload) u h =
      route-Held _ _ retain u (record u { world = _ }) (record { world = _; stored = _ }) _ h
        (handle_command-Held cfg env parse payload u.world h)
        (Quiet-Held (handle_mqtt-Quiet cj cfg env nvs payload u.world u.stored)
          record { consistent = h.consistent })

  -- Events, each with what it reads from outside, and how the partition fares.
  abbrev pub session_run : List (Env × Nvs × MqttEvent) → Device → Device
  session_run [] u = u
  session_run ((env, nvs, e) ∷ es) u =
      session_run es (mqtt_event_handler base parse cj cfg env nvs e u).0

  -- A consistent unit stays consistent through any events of the session: connections, losses,
  -- commands and requests with any payload, retained or not.
  pub session_run-Held :
      (es : List (Env × Nvs × MqttEvent)) (u : Device)
      → Held u.world
      → Held (session_run es u).world
  session_run-Held [] u h = h
  session_run-Held ((env, nvs, e) ∷ es) u h = session_run-Held es _ (event-Held env nvs e u h)

-- ===== src/Session/Handler.antt =====
-- `mqtt_event_handler` of main/mqtt_client.c: what a new connection publishes, and where a payload
-- goes. The base topic is that of the build; subscribing and the mark on the firmware slot are left
-- to the client and the boot loader.
use van_child_safety.Base.{Bool, true, false, Option, List, [], ◌∷◌, ◌++◌, if◌then◌else◌, take}
use van_child_safety.Base.Text.{Text, codes, same_text}
use van_child_safety.Types.{Beacon}
use van_child_safety.World.{World, Env, Config, Message, publish, mqtt_clear_distress}
use van_child_safety.Mqtt.Report.{mqtt_publish_bus_state}
use van_child_safety.Alarm.Tracker.{republish_distress}
use van_child_safety.Roster.Json.{Cjson}
use van_child_safety.Roster.Document.{Nvs}
use van_child_safety.Roster.Config.{
  beacon_name_to_safe, display_name, list_beacons, beacon_config_handle_mqtt,
}
use van_child_safety.Command.Handler.{Parse, handle_command}

-- The unit and what the key "json" of the NVS partition holds.
pub record Device : Type 0 where
  pub world : World
  pub stored : Option Text

-- The entities that every unit announces, by what follows the device's id in their own.
abbrev pub base_entities : List Text
base_entities =
    codes "_temperature"
    ∷ codes "_humidity"
    ∷ codes "_co2"
    ∷ codes "_moving_distance"
    ∷ codes "_still_distance"
    ∷ codes "_moving_energy"
    ∷ codes "_still_energy"
    ∷ codes "_detection_distance"
    ∷ codes "_ld2412_light"
    ∷ codes "_latitude"
    ∷ codes "_longitude"
    ∷ codes "_course"
    ∷ codes "_altitude"
    ∷ codes "_speed"
    ∷ codes "_satellites"
    ∷ codes "_co2_delta_3min"
    ∷ codes "_co2_delta_since_armed"
    ∷ codes "_co2_baseline"
    ∷ codes "_wifi_rssi"
    ∷ codes "_ld2412_target"
    ∷ codes "_ld2412_moving"
    ∷ codes "_ld2412_still"
    ∷ codes "_gps_valid"
    ∷ codes "_ignition_on"
    ∷ codes "_bus_armed"
    ∷ codes "_ignition_source"
    ∷ codes "_ignition_source_status"
    ∷ codes "_ignition_remote_heartbeat_age_s"
    ∷ codes "_ignition_remote_battery_mv"
    ∷ codes "_bus_state"
    ∷ codes "_distress"
    ∷ codes "_beacon_config_result"
    ∷ codes "_restart"
    ∷ codes "_distress_ack"
    ∷ codes "_distress_clear"
    ∷ codes "_distress_test"
    ∷ codes "_bus_empty"
    ∷ codes "_location"
    ∷ []

unfoldable pub publish_entities : List Text → World → World
unfolding publish
publish_entities [] w = w
publish_entities (e ∷ es) w = publish_entities es (publish (Message.discovery e) w)

-- The loop at the end of `publish_all_discovery`.
unfoldable pub publish_beacon_entities : List Beacon → World → World
unfolding publish beacon_name_to_safe
publish_beacon_entities [] w = w
publish_beacon_entities (b ∷ bs) w = publish_beacon_entities bs (
    if b.active
    then publish (Message.beacon_discovery (beacon_name_to_safe b.name) (display_name b)) w
    else w)

unfoldable pub publish_all_discovery : World → World
unfolding publish_entities publish_beacon_entities
publish_all_discovery w =
    let w' = publish_entities base_entities w in publish_beacon_entities w'.beacons w'

-- `mqtt_publish_beacon_states`.
unfoldable pub publish_states_of : List Beacon → World → World
unfolding publish
publish_states_of [] w = w
publish_states_of (b ∷ bs) w =
    publish_states_of bs
      (if b.active then publish (Message.beacon_state b.name b.state b.rssi) w else w)

pub data MqttEvent : Type 0 where
  connected disconnected other : MqttEvent
  -- A topic, whether the broker had retained the message, and its payload.
  arrived : Text → Bool → Text → MqttEvent

-- The distress topic after a new connection.
unfoldable pub reconcile_distress : Env → World → World
unfolding republish_distress mqtt_clear_distress
reconcile_distress env w =
    if w.bus.distress_active then republish_distress env w else mqtt_clear_distress w

module _ (cj : Cjson) (cfg : Config) where
  -- What a new connection publishes before it comes to the distress.
  unfoldable pub announce_unit : Env → World → World
  unfolding publish publish_all_discovery mqtt_publish_bus_state publish_states_of list_beacons
  announce_unit env w =
      let w1 = mqtt_publish_bus_state cfg env (publish_all_discovery (publish Message.online w)) in
      list_beacons cj cfg env (publish_states_of w1.beacons w1)

  -- MQTT_EVENT_CONNECTED.
  unfoldable pub connect_session : Env → World → World
  unfolding announce_unit reconcile_distress
  connect_session env w = reconcile_distress env (announce_unit env (record w { connected = true }))

module _ (base : Text) (parse : Parse) (cj : Cjson) (cfg : Config) where
  -- MQTT_EVENT_DATA; whether it restarts the unit.
  unfoldable pub take_payload : Env → Nvs → Text → Bool → Text → Device → Device × Bool
  unfolding handle_command beacon_config_handle_mqtt same_text
  take_payload env nvs topic retain payload u =
      let name = take 255 topic in
      let commanded = handle_command cfg parse env payload u.world in
      let changed = beacon_config_handle_mqtt cj cfg env nvs payload u.world u.stored in
      if same_text name (base ++ codes "/command")
      then (if retain then (u, false) else (record u { world = commanded.0 }, commanded.1))
      else if same_text name (base ++ codes "/beacon/config/set")
      then (if retain
          then (u, false)
          else (record { world = changed.0; stored = changed.1 }, false))
      else (u, false)

  -- `mqtt_event_handler`.
  unfoldable pub mqtt_event_handler : Env → Nvs → MqttEvent → Device → Device × Bool
  unfolding connect_session take_payload
  mqtt_event_handler env nvs MqttEvent.connected u =
      (record u { world = connect_session cj cfg env u.world }, false)
  mqtt_event_handler env nvs MqttEvent.disconnected u =
      (record u { world = record u.world { connected = false } }, false)
  mqtt_event_handler env nvs MqttEvent.other u = (u, false)
  mqtt_event_handler env nvs (MqttEvent.arrived topic retain payload) u =
      take_payload env nvs topic retain payload u

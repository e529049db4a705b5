-- ===== src/Mqtt/Report.antt =====
-- `mqtt_publish_bus_state` and `mqtt_publish_distress` of main/mqtt_client.c.
use van_child_safety.Base.{ℕ, ◌+◌, Bool, true, Option, none, some, ltb, if◌then◌else◌}
use van_child_safety.Base.Text.{Text, codes, is_empty}
use van_child_safety.Types.{SensorStatus, DistressType, DistressEvent, IgnitionStatus, Beacon}
use van_child_safety.World.{
  World, Env, TakeSite, Config, BusReport, DistressReport, Person, Message, publish,
}
use van_child_safety.Bus.Locked.{is_armed, exit_grace_remaining}
use van_child_safety.Roster.Near.{find_by_id}

-- `age < 0 || age > 90 s`, where an age of -1 stands for no reading yet.
unfoldable pub is_stale : ℕ → ℕ → Bool
is_stale now last = if ltb 0 last then ltb (last + 90000000) now else true

abbrev fresh_or_stale : ℕ → ℕ → SensorStatus
fresh_or_stale now last = if is_stale now last then SensorStatus.stale else SensorStatus.ok

-- The three `*_status_str`.
unfoldable pub co2_status_str : SensorStatus → ℕ → ℕ → SensorStatus
unfolding is_stale
co2_status_str SensorStatus.ok now last = fresh_or_stale now last
co2_status_str SensorStatus.error now last = SensorStatus.error
co2_status_str _ now last = SensorStatus.stale

unfoldable pub ld2412_status_str : SensorStatus → ℕ → ℕ → SensorStatus
unfolding is_stale
ld2412_status_str SensorStatus.no_uart now last = SensorStatus.no_uart
ld2412_status_str SensorStatus.error now last = SensorStatus.error
ld2412_status_str _ now last = fresh_or_stale now last

unfoldable pub ble_status_str : SensorStatus → ℕ → ℕ → SensorStatus
unfolding is_stale
ble_status_str SensorStatus.stale now last = SensorStatus.stale
ble_status_str SensorStatus.error now last = SensorStatus.error
ble_status_str _ now last = fresh_or_stale now last

-- The report of `mqtt_publish_bus_state`. A wait for the mutex that fails leaves "ok".
unfoldable pub bus_report : Config → Env → World → BusReport
unfolding is_armed exit_grace_remaining co2_status_str ld2412_status_str ble_status_str
bus_report cfg env w = record {
  state = bus.state;
  ignition_on = bus.ignition_on;
  armed = is_armed bus.state;
  exit_grace_remaining_s = exit_grace_remaining cfg.exit_grace_seconds env.now bus;
  distress_active = bus.distress_active;
  distress_acknowledged = bus.distress_acknowledged;
  co2_status = sampled (co2_status_str telemetry.co2_status env.now telemetry.co2_last_update_us);
  ld2412_status =
      sampled (ld2412_status_str telemetry.ld2412_status env.now telemetry.ld2412_last_frame_us);
  ble_status = sampled (ble_status_str telemetry.ble_status env.now telemetry.ble_last_scan_us);
  ignition_source_status =
      if bus.override_active then IgnitionStatus.overridden else env.source_status;
}
  where
    open w use {bus, telemetry}

    sampled : SensorStatus → SensorStatus
    sampled s = if env.taken TakeSite.report then s else SensorStatus.ok

unfoldable pub mqtt_publish_bus_state : Config → Env → World → World
unfolding bus_report publish
mqtt_publish_bus_state cfg env w = publish (Message.bus_state (bus_report cfg env w)) w

-- `bus_state_distress_id`, and the sentinel where no id is set.
unfoldable pub stable_id : Text → Text
stable_id id = if is_empty id then codes "distress-uninitialized" else id

abbrev person_of : Beacon → Person
person_of b = record {
  id = b.name;
  person_name = b.person_name;
  discord_channel_id = b.discord_channel_id;
  home_zone_entity = b.home_zone_entity;
}

abbrev map_option {ℓ κ} : {A : Type ℓ} {B : Type κ} → (A → B) → Option A → Option B
map_option f none = none
map_option f (some a) = some (f a)

-- The `switch` on the trigger: "detail", the beacon that is named, and "co2_delta".
unfoldable pub detail_of : DistressEvent → DistressType → Text
detail_of e DistressType.beacon_near = e.beacon_name
detail_of e DistressType.co2_rise = codes "co2_rise"
detail_of e DistressType.presence_detected = codes "presence_detected"

unfoldable pub beacon_of : World → DistressEvent → DistressType → Option Beacon
unfolding find_by_id
beacon_of w e DistressType.beacon_near = find_by_id e.beacon_name w.beacons
beacon_of w e _ = none

unfoldable pub co2_delta_of : DistressEvent → DistressType → Option ℕ
co2_delta_of e DistressType.co2_rise = some e.co2_delta
co2_delta_of e _ = none

-- The report of `mqtt_publish_distress`.
unfoldable pub distress_report : Env → DistressEvent → World → DistressReport
unfolding stable_id detail_of beacon_of co2_delta_of
distress_report env e w = record {
  id = stable_id w.bus.distress_id;
  bus_state = w.bus.state;
  trigger = e.kind;
  detail = detail_of e e.kind;
  person = map_option person_of (beacon_of w e e.kind);
  co2_delta = co2_delta_of e e.kind;
  evidence = if env.taken TakeSite.evidence then some w.telemetry else none;
  beacon_state =
      if env.taken TakeSite.evidence
      then map_option (λ (b : Beacon). b.state) (beacon_of w e e.kind)
      else none;
}

unfoldable pub mqtt_publish_distress : Env → DistressEvent → World → World
unfolding distress_report publish
mqtt_publish_distress env e w = publish (Message.distress (distress_report env e w)) w

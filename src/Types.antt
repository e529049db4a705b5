-- ===== src/Types.antt =====
-- The enumerations and records of main/common.h, main/bus_state.h, main/ignition.h and
-- main/beacon_config.h. Temperature, humidity and last_update are left out; the GPS fields
-- stand in Gps.Sentences, wifi_rssi in Wifi.Station.
-- `uint8_t`, `uint16_t` and `uint32_t` fields are ℕ, `int` and `int16_t` fields ℤ. A time stamp
-- (`int64_t` microseconds since boot) is ℕ, but for the one that the code can make negative.
use van_child_safety.Base.{ℕ, Bool, List, ◌==◌}
use van_child_safety.Base.Int.{ℤ}
use van_child_safety.Base.Text.{Text, codes}

pub data SensorStatus : Type 0 where
  ok stale error no_uart : SensorStatus

pub data DistressType : Type 0 where
  beacon_near co2_rise presence_detected : DistressType

pub record DistressEvent : Type 0 where
  pub kind : DistressType
  pub beacon_name : Text
  pub co2_delta : ℕ
  pub timestamp : ℕ

pub record Telemetry : Type 0 where
  pub co2 : ℕ
  pub co2_baseline : ℕ
  pub co2_delta_since_armed : ℤ
  pub co2_delta_3min : ℤ
  pub co2_last_update_us : ℕ
  pub co2_consecutive_rise_count : ℕ
  pub ld2412_target : Bool
  pub ld2412_moving : Bool
  pub ld2412_still : Bool
  pub moving_distance : ℕ
  pub still_distance : ℕ
  pub moving_energy : ℕ
  pub still_energy : ℕ
  pub detection_distance : ℕ
  pub ld2412_light : ℕ
  pub ld2412_last_frame_us : ℕ
  pub ld2412_target_since_us : ℕ
  pub ignition_on : Bool
  pub bus_armed : Bool
  pub bus_state : Text
  pub co2_status : SensorStatus
  pub ld2412_status : SensorStatus
  pub ble_status : SensorStatus
  pub ble_last_scan_us : ℕ
  pub ble_scan_drop_count : ℕ

pub data BusState : Type 0 where
  boot active exit_grace armed distress_pending distress_active acked disarmed fault : BusState

-- The value of the C enumerator.
abbrev pub index : BusState → ℕ
index BusState.boot = 0
index BusState.active = 1
index BusState.exit_grace = 2
index BusState.armed = 3
index BusState.distress_pending = 4
index BusState.distress_active = 5
index BusState.acked = 6
index BusState.disarmed = 7
index BusState.fault = 8

-- `s == t` of two enumerators.
abbrev pub same_state : BusState → BusState → Bool
same_state s t = index s == index t

pub data DisarmResult : Type 0 where
  ok already reject_pending reject_unacknowledged reject_state : DisarmResult

pub data IgnitionStatus : Type 0 where
  ok stale error boot overridden : IgnitionStatus

pub data BeaconType : Type 0 where
  mac ibeacon : BeaconType

pub data BeaconState : Type 0 where
  absent far near : BeaconState

pub record Beacon : Type 0 where
  pub name : Text
  pub person_name : Text
  pub discord_channel_id : Text
  pub home_zone_entity : Text
  pub notes : Text
  pub kind : BeaconType
  pub mac : List ℕ
  pub uuid : List ℕ
  pub major : ℕ
  pub minor : ℕ
  pub rssi_threshold : ℤ
  pub state : BeaconState
  pub rssi : ℤ
  pub last_seen : ℕ
  pub near_since : ℕ
  pub active : Bool

unfoldable pub bus_state_name : BusState → Text
bus_state_name BusState.boot = codes "boot"
bus_state_name BusState.active = codes "active"
bus_state_name BusState.exit_grace = codes "exit_grace"
bus_state_name BusState.armed = codes "armed"
bus_state_name BusState.distress_pending = codes "distress_pending"
bus_state_name BusState.distress_active = codes "distress_active"
bus_state_name BusState.acked = codes "acked"
bus_state_name BusState.disarmed = codes "disarmed"
bus_state_name BusState.fault = codes "fault"

unfoldable pub bus_state_disarm_result_name : DisarmResult → Text
bus_state_disarm_result_name DisarmResult.ok = codes "disarmed"
bus_state_disarm_result_name DisarmResult.already = codes "already_disarmed"
bus_state_disarm_result_name DisarmResult.reject_pending = codes "distress_pending_ack_required"
bus_state_disarm_result_name DisarmResult.reject_unacknowledged = codes "distress_ack_required"
bus_state_disarm_result_name DisarmResult.reject_state = codes "state_not_disarmable"

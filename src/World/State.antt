-- ===== src/World/State.antt =====
-- Records for the shared state, for what one operation reads from outside, and for messages.
use van_child_safety.Base.{ℕ, Bool, Option, List, ◌++◌}
use van_child_safety.Base.Int.{ℤ}
use van_child_safety.Base.Text.{Text, codes, decimal}
use van_child_safety.Types.{
  SensorStatus, DistressType, DistressEvent, Telemetry, BusState, IgnitionStatus, Beacon,
  BeaconState,
}

-- The file-scope variables of main/bus_state.c, the local `fault_check_at` of its task, and
-- `g_bus_empty`, which only that file writes.
pub record Bus : Type 0 where
  pub state : BusState
  pub ignition_on : Bool
  pub override_active : Bool
  pub override_value : Bool
  pub last_raw : Bool
  pub prev_effective : Bool
  pub distress_active : Bool
  pub distress_acknowledged : Bool
  pub exit_grace_started : ℤ
  pub armed_generation : ℕ
  pub co2_baseline : ℕ
  pub distress_id : Text
  pub fault_started_at : ℕ
  pub fault_reported : Bool
  pub fault_check_at : ℕ
  pub bus_empty : Bool

pub data NotifState : Type 0 where
  idle triggered active : NotifState

-- `notif_tracker_t` of main/notifications.c.
pub record Tracker : Type 0 where
  pub state : NotifState
  pub trigger_time : ℕ
  pub last_send : ℕ
  pub event : DistressEvent

pub data FaultSensor : Type 0 where
  ld2412 scd4x : FaultSensor

pub data FaultDetail : Type 0 where
  no_uart error : FaultDetail

-- The "event" field of what goes to bus/event.
pub data BusEvent : Type 0 where
  ignition_on ignition_off armed disarmed distress_ack distress_clear bus_clear : BusEvent
  sensor_fault : FaultSensor → FaultDetail → ℕ → BusEvent
  beacon_silent_while_armed : Text → BusEvent

-- What bus/state says of the state machine (the sensor and remote diagnostics are left out).
pub record BusReport : Type 0 where
  pub state : BusState
  pub ignition_on : Bool
  pub armed : Bool
  pub exit_grace_remaining_s : ℕ
  pub distress_active : Bool
  pub distress_acknowledged : Bool
  pub co2_status : SensorStatus
  pub ld2412_status : SensorStatus
  pub ble_status : SensorStatus
  pub ignition_source_status : IgnitionStatus

pub record Person : Type 0 where
  pub id : Text
  pub person_name : Text
  pub discord_channel_id : Text
  pub home_zone_entity : Text

-- What bus/distress/state says.
pub record DistressReport : Type 0 where
  pub id : Text
  pub bus_state : BusState
  pub trigger : DistressType
  pub detail : Text
  pub person : Option Person
  pub co2_delta : Option ℕ
  pub evidence : Option Telemetry
  pub beacon_state : Option BeaconState

-- What command/result says of a command.
pub record CommandResult : Type 0 where
  pub request_id : Text
  pub action : Text
  pub ok : Bool
  pub reason : Text
  pub source : Text
  pub state : BusState
  pub ignition_on : Bool

-- The "error" field of beacon/config/result.
pub data ConfigError : Type 0 where
  max_records invalid_id duplicate_id not_found : ConfigError
  invalid_person_name invalid_discord_channel_id invalid_home_zone_entity : ConfigError
  invalid_notes invalid_rssi invalid_mac invalid_uuid invalid_major_minor : ConfigError
  duplicate_ibeacon invalid_type nvs_save_failed bus_armed beacon_near : ConfigError
  invalid_json missing_action unknown_action : ConfigError

-- What beacon/config/result says of a change of the roster, but for the text for the operator.
pub record ConfigResult : Type 0 where
  pub request_id : Option Text
  pub action : Option Text
  pub ok : Bool
  pub id : Text
  pub error : Option ConfigError
  pub used_alias : Bool

-- The retained topics of one beacon, by its id.
pub data BeaconTopic : Type 0 where
  state state_discovery rssi_discovery : Text → BeaconTopic

pub data Message : Type 0 where
  online : Message
  discovery : Text → Message
  config_result : ConfigResult → Message
  roster : Text → Message
  beacon_discovery : Text → Text → Message
  clear_retained : BeaconTopic → Message
  bus_state : BusReport → Message
  distress : DistressReport → Message
  clear_distress : Message
  event : BusEvent → BusState → Message
  beacon_state : Text → BeaconState → ℤ → Message
  command_result : CommandResult → Message

pub record World : Type 0 where
  pub bus : Bus
  pub telemetry : Telemetry
  pub tracker : Tracker
  pub beacons : List Beacon
  pub distress_queue : List DistressEvent
  pub connected : Bool
  pub published : List Message

-- The calendar time that `gmtime_r` gives.
pub record Tm : Type 0 where
  pub year : ℕ
  pub month : ℕ
  pub day : ℕ
  pub hour : ℕ
  pub minute : ℕ
  pub second : ℕ

-- The places that take the telemetry mutex with a timeout.
pub data TakeSite : Type 0 where
  transition settle baseline bus_clear faults report evidence : TakeSite
  radar_frame radar_drop radar_since radar_light radar_read radar_health : TakeSite
  co2_zero co2_delta co2_read co2_count co2_measured co2_failed ble_health : TakeSite

-- What one operation reads from outside: the clock (one reading serves the whole operation), the
-- calendar, the ignition source, and which waits for the telemetry mutex succeed.
pub record Env : Type 0 where
  pub now : ℕ
  pub utc : Tm
  pub raw : Bool
  pub source_status : IgnitionStatus
  pub taken : TakeSite → Bool

-- `strftime("distress-%Y%m%d-%H%M%S")`.
unfoldable pub distress_id_at : Tm → Text
distress_id_at t =
    codes "distress-"
    ++ (decimal 4 t.year
        ++ (decimal 2 t.month
            ++ (decimal 2 t.day
                ++ (codes "-"
                    ++ (decimal 2 t.hour ++ (decimal 2 t.minute ++ decimal 2 t.second))))))

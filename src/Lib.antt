-- ===== src/Lib.antt =====
-- Van child safety: the main unit of main/, which warns when a child is left in a school van.
--
-- The ignition source (main/ignition_gpio.c or main/ignition_espnow.c) drives the state machine of
-- main/bus_state.c: driving (active), exit grace, armed, and from there the states of a distress.
-- The sensor tasks write telemetry and put distress events on a queue; the notification task
-- (main/notifications.c) takes them, waits the initial delay, and publishes the alarm and its
-- repeats through main/mqtt_client.c. Commands acknowledge, clear, disarm, and override the
-- ignition.
--
-- Types       the enumerations and records of main/common.h, main/bus_state.h, main/ignition.h
--             and main/beacon_config.h
-- World       the shared state (the file-scope variables, telemetry, tracker, roster, distress
--             queue), what one operation reads from outside (Env), the constants of
--             main/Kconfig.projbuild (Config), and publishing
-- Roster      main/beacon_config.c: Near has the lookups and the events at arming, Fields ids,
--             addresses and UUIDs, Json what is used of cJSON, Document the JSON document and its
--             saving, Entry, Add and Change the changes, Config the requests over MQTT, Load the
--             loading at power-on. Valid says what a well-formed roster is; Distinct, Found,
--             Identities, Adding, Editing, Keeps and Requests show that requests keep it, Loading
--             that loading gives it, Hex, Readback and Reload that what was saved is loaded again;
--             Saving, Undo and Reports are on saving and rollback, Faults, Rejected and Boot on
--             where the code stops short
-- Mqtt        mqtt_publish_bus_state and mqtt_publish_distress of main/mqtt_client.c
-- Bus         main/bus_state.c: Locked has the critical sections and getters, Transitions has
--             enter_state and enter_armed, Commands has the calls of other tasks, Poll has
--             bus_state_task
-- Alarm       main/notifications.c, and bus_state_ack_distress
-- Ignition    the sources main/ignition_espnow.c and main/ignition_gpio.c, and the heartbeat of
--             ignition_remote/main/main.c (Wire) with its loop (Remote); Heartbeats and Debounce
--             have the theorems on the sources
-- Radar       main/sensor_ld2412.c: Parser is process_byte, Presence the trigger, Task the frames
--             and the task; Bounds, Payload and Frames prove the parser, Dwell, Gaps, History, Stays
--             and Fires the trigger
-- Co2         main/co2_tracker.c: Tracker is one reading; Window, Rise and Lost prove it
-- Ble         main/ble_scanner.c: Advert finds the entry of a device, Scanner has process_device and
--             check_absent, Hysteresis proves near and far
-- Gps         main/sensor_gps.c: Text has the C library's functions on strings, Checksum and
--             Sentences the parsing, Receiver the bytes and the task; Framing, Checked, Tokens,
--             Empty and Fixes prove it
-- Wifi        main/wifi.c: Networks has the choice of a network, Station the event handler and the
--             task; Rotation, Strongest, Targets and Lengths prove it
-- Command     handle_command of main/mqtt_client.c (Handler); Guard, Bare, Keeps and Trim prove it
-- Sensors     crc8_sensirion of main/util.h (Crc) and the reading of main/sensor_scd4x.c (Scd4x)
-- Session     mqtt_event_handler of main/mqtt_client.c (Handler), with what a new connection
--             publishes; Reconcile proves the distress topic, Payloads the routing and the invariant
-- System      every operation as one step on the world, the invariant Consistent and its
--             preservation, and what holds of steps and of histories
--
-- An operation is a function from World to World. A published message is recorded, newest first;
-- its JSON text is left to cJSON, and so is the parsing of a command (a parameter,
-- Command.Handler.Parse). The roster's document is built and read through cJSON as a parameter
-- (Roster.Json.Cjson), with its documented laws (Roster.Readback.CjsonLaws) where a theorem needs
-- them, and saved to an NVS partition that is a parameter too (Roster.Document.Nvs,
-- Roster.Load.Partition). So are the arithmetic of floats and atof (Gps.Sentences.Floats), and
-- what a WiFi scan (Wifi.Station.Scan), the I2C bus (Sensors.Scd4x.I2cAnswer) and the radio of
-- the remote (Ignition.Remote.Radio) answer. A wait for the telemetry mutex may fail: Env says
-- which waits succeed. Operations are atomic here: an interleaving is a sequence of them
-- (System.History.Op). Time stamps are microseconds since boot, as natural numbers; within one
-- operation the clock is read once. The loops of the tasks are modelled round by round. The loop
-- over an advertisement runs on fuel, one round for each byte and one more (Ble.Advert), and has no
-- result if that runs out, which is shown never to happen.
--
-- Not modelled: JSON text, the payloads that announce entities (an entity is its id), OTA,
-- WireGuard, NTP, the SHT4x sensor, and the Python and YAML parts of the repository.
mod Base
pub mod Types
pub mod World
pub mod Roster
pub mod Mqtt
pub mod Bus
pub mod Alarm
pub mod Ignition
pub mod Radar
pub mod Co2
pub mod Command
pub mod Ble
pub mod Gps
pub mod Wifi
pub mod Session
pub mod Sensors
pub mod System
mod Samples

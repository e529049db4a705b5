-- ===== src/World/Constants.antt =====
-- The build-time constants of main/Kconfig.projbuild, with the ranges that Kconfig enforces.
use van_child_safety.Base.{ℕ, ◌≤◌, Bool, true, arith}
use van_child_safety.Base.Int.{ℤ, pos, negsuc, ◌≤ℤ◌}

pub record Config : Type 0 where
  pub exit_grace_seconds : ℕ
  pub distress_initial_delay_s : ℕ
  pub distress_repeat_interval_s : ℕ
  pub presence_sustain_s : ℕ
  pub presence_sustain_armed_existing_s : ℕ
  pub presence_target_drop_debounce_ms : ℕ
  pub presence_still_distance_max_cm : ℕ
  pub presence_still_energy_min : ℕ
  pub ignition_active_level : Bool
  pub ignition_debounce_ms : ℕ
  pub espnow_heartbeat_timeout_ms : ℕ
  pub espnow_boot_grace_s : ℕ
  pub ble_beacon_near_sustain_s : ℕ
  pub ble_beacon_absent_timeout_s : ℕ
  pub ble_beacon_far_hysteresis_db : ℕ
  pub ble_beacon_min_near_rssi : ℤ
  pub co2_rise_threshold_ppm : ℕ
  pub co2_window_readings : ℕ
  pub co2_require_delta_3min_rising : Bool

-- The `range` lines.
pub record InRange (c : Config) : Type 0 where
  pub exit_grace : c.exit_grace_seconds ≤ 3600
  pub initial_delay : c.distress_initial_delay_s ≤ 3600
  pub repeat_low : 10 ≤ c.distress_repeat_interval_s
  pub repeat_high : c.distress_repeat_interval_s ≤ 86400
  pub sustain_low : 1 ≤ c.presence_sustain_s
  pub sustain_high : c.presence_sustain_s ≤ 300
  pub existing_low : 1 ≤ c.presence_sustain_armed_existing_s
  pub existing_high : c.presence_sustain_armed_existing_s ≤ 600
  pub timeout_low : 1000 ≤ c.espnow_heartbeat_timeout_ms
  pub timeout_high : c.espnow_heartbeat_timeout_ms ≤ 300000
  pub min_near : c.ble_beacon_min_near_rssi ≤ℤ pos 0
  pub rise_low : 1 ≤ c.co2_rise_threshold_ppm
  pub window_low : 2 ≤ c.co2_window_readings
  pub window_high : c.co2_window_readings ≤ 120

-- The defaults.
abbrev pub default_config : Config
default_config = record {
  exit_grace_seconds = 120;
  distress_initial_delay_s = 120;
  distress_repeat_interval_s = 60;
  presence_sustain_s = 5;
  presence_sustain_armed_existing_s = 12;
  presence_target_drop_debounce_ms = 1000;
  presence_still_distance_max_cm = 200;
  presence_still_energy_min = 0;
  ignition_active_level = true;
  ignition_debounce_ms = 500;
  espnow_heartbeat_timeout_ms = 10000;
  espnow_boot_grace_s = 30;
  ble_beacon_near_sustain_s = 2;
  ble_beacon_absent_timeout_s = 10;
  ble_beacon_far_hysteresis_db = 10;
  ble_beacon_min_near_rssi = negsuc 69;
  co2_rise_threshold_ppm = 100;
  co2_window_readings = 7;
  co2_require_delta_3min_rising = true;
}

pub default_config-InRange : InRange default_config
default_config-InRange = omega arith

-- ===== src/Wifi/Station.antt =====
-- The station of main/wifi.c: its events, its task, and the attempts to connect.
use van_child_safety.Base.{
  ℕ, zero, suc, Bool, true, false, Option, none, some, List, [], ◌∷◌, ltb, if◌then◌else◌, length,
  take, get_or,
}
use van_child_safety.Base.Int.{ℤ}
use van_child_safety.Base.Text.{Text, copy_string}
use van_child_safety.Wifi.Networks.{
  Networks, ApRecord, network_is_configured, next_configured_network, best_of, no_best,
}

-- What `esp_wifi_set_config` gets before `esp_wifi_connect`.
pub record Attempt : Type 0 where
  pub ssid : Text
  pub password : Text

-- The file's variables, its bits in the event group, the telemetry field that it writes, and the
-- attempts so far, the last one first.
pub record Station : Type 0 where
  pub current_network : ℕ
  pub initial_scan_done : Bool
  pub started : Bool
  pub connected : Bool
  pub wifi_rssi : ℤ
  pub attempts : List Attempt

-- What the driver answers to one scan: `esp_wifi_scan_start` fails, or it counts the networks and
-- hands out their records, unless there is no memory for them or it refuses.
pub data Scan : Type 0 where
  refused : Scan
  counted : ℕ → Option (List ApRecord) → Scan

-- The configuration for one network.
abbrev pub attempt : Networks → ℕ → Attempt
attempt nets i = record {
  ssid = copy_string nets.ssid_size (get_or nets.ssids i []);
  password = copy_string nets.password_size (get_or nets.passwords i []);
}

module _ (nets : Networks) where
  unfoldable pub connect : ℕ → Station → Station
  connect i s = record s { attempts = attempt nets i ∷ s.attempts }

  abbrev pub connect_other : Option ℕ → Station → Station
  unfolding connect
  connect_other none s = s
  connect_other (some next) s = connect next (record s { current_network = next })

  unfoldable pub try_connect_network : ℕ → Station → Station
  unfolding connect_other network_is_configured next_configured_network
  try_connect_network i s =
      if network_is_configured nets i
      then connect i s
      else connect_other (next_configured_network nets (suc i)) s

  -- WIFI_EVENT_STA_START.
  unfoldable pub sta_start : Station → Station
  unfolding try_connect_network
  sta_start s =
      let s' = record s { started = true } in
      if s.initial_scan_done then try_connect_network s.current_network s' else s'

  abbrev pub move_to : Option ℕ → Station → Station
  move_to none s = s
  move_to (some next) s = record s { current_network = next }

  -- WIFI_EVENT_STA_DISCONNECTED.
  unfoldable pub sta_disconnected : Station → Station
  unfolding try_connect_network
  sta_disconnected s =
      let s' =
        move_to (next_configured_network nets (suc s.current_network))
          (record s { connected = false }) in
      try_connect_network s'.current_network s'

  -- IP_EVENT_STA_GOT_IP.
  unfoldable pub got_ip : Station → Station
  got_ip s = record s { connected = true }

  -- What one scan finds, and how many networks it counts in the end.
  unfoldable pub take_scan : Scan → Station → Station × ℕ
  unfolding best_of
  take_scan Scan.refused s = (s, 0)
  take_scan (Scan.counted n none) s = (s, if ltb 32 n then 32 else n)
  take_scan (Scan.counted n (some records)) s =
      let records' = take (if ltb 32 n then 32 else n) records in
      (move_to (best_of nets records' no_best).network s, length records')

  -- The attempts to scan that are left.
  unfoldable pub scan_networks : ℕ → (ℕ → Scan) → Station → Station
  unfolding take_scan
  scan_networks zero scans s = s
  scan_networks (suc k) scans s =
      let (s', n) = take_scan (scans 0) s in
      let rest = scan_networks k (λ i. scans (suc i)) s' in if ltb 0 n then s' else rest

  unfoldable pub start_on : Option ℕ → (ℕ → Scan) → Station → Option Station
  unfolding scan_networks try_connect_network
  start_on none scans s = none
  start_on (some first) scans s =
      let s' = record (scan_networks 3 scans (sta_start (record s { current_network = first }))) {
        initial_scan_done = true;
      } in
      some (try_connect_network s'.current_network s')

  -- `wifi_task` as far as its loop, the driver's start event in it; without a configured network
  -- the task ends.
  unfoldable pub wifi_start : (ℕ → Scan) → Station → Option Station
  unfolding start_on
  wifi_start scans s = start_on (next_configured_network nets 0) scans s

  -- A round of the loop: the signal if there is a connection, and whether the mutex was free.
  unfoldable pub check_connection : Option ℤ → Bool → Station → Station
  unfolding try_connect_network
  check_connection none taken s = try_connect_network s.current_network s
  check_connection (some rssi) taken s = if taken then record s { wifi_rssi = rssi } else s

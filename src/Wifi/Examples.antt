-- ===== src/Wifi/Examples.antt =====
-- The theorems on the WiFi station, applied.
use van_child_safety.Base.{
  ℕ, ◌≤◌, ◌≡◌, ◌≢◌, replicate, refl, false, ◌⊎◌, none, some, List, [], ◌∷◌, arith, get_or,
}
use van_child_safety.Base.Int.{pos, negsuc}
use van_child_safety.Base.Text.{codes}
use van_child_safety.Roster.Distinct.{All}
use van_child_safety.Wifi.Networks.{
  network_index_for_ssid, Networks, ApRecord, Best, best_of, no_best, network_is_configured,
  next_configured_network, next_from,
}
use van_child_safety.Wifi.Station.{Attempt, Station, Scan, attempt, wifi_start, start_on}
use van_child_safety.Wifi.Rotation.{disconnects}
use van_child_safety.Wifi.Strongest.{Any, NoStronger, Heard, scan_selects_strongest}
use van_child_safety.Wifi.Targets.{
  WifiEvent, IsStation, wifi_run, attempts_are_configured, network_is_tried_in_time,
}
use van_child_safety.Wifi.Lengths.{full_name_is_never_joined}

-- The second of four is not configured.
abbrev nets : Networks
nets = record {
  ssids = codes "home" ∷ [] ∷ codes "phone" ∷ codes "depot" ∷ [];
  passwords = codes "a" ∷ [] ∷ codes "b" ∷ codes "c" ∷ [];
  ssid_size = 32;
  password_size = 64;
}

abbrev off : Station
off = record {
  current_network = 0;
  initial_scan_done = false;
  started = false;
  connected = false;
  wifi_rssi = pos 0;
  attempts = [];
}

abbrev seen : List ApRecord
seen =
    record { ssid = codes "cafe"; rssi = negsuc 29 }
    ∷ record { ssid = codes "depot"; rssi = negsuc 69 }
    ∷ record { ssid = codes "phone"; rssi = negsuc 49 }
    ∷ []

abbrev scans : ℕ → Scan
scans i = Scan.counted 3 (some seen)

abbrev selected : Best
selected = best_of nets seen no_best

scan_selects_strongest_example :
    All (NoStronger nets selected.rssi) seen
    × (((selected.network ≡ none) × (selected.rssi ≡ negsuc 127)) ⊎ Any (Heard nets selected) seen)
scan_selects_strongest_example = scan_selects_strongest nets seen

starts : (s : Station) × (wifi_start nets scans off ≡ some s)
unfolding wifi_start start_on next_configured_network next_from network_is_configured
starts = (_, refl)

attempts_are_configured_example :
    IsStation nets (wifi_run nets (WifiEvent.started ∷ WifiEvent.disconnected ∷ []) starts.0)
attempts_are_configured_example =
    attempts_are_configured nets scans off starts.0
      (WifiEvent.started ∷ WifiEvent.disconnected ∷ []) tt starts.1

network_is_tried_in_time_example :
    (k : ℕ) × (rest : List Attempt) × (k ≤ 4)
    × ((disconnects nets k (wifi_run nets (WifiEvent.addressed ∷ []) starts.0)).attempts
        ≡ attempt nets 0 ∷ rest)
unfolding network_is_configured
network_is_tried_in_time_example =
    network_is_tried_in_time nets scans off starts.0 (WifiEvent.addressed ∷ []) 0 tt starts.1 refl

-- A name of 32 characters.
abbrev long_nets : Networks
long_nets = record nets { ssids = replicate 32 b'x' ∷ codes "home" ∷ [] }

long_starts : (s : Station) × (wifi_start long_nets scans off ≡ some s)
unfolding wifi_start start_on next_configured_network next_from network_is_configured
long_starts = (_, refl)

full_name_is_never_joined_example :
    ((j : ℕ) × (network_index_for_ssid long_nets (replicate 32 b'x') ≡ some j)
      × (get_or long_nets.ssids j [] ≡ replicate 32 b'x'))
    × All
        (λ (a : Attempt). a.ssid ≢ replicate 32 b'x')
        (wifi_run long_nets (WifiEvent.disconnected ∷ []) long_starts.0).attempts
unfolding network_is_configured
full_name_is_never_joined_example =
    full_name_is_never_joined long_nets scans off long_starts.0 (WifiEvent.disconnected ∷ []) 0 refl
      (omega arith) (omega arith) refl long_starts.1

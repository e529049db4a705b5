-- ===== src/Wifi/Networks.antt =====
-- The configured networks of main/wifi.c, and the best of a scan.
use van_child_safety.Base.{
  ℕ, zero, suc, ◌+◌, ◌%◌, Bool, not, ◌&&◌, Option, none, some, List, [], ◌∷◌, ltb, if◌then◌else◌,
  length, get_or,
}
use van_child_safety.Base.Int.{ℤ, negsuc, ltb_ℤ}
use van_child_safety.Base.Text.{Text, is_empty, same_text}

-- `ssids` and `passwords`, of one length, and the sizes of the driver's fields for them.
pub record Networks : Type 0 where
  pub ssids : List Text
  pub passwords : List Text
  pub ssid_size : ℕ
  pub password_size : ℕ

-- `wifi_ap_record_t`: its name, up to the terminator, and its signal.
pub record ApRecord : Type 0 where
  pub ssid : Text
  pub rssi : ℤ

-- `best_network` (`none` is -1) and `best_rssi`.
pub record Best : Type 0 where
  pub network : Option ℕ
  pub rssi : ℤ

abbrev pub no_best : Best
no_best = record { network = none; rssi = negsuc 127 }

abbrev pub better : Option ℕ → ℤ → Best → Best
better none rssi b = b
better (some n) rssi b = if ltb_ℤ b.rssi rssi then record { network = some n; rssi = rssi } else b

module _ (nets : Networks) where
  -- `WIFI_NETWORK_COUNT`.
  abbrev pub network_count : ℕ
  network_count = length nets.ssids

  unfoldable pub network_is_configured : ℕ → Bool
  network_is_configured i = ltb i (length nets.ssids) && not (is_empty (get_or nets.ssids i []))

  -- The loop of `next_configured_network`, with the number of its rounds that are left.
  unfoldable pub next_from : ℕ → ℕ → ℕ → Option ℕ
  unfolding network_is_configured
  next_from start offset zero = none
  next_from start offset (suc rounds) =
      let candidate = (start + offset) % length nets.ssids in
      if network_is_configured candidate
      then some candidate
      else next_from start (suc offset) rounds

  -- `none` is -1.
  unfoldable pub next_configured_network : ℕ → Option ℕ
  unfolding next_from
  next_configured_network start = next_from start 0 (length nets.ssids)

  -- The loop of `network_index_for_ssid`, from an index on. An SSID of the driver has at most 32
  -- characters, so that `strncmp` compares the whole of it.
  unfoldable pub index_from : Text → ℕ → List Text → Option ℕ
  index_from ssid i [] = none
  index_from ssid i (s ∷ ss) =
      if not (is_empty s) && same_text ssid s then some i else index_from ssid (suc i) ss

  unfoldable pub network_index_for_ssid : Text → Option ℕ
  unfolding index_from
  network_index_for_ssid ssid = if is_empty ssid then none else index_from ssid 0 nets.ssids

  -- The loop over the records.
  unfoldable pub best_of : List ApRecord → Best → Best
  unfolding network_index_for_ssid
  best_of [] b = b
  best_of (r ∷ rs) b = best_of rs (better (network_index_for_ssid r.ssid) r.rssi b)

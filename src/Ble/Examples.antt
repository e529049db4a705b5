-- ===== src/Ble/Examples.antt =====
-- The theorems on the scanner, applied.
use van_child_safety.Base.{
  ℕ, ◌-◌, ◌/◌, ◌≤◌, ◌≡◌, refl, true, Option, some, [], ◌∷◌, ◌++◌, arith, replicate,
}
use van_child_safety.Base.Int.{negsuc}
use van_child_safety.Base.Text.{codes, same_text}
use van_child_safety.Types.{Beacon, BeaconState, BeaconType, BusState}
use van_child_safety.World.{World, default_config}
use van_child_safety.System.Outcomes.{power_on}
use van_child_safety.Ble.Advert.{scan_structures, scan_structures-enough}
use van_child_safety.Ble.Scanner.{effective_threshold}
use van_child_safety.Ble.Hysteresis.{classify_back, AtThresholdSince, near_is_sustained}

-- -70 dBm, and a candidate since 10 s.
abbrev tag : Beacon
tag = record {
  name = codes "tag-1";
  person_name = [];
  discord_channel_id = [];
  home_zone_entity = [];
  notes = [];
  kind = BeaconType.ibeacon;
  mac = [];
  uuid = replicate 16 7;
  major = 1;
  minor = 2;
  rssi_threshold = negsuc 69;
  state = BeaconState.far;
  rssi = negsuc 79;
  last_seen = 9000000;
  near_since = 10000000;
  active = true;
}

abbrev fresh_tag : Beacon
fresh_tag = record tag { near_since = 0 }

-- At the threshold at 10 s, and again 2 s later.
near_is_sustained_example :
    (since : ℕ) × AtThresholdSince
      (effective_threshold default_config fresh_tag)
      since
      ((12000000, negsuc 59) ∷ (10000000, negsuc 64) ∷ [])
    × (default_config.ble_beacon_near_sustain_s ≤ (12000000 - since) / 1000000)
unfolding classify_back
near_is_sustained_example =
    near_is_sustained default_config 12000000 (negsuc 59) ((10000000, negsuc 64) ∷ []) fresh_tag
      refl refl refl

abbrev armed_world : World
armed_world = record power_on {
  bus = record power_on.bus { state = BusState.armed; bus_empty = true; armed_generation = 1 };
}

scan_structures-enough_example :
    (r : Option ℕ) × (scan_structures 4 (tag ∷ []) (2 ∷ 1 ∷ 6 ∷ []) 0 ≡ some r)
    × (scan_structures 9 (tag ∷ []) (2 ∷ 1 ∷ 6 ∷ []) 0 ≡ some r)
scan_structures-enough_example = scan_structures-enough 9 (tag ∷ []) (2 ∷ 1 ∷ 6 ∷ []) (omega arith)

-- An iBeacon after a structure of flags is found.
ibeacon_is_found :
    scan_structures 30
      (tag ∷ [])
      (2 ∷ 1 ∷ 6 ∷ 26 ∷ 0xFF ∷ 0x4C ∷ 0 ∷ 2 ∷ 0x15 ∷ (replicate 16 7 ++ 0 ∷ 1 ∷ 0 ∷ 2 ∷ 197 ∷ []))
      0
    ≡ some (some 0)
unfolding scan_structures same_text
ibeacon_is_found = refl

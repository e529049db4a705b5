-- ===== src/Roster/Samples.antt =====
-- A roster of one beacon, and a partition that takes what is saved.
use van_child_safety.Base.{refl, true, none, [], ◌∷◌, arith, replicate}
use van_child_safety.Base.Int.{negsuc}
use van_child_safety.Base.Text.{codes}
use van_child_safety.Types.{Beacon, BeaconState, BeaconType}
use van_child_safety.Roster.Fields.{valid_id}
use van_child_safety.Roster.Document.{Nvs}
use van_child_safety.Roster.Valid.{IsEntry, IsRoster}
use van_child_safety.Roster.Trees.{Json, string, number, object, to_fields}

abbrev pub anna : Beacon
anna = record {
  name = codes "Anna";
  person_name = codes "Anna B";
  discord_channel_id = codes "12345";
  home_zone_entity = [];
  notes = [];
  kind = BeaconType.ibeacon;
  mac = replicate 6 0;
  uuid = replicate 16 7;
  major = 1;
  minor = 2;
  rssi_threshold = negsuc 69;
  state = BeaconState.far;
  rssi = negsuc 79;
  last_seen = 9000000;
  near_since = 0;
  active = true;
}

pub anna-IsEntry : IsEntry anna
unfolding valid_id
anna-IsEntry = record {
  id_ok = refl;
  person_fits = omega arith;
  channel_fits = omega arith;
  zone_fits = omega arith;
  notes_fit = omega arith;
  rssi_ok = refl;
  major_fits = omega arith;
  minor_fits = omega arith;
  mac_size = refl;
  uuid_size = refl;
}

pub sample-IsRoster : IsRoster (anna ∷ [])
sample-IsRoster = record { fits = omega arith; entries = (anna-IsEntry, tt); distinct = (tt, tt) }

abbrev pub working : Nvs
working = record { opens = true; set_ok = true; commit_ok = true; left = none }

-- A tag by its MAC.
abbrev pub add_ben : Json
add_ben = object (
    to_fields (
      (codes "action", string (codes "add"))
      ∷ (codes "id", string (codes "ben"))
      ∷ (codes "type", string (codes "mac"))
      ∷ (codes "mac", string (codes "AA:BB:cc:00:11:22"))
      ∷ (codes "rssi", number (negsuc 59))
      ∷ []))

abbrev pub remove_anna : Json
remove_anna = object (
    to_fields
      ((codes "action", string (codes "remove")) ∷ (codes "id", string (codes "anna")) ∷ []))

-- ===== src/Roster/LoadExamples.antt =====
-- The theorems on loading the roster, applied.
use van_child_safety.Base.{
  ℕ, zero, suc, ◌<◌, ◌≡◌, refl, true, none, some, [], ◌∷◌, arith, replicate,
}
use van_child_safety.Base.Int.{negsuc}
use van_child_safety.Base.Text.{codes}
use van_child_safety.Types.{BeaconType}
use van_child_safety.World.{default_config}
use van_child_safety.Samples.{at}
use van_child_safety.Roster.Document.{beacon_config_save, build_roster_json}
use van_child_safety.Roster.Valid.{IsRoster}
use van_child_safety.Roster.Load.{LegacyBeacon, load_from_json_string, beacon_config_init}
use van_child_safety.Roster.Loading.{load_from_json_string-IsRoster}
use van_child_safety.Roster.Readback.{all_at_rest}
use van_child_safety.Roster.Reload.{holding, saved_roster_reloads}
use van_child_safety.Roster.Hex.{Octets}
use van_child_safety.Roster.Boot.{stored_text_hides_legacy}
use van_child_safety.Roster.Trees.{Json, trees, trees-CjsonLaws}
use van_child_safety.Roster.Samples.{anna, sample-IsRoster, working, add_ben, remove_anna}

octets : (n o : ℕ) → o < 256 → Octets (replicate n o)
octets zero o h = tt
octets (suc n) o h = (h, octets n o h)

abbrev document : Json
document = build_roster_json (trees add_ben) default_config (at 5).utc (anna ∷ [])

load_from_json_string-IsRoster_example :
    IsRoster (load_from_json_string (trees document) (codes "{}") (anna ∷ []))
    × ((trees document).parse (codes "{}") ≡ none
        → load_from_json_string (trees document) (codes "{}") (anna ∷ []) ≡ anna ∷ [])
    × ((root : (trees document).Item)
        → (trees document).parse (codes "{}") ≡ some root
        → (trees document).get_item root (codes "records") ≡ none
        → (trees document).get_item root (codes "beacons") ≡ none
        → load_from_json_string (trees document) (codes "{}") (anna ∷ []) ≡ anna ∷ [])
load_from_json_string-IsRoster_example =
    load_from_json_string-IsRoster (trees document) (codes "{}") (anna ∷ []) sample-IsRoster

saved_roster_reloads_example :
    (beacon_config_init (trees document) default_config working (at 1).utc (
      holding
        (trees document)
        (trees-CjsonLaws document)
        default_config
        (codes "{}")
        none
        true)).beacons
    ≡ all_at_rest (anna ∷ [])
unfolding beacon_config_save build_roster_json
saved_roster_reloads_example =
    saved_roster_reloads (trees document) (trees-CjsonLaws document) default_config working working
      (at 5).utc (at 1).utc (anna ∷ []) none (codes "{}") none true sample-IsRoster
      ((octets 6 0 (omega arith), octets 16 7 (omega arith)), tt) (λ _. refl) refl

abbrev old_tag : LegacyBeacon
old_tag = record {
  name = codes "old";
  kind = BeaconType.mac;
  mac = replicate 6 1;
  uuid = replicate 16 0;
  major = 0;
  minor = 0;
  rssi_threshold = negsuc 64;
  active = true;
}

-- The stored text is no roster; the legacy blob is.
stored_text_hides_legacy_example :
    (beacon_config_init (trees remove_anna) default_config working (at 1).utc (record {
      opens = true;
      json = some (codes "{");
      read_ok = true;
      legacy = some (old_tag ∷ []);
      erase_ok = true;
    }))
    ≡ record {
      beacons = load_from_json_string (trees remove_anna) (codes "{") [];
      stored = some (codes "{");
      legacy = some (old_tag ∷ []);
    }
stored_text_hides_legacy_example =
    stored_text_hides_legacy (trees remove_anna) default_config working (at 1).utc (codes "{") true
      (some (old_tag ∷ [])) true

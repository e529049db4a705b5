-- ===== src/Roster/Examples.antt =====
-- The theorems on changes of the roster, applied.
use van_child_safety.Base.{◌≡◌, refl, true, false, none, some, [], ◌∷◌, inl}
use van_child_safety.Base.Int.{pos}
use van_child_safety.Base.Text.{codes, same_id, same_text, copy_string}
use van_child_safety.Types.{Beacon, BusState}
use van_child_safety.World.{World, ConfigError, default_config}
use van_child_safety.Samples.{at}
use van_child_safety.System.Outcomes.{power_on}
use van_child_safety.Roster.Fields.{
  valid_id, hex_char, octet, mac_from, parse_mac, valid_discord_channel,
}
use van_child_safety.Roster.Json.{json_string_or_null, json_object_or_null, json_int_or_default}
use van_child_safety.Roster.Document.{Nvs, beacon_config_save}
use van_child_safety.Roster.Config.{Action, change_roster, beacon_config_handle_mqtt}
use van_child_safety.Roster.Valid.{IsRoster}
use van_child_safety.Roster.Requests.{handle_mqtt-IsRoster}
use van_child_safety.Roster.Entry.{Roster, duplicate_id}
use van_child_safety.Roster.Add.{
  requested_id, string_or_nested, requested_rssi, requested_mac, mac_identity, requested_identity,
  checked_entry, new_entry, add_beacon,
}
use van_child_safety.Roster.Change.{
  find_entry, set_channel, set_threshold, set_active, edit_by, edit, text_error, save_edit,
  update_beacon,
}
use van_child_safety.Roster.Config.{blocked}
use van_child_safety.Roster.Found.{At}
use van_child_safety.Roster.Reports.{done_is_saved, failed_change_is_undone}
use van_child_safety.Roster.Faults.{unguarded_update_deactivates}
use van_child_safety.Roster.Rejected.{refused_update_renames}
use van_child_safety.Roster.Trees.{Json, string, number, object, to_fields, trees}
use van_child_safety.Roster.Samples.{anna, sample-IsRoster, working, add_ben}

abbrev stopped : World
stopped = record power_on { beacons = anna ∷ []; connected = true }

handle_mqtt-IsRoster_example :
    IsRoster
      (beacon_config_handle_mqtt
        (trees add_ben)
        default_config
        (at 5)
        working
        (codes "{}")
        stopped
        none).0.beacons
handle_mqtt-IsRoster_example =
    handle_mqtt-IsRoster (trees add_ben) default_config (at 5) working (codes "{}") stopped none
      sample-IsRoster

abbrev armed_world : World
armed_world = record stopped { bus = record power_on.bus { state = BusState.armed } }

-- The added tag is saved.
added_ok :
    (change_roster
      (trees add_ben)
      default_config
      (at 5)
      working
      add_ben
      Action.add
      stopped
      none).outcome.ok
    ≡ true
unfolding change_roster add_beacon requested_id new_entry checked_entry requested_identity
    mac_identity requested_mac requested_rssi string_or_nested json_string_or_null
    json_object_or_null json_int_or_default same_id same_text valid_id valid_discord_channel
    duplicate_id parse_mac mac_from octet hex_char beacon_config_save
added_ok = refl

done_is_saved_example :
    let c =
      change_roster (trees add_ben) default_config (at 5) working add_ben Action.add stopped none in
    c.stored ≡ some (codes "{}")
done_is_saved_example =
    done_is_saved (trees add_ben) default_config (at 5) working add_ben Action.add stopped none refl
      added_ok

-- The commit fails.
abbrev failing : Nvs
failing = record { opens = true; set_ok = true; commit_ok = false; left = none }

not_added :
    (change_roster
      (trees add_ben)
      default_config
      (at 5)
      failing
      add_ben
      Action.add
      stopped
      none).outcome.ok
    ≡ false
unfolding change_roster add_beacon requested_id new_entry checked_entry requested_identity
    mac_identity requested_mac requested_rssi string_or_nested json_string_or_null
    json_object_or_null json_int_or_default same_id same_text valid_id valid_discord_channel
    duplicate_id parse_mac mac_from octet hex_char beacon_config_save
not_added = refl

failed_change_is_undone_example :
    (change_roster
      (trees add_ben)
      default_config
      (at 5)
      failing
      add_ben
      Action.add
      stopped
      none).world.beacons
    ≡ anna ∷ []
failed_change_is_undone_example =
    failed_change_is_undone (trees add_ben) default_config (at 5) failing add_ben Action.add stopped
      none not_added (inl refl)

-- "active" is the number 0.
abbrev deactivate_anna : Json
deactivate_anna = object (
    to_fields (
      (codes "action", string (codes "update"))
      ∷ (codes "id", string (codes "anna"))
      ∷ (codes "active", number (pos 0))
      ∷ []))

abbrev kept : Roster
kept = record { beacons = anna ∷ []; stored = none }

deactivated :
    (update_beacon
      (trees deactivate_anna)
      default_config
      working
      (at 5).utc
      deactivate_anna
      kept).1.ok
    ≡ true
unfolding update_beacon requested_id find_entry text_error edit edit_by save_edit set_channel
    set_threshold set_active string_or_nested json_string_or_null json_object_or_null same_id
    beacon_config_save
deactivated = refl

unguarded_update_deactivates_example :
    (blocked (trees deactivate_anna) default_config deactivate_anna Action.update armed_world
      ≡ none)
    × ((e : Beacon) × At
          (update_beacon
            (trees deactivate_anna)
            default_config
            working
            (at 5).utc
            deactivate_anna
            kept).0.beacons
          0
          e
        × (e.active ≡ false))
unfolding requested_id json_string_or_null find_entry same_id
unguarded_update_deactivates_example =
    unguarded_update_deactivates (trees deactivate_anna) default_config working (at 5)
      deactivate_anna (number (pos 0)) armed_world kept (codes "anna") 0 anna refl refl refl refl
      refl deactivated

-- A new name, and a threshold above 0.
abbrev rename_anna : Json
rename_anna = object (
    to_fields (
      (codes "action", string (codes "update"))
      ∷ (codes "id", string (codes "anna"))
      ∷ (codes "person_name", string (codes "Berta"))
      ∷ (codes "rssi", number (pos 5))
      ∷ []))

refused :
    (update_beacon (trees rename_anna) default_config working (at 5).utc rename_anna kept).1.error
    ≡ some ConfigError.invalid_rssi
unfolding update_beacon requested_id find_entry text_error edit edit_by save_edit set_channel
    set_threshold set_active string_or_nested json_string_or_null json_object_or_null same_id
    beacon_config_save
refused = refl

refused_update_renames_example :
    (e : Beacon) × At
      (update_beacon
        (trees rename_anna)
        default_config
        working
        (at 5).utc
        rename_anna
        kept).0.beacons
      0
      e
    × (e.person_name ≡ copy_string 49 (codes "Berta"))
    × ((update_beacon
          (trees rename_anna)
          default_config
          working
          (at 5).utc
          rename_anna
          kept).0.stored
        ≡ none)
unfolding requested_id json_string_or_null json_object_or_null string_or_nested text_error
    find_entry same_id
refused_update_renames_example =
    refused_update_renames (trees rename_anna) default_config working (at 5) rename_anna kept
      (codes "anna") (codes "Berta") 0 anna ConfigError.invalid_rssi refl refl refl refl refl
      refused (cc)

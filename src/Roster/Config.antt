-- ===== src/Roster/Config.antt =====
-- `beacon_config_handle_mqtt` of main/beacon_config.c, and the discovery of a beacon in
-- main/mqtt_client.c.
use van_child_safety.Base.{
  Bool, true, false, not, ◌&&◌, ◌||◌, Option, none, some, List, [], ◌∷◌, ◌==◌, if◌then◌else◌,
}
use van_child_safety.Base.Text.{Text, codes, is_empty, same_text}
use van_child_safety.Types.{Beacon}
use van_child_safety.World.{World, Env, Config, ConfigError, BeaconTopic, Message, publish}
use van_child_safety.Bus.Locked.{is_armed}
use van_child_safety.Roster.Near.{any_near, find_by_id}
use van_child_safety.Roster.Json.{Cjson, non_empty, flag, json_string_or_null}
use van_child_safety.Roster.Document.{Nvs, build_roster_json}
use van_child_safety.Roster.Entry.{Roster, Outcome, failed, succeeded}
use van_child_safety.Roster.Add.{add_beacon}
use van_child_safety.Roster.Change.{remove_beacon, update_beacon}

-- The actions that a request can name.
pub data Action : Type 0 where
  add remove update list unknown : Action

unfoldable pub action_of : Text → Action
unfolding same_text
action_of s =
    if same_text s (codes "add")
    then Action.add
    else if same_text s (codes "remove")
    then Action.remove
    else if same_text s (codes "update")
    then Action.update
    else if same_text s (codes "list")
    then Action.list
    else Action.unknown

-- `publish_result`; an empty request id or id is left out of the message.
unfoldable pub publish_result : Option Text → Option Text → Outcome → World → World
unfolding publish
publish_result request action o w =
    publish
      (Message.config_result record {
        request_id = non_empty request;
        action = action;
        ok = o.ok;
        id = o.changed_id;
        error = o.error;
        used_alias = o.used_alias;
      })
      w

-- `clear_beacon_retained_artifacts`.
unfoldable pub clear_beacon_retained_artifacts : Text → World → World
unfolding publish
clear_beacon_retained_artifacts id w =
    publish (Message.clear_retained (BeaconTopic.rssi_discovery id)) (
      publish (Message.clear_retained (BeaconTopic.state_discovery id))
        (publish (Message.clear_retained (BeaconTopic.state id)) w))

-- `beacon_name_to_safe`.
unfoldable pub beacon_name_to_safe : Text → Text
beacon_name_to_safe [] = []
beacon_name_to_safe (c ∷ s) =
    (if c == b'/' || (c == b'+' || c == b'#') then b'_' else c) ∷ beacon_name_to_safe s

abbrev pub display_name : Beacon → Text
display_name b = if is_empty b.person_name then b.name else b.person_name

-- `publish_beacon_discovery_for` with the state that `mqtt_publish_beacon_discovery` adds.
unfoldable pub publish_beacon_discovery_for : Beacon → World → World
unfolding publish beacon_name_to_safe
publish_beacon_discovery_for b w =
    publish (Message.beacon_state b.name b.state b.rssi)
      (publish (Message.beacon_discovery (beacon_name_to_safe b.name) (display_name b)) w)

-- `mqtt_publish_beacon_discovery`: the first active entry of that name.
unfoldable pub publish_discovery_from : List Beacon → Text → World → World
unfolding publish_beacon_discovery_for same_text
publish_discovery_from [] name w = w
publish_discovery_from (b ∷ bs) name w =
    if b.active && same_text b.name name
    then publish_beacon_discovery_for b w
    else publish_discovery_from bs name w

abbrev pub is_active_entry : Option Beacon → Bool
is_active_entry none = false
is_active_entry (some b) = b.active

-- What follows a change that succeeded.
unfoldable pub refresh_discovery : Bool → Text → World → World
refresh_discovery removed id w =
    if not removed && is_active_entry (find_by_id id w.beacons)
    then publish_discovery_from w.beacons id w
    else clear_beacon_retained_artifacts id w

-- The unit, what the key "json" of the NVS partition holds, and the outcome of a request.
pub record Changed : Type 0 where
  pub world : World
  pub stored : Option Text
  pub outcome : Outcome

abbrev pub keep : World → Option Text → Outcome → Changed
keep w stored o = record { world = w; stored = stored; outcome = o }

abbrev pub roster_of : World → Option Text → Roster
roster_of w stored = record { beacons = w.beacons; stored = stored }

-- The roster written back.
abbrev pub write_back : World → Roster × Outcome → Changed
write_back w (r, o) = keep (record w { beacons = r.beacons }) r.stored o

-- A text that could be printed.
abbrev pub publish_list : Option Text → World → World
publish_list none w = w
publish_list (some json) w = publish (Message.roster json) w

module _ (cj : Cjson) (cfg : Config) where
  -- `destructive_change_blocked_locked`: whether a change is destructive, and what refuses it.
  unfoldable pub is_destructive : cj.Item → Action → Bool
  is_destructive json Action.remove = true
  is_destructive json Action.update = flag cj.is_false (cj.get_item json (codes "active"))
  is_destructive json _ = false

  unfoldable pub blocked : cj.Item → Action → World → Option ConfigError
  blocked json action w =
      if is_destructive json action
      then (if is_armed w.bus.state
          then some ConfigError.bus_armed
          else if any_near w.beacons
          then some ConfigError.beacon_near
          else none)
      else none

  -- `list_beacons`.
  unfoldable pub list_beacons : Env → World → World
  list_beacons env w = publish_list (cj.print (build_roster_json cj cfg env.utc w.beacons)) w

  abbrev pub listed_if : Bool → Env → Changed → Changed
  listed_if yes_list env c = if yes_list then record c { world = list_beacons env c.world } else c

  -- The branches by action, under the lock.
  unfoldable pub change_roster : Env → Nvs → cj.Item → Action → World → Option Text → Changed
  change_roster env nvs json Action.add w stored =
      listed_if true env (write_back w (add_beacon cj cfg nvs env.utc json (roster_of w stored)))
  change_roster env nvs json Action.remove w stored =
      listed_if true env (write_back w (remove_beacon cj cfg nvs env.utc json (roster_of w stored)))
  change_roster env nvs json Action.update w stored =
      let c = write_back w (update_beacon cj cfg nvs env.utc json (roster_of w stored)) in
      listed_if c.outcome.ok env c
  change_roster env nvs json Action.list w stored =
      listed_if true env (keep w stored (succeeded [] false))
  change_roster env nvs json Action.unknown w stored =
      keep w stored (failed [] false ConfigError.unknown_action)

  abbrev pub checked_change :
      Env → Nvs → cj.Item → Action → World → Option Text → Option ConfigError → Changed
  checked_change env nvs json action w stored (some e) = keep w stored (failed [] false e)
  checked_change env nvs json action w stored none = change_roster env nvs json action w stored

  abbrev pub is_remove : Action → Bool
  is_remove Action.remove = true
  is_remove _ = false

  -- The answer, and the discovery after a change that succeeded.
  unfoldable pub answer : Option Text → Text → Action → Changed → World × Option Text
  answer request name action c =
      let w = publish_result request (some name) c.outcome c.world in
      (
        (if c.outcome.ok && not (is_empty c.outcome.changed_id)
            then refresh_discovery (is_remove action) c.outcome.changed_id w
            else w),
        c.stored,
      )

  -- By the "action" member.
  unfoldable pub handle_action :
      Env → Nvs → cj.Item → Option Text → Option Text → World → Option Text → World × Option Text
  handle_action env nvs json request none w stored =
      (publish_result request none (failed [] false ConfigError.missing_action) w, stored)
  handle_action env nvs json request (some name) w stored =
      let action = action_of name in
      answer request name action
        (checked_change env nvs json action w stored (blocked json action w))

  -- A request that was parsed.
  unfoldable pub handle_request : Env → Nvs → cj.Item → World → Option Text → World × Option Text
  handle_request env nvs json w stored =
      let request = json_string_or_null cj (some json) (codes "request_id") in
      handle_action env nvs json request (json_string_or_null cj (some json) (codes "action")) w
        stored

  abbrev pub handle_parsed : Env → Nvs → Option cj.Item → World → Option Text → World × Option Text
  handle_parsed env nvs none w stored =
      (publish_result none none (failed [] false ConfigError.invalid_json) w, stored)
  handle_parsed env nvs (some json) w stored = handle_request env nvs json w stored

  -- `beacon_config_handle_mqtt`, but for a failing `malloc`.
  unfoldable pub beacon_config_handle_mqtt :
      Env → Nvs → Text → World → Option Text → World × Option Text
  beacon_config_handle_mqtt env nvs payload w stored =
      handle_parsed env nvs (cj.parse payload) w stored

-- ===== src/Roster/Requests.antt =====
-- What a request over MQTT does to the unit beyond the roster: nothing but messages that are no
-- alarms; and what it does to the roster keeps it well-formed (main/beacon_config.c).
use van_child_safety.Base.{
  ◌≡◌, refl, sym, subst, Bool, true, false, ◌&&◌, ◌||◌, Option, none, some, List, [], ◌∷◌, inl, inr,
  arith, Bool-cases, if◌then◌else◌,
}
use van_child_safety.Base.Text.{Text, codes, same_text}
use van_child_safety.Types.{Beacon}
use van_child_safety.World.{World, Env, Config, ConfigError, publish}
use van_child_safety.Bus.Locked.{is_armed}
use van_child_safety.System.Frame.{Quiet, Quiet-refl, Quiet-trans, alarms_in}
use van_child_safety.Roster.Near.{any_near}
use van_child_safety.Roster.Json.{Cjson, json_string_or_null}
use van_child_safety.Roster.Document.{Nvs, build_roster_json}
use van_child_safety.Roster.Entry.{Roster, Outcome, failed}
use van_child_safety.Roster.Add.{add_beacon}
use van_child_safety.Roster.Change.{remove_beacon, update_beacon}
use van_child_safety.Roster.Config.{
  Action, action_of, publish_result, clear_beacon_retained_artifacts, publish_beacon_discovery_for,
  publish_discovery_from, refresh_discovery, Changed, roster_of, write_back, publish_list,
  list_beacons, listed_if, handle_action, handle_parsed, is_destructive, change_roster, blocked,
  checked_change, answer, handle_request, beacon_config_handle_mqtt,
}
use van_child_safety.Roster.Valid.{IsRoster}
use van_child_safety.Roster.Keeps.{
  add_beacon-IsRoster, remove_beacon-IsRoster, update_beacon-IsRoster,
}

Quiet-publish_result :
    (request action : Option Text) (o : Outcome) (w : World)
    → Quiet w (publish_result request action o w)
unfolding publish_result alarms_in
Quiet-publish_result request action o w = ground arith

Quiet-clear : (id : Text) (w : World) → Quiet w (clear_beacon_retained_artifacts id w)
unfolding clear_beacon_retained_artifacts alarms_in
Quiet-clear id w = elim (Bool-cases w.connected) [
  | inl e ↦ rw e (ground arith)
  | inr e ↦ rw e (ground arith)
]

Quiet-discovery_for : (b : Beacon) (w : World) → Quiet w (publish_beacon_discovery_for b w)
unfolding publish_beacon_discovery_for alarms_in
Quiet-discovery_for b w = ground arith

Quiet-discovery_from :
    (bs : List Beacon) (id : Text) (w : World) → Quiet w (publish_discovery_from bs id w)
unfolding publish_discovery_from
Quiet-discovery_from [] id w = Quiet-refl w
Quiet-discovery_from (b ∷ bs) id w = elim (Bool-cases (b.active && same_text b.name id)) [
  | inl e ↦ rw e (Quiet-discovery_for b w)
  | inr e ↦ rw e (Quiet-discovery_from bs id w)
]

either-Quiet : (t : Bool) (w u v : World) → Quiet w u → Quiet w v → Quiet w (if t then u else v)
either-Quiet true w u v p q = p
either-Quiet false w u v p q = q

Quiet-refresh : (removed : Bool) (id : Text) (w : World) → Quiet w (refresh_discovery removed id w)
unfolding refresh_discovery
Quiet-refresh removed id w =
    either-Quiet _ w _ _ (Quiet-discovery_from w.beacons id w) (Quiet-clear id w)

Quiet-publish_list : (json : Option Text) (w : World) → Quiet w (publish_list json w)
unfolding publish alarms_in
Quiet-publish_list none w = Quiet-refl w
Quiet-publish_list (some json) w = ground arith

module _ (cj : Cjson) (cfg : Config) (env : Env) where
  Quiet-list_beacons : (w : World) → Quiet w (list_beacons cj cfg env w)
  unfolding list_beacons
  Quiet-list_beacons w =
      Quiet-publish_list (cj.print (build_roster_json cj cfg env.utc w.beacons)) w

  pub Quiet-listed_if : (t : Bool) (c : Changed) → Quiet c.world (listed_if cj cfg t env c).world
  Quiet-listed_if true c = Quiet-list_beacons c.world
  Quiet-listed_if false c = Quiet-refl c.world

  Quiet-answer :
      (request : Option Text) (name : Text) (action : Action) (c : Changed)
      → Quiet c.world (answer cj cfg request name action c).0
  unfolding answer
  Quiet-answer request name action c =
      let q = Quiet-publish_result request (some name) c.outcome c.world in
      either-Quiet _ c.world _ _ (Quiet-trans q (Quiet-refresh _ _ _)) q

-- `w'` is `w` with another roster, kept well-formed, and messages that are no alarms.
abbrev Edits : World → World → Type 0
Edits w w' =
    (bs : List Beacon) × (IsRoster w.beacons → IsRoster bs) × Quiet (record w { beacons = bs }) w'

module _ (cj : Cjson) (cfg : Config) (env : Env) (nvs : Nvs) where
  written_back :
      (t : Bool) (w : World) (x : Roster × Outcome)
      → (IsRoster w.beacons → IsRoster x.0.beacons)
      → Edits w (listed_if cj cfg t env (write_back w x)).world
  written_back t w (r, o) h = (r.beacons, h, Quiet-listed_if cj cfg env t (write_back w (r, o)))

  Edits-change_roster :
      (json : cj.Item) (action : Action) (w : World) (stored : Option Text)
      → Edits w (change_roster cj cfg env nvs json action w stored).world
  unfolding change_roster
  Edits-change_roster json Action.add w stored =
      written_back true w (add_beacon cj cfg nvs env.utc json (roster_of w stored))
        (add_beacon-IsRoster cj cfg nvs env.utc json (roster_of w stored))
  Edits-change_roster json Action.remove w stored =
      written_back true w (remove_beacon cj cfg nvs env.utc json (roster_of w stored))
        (remove_beacon-IsRoster cj cfg nvs env.utc json (roster_of w stored))
  Edits-change_roster json Action.update w stored =
      written_back _ w (update_beacon cj cfg nvs env.utc json (roster_of w stored))
        (update_beacon-IsRoster cj cfg nvs env.utc json (roster_of w stored))
  Edits-change_roster json Action.list w stored =
      (w.beacons, λ h. h, Quiet-list_beacons cj cfg env w)
  Edits-change_roster json Action.unknown w stored = (w.beacons, λ h. h, Quiet-refl w)

  Edits-checked :
      (json : cj.Item) (action : Action) (w : World) (stored : Option Text) (o : Option ConfigError)
      → Edits w (checked_change cj cfg env nvs json action w stored o).world
  Edits-checked json action w stored (some e) = (w.beacons, λ h. h, Quiet-refl w)
  Edits-checked json action w stored none = Edits-change_roster json action w stored

  Edits-then : (w u v : World) → Edits w u → Quiet u v → Edits w v
  Edits-then w u v e q = (e.0, e.1, Quiet-trans e.2 q)

  Edits-action :
      (json : cj.Item) (request name : Option Text) (w : World) (stored : Option Text)
      → Edits w (handle_action cj cfg env nvs json request name w stored).0
  unfolding handle_action
  Edits-action json request none w stored =
      (w.beacons, λ h. h, Quiet-publish_result request none _ w)
  Edits-action json request (some name) w stored =
      Edits-then w _ _
        (Edits-checked json (action_of name) w stored (blocked cj cfg json (action_of name) w))
        (Quiet-answer cj cfg env request name (action_of name) _)

  Edits-parsed :
      (json : Option cj.Item) (w : World) (stored : Option Text)
      → Edits w (handle_parsed cj cfg env nvs json w stored).0
  unfolding handle_request
  Edits-parsed none w stored = (w.beacons, λ h. h, Quiet-publish_result none none _ w)
  Edits-parsed (some json) w stored = Edits-action json _ _ w stored

  -- A request over beacon/config keeps the roster well-formed, whatever its payload says and
  -- whatever the NVS partition does: at most MAX_BEACONS entries in order, with ids that differ
  -- in any case of their letters, and no two active iBeacons of one identity.
  pub handle_mqtt-IsRoster :
      (payload : Text) (w : World) (stored : Option Text)
      → IsRoster w.beacons
      → IsRoster (beacon_config_handle_mqtt cj cfg env nvs payload w stored).0.beacons
  unfolding beacon_config_handle_mqtt
  handle_mqtt-IsRoster payload w stored h =
      let e = Edits-parsed (cj.parse payload) w stored in subst IsRoster (sym e.2.beacons) (e.1 h)

  -- A request over beacon/config changes neither the state machine nor the tracker, and publishes
  -- no alarm, whatever its payload says.
  pub handle_mqtt-Quiet :
      (payload : Text) (w : World) (stored : Option Text)
      → let w' = (beacon_config_handle_mqtt cj cfg env nvs payload w stored).0 in
        Quiet (record w { beacons = w'.beacons }) w'
  unfolding beacon_config_handle_mqtt
  handle_mqtt-Quiet payload w stored =
      let q = (Edits-parsed (cj.parse payload) w stored).2 in
      record {
        bus = q.bus;
        tracker = q.tracker;
        beacons = refl;
        connected = q.connected;
        alarms = q.alarms;
      }

  -- What refuses a destructive change.
  abbrev pub refusal : World → ConfigError
  refusal w = if is_armed w.bus.state then ConfigError.bus_armed else ConfigError.beacon_near

  blocked-refusal :
      (json : cj.Item) (action : Action) (w : World)
      → is_destructive cj cfg json action ≡ true
      → (is_armed w.bus.state || any_near w.beacons) ≡ true
      → blocked cj cfg json action w ≡ some (refusal w)
  unfolding blocked
  blocked-refusal json action w d h = elim (Bool-cases (is_armed w.bus.state)) [
    | inl a ↦ rw (d, a) refl
    | inr a ↦ rw (d, a, rw a at h) refl
  ]

  -- While the unit is armed or an active beacon is near, a request to remove a beacon, or to update
  -- one with "active" false, is answered with an error and does nothing else.
  pub destructive_is_refused :
      (payload name : Text) (json : cj.Item) (w : World) (stored : Option Text)
      → cj.parse payload ≡ some json
      → json_string_or_null cj (some json) (codes "action") ≡ some name
      → is_destructive cj cfg json (action_of name) ≡ true
      → (is_armed w.bus.state || any_near w.beacons) ≡ true
      → beacon_config_handle_mqtt cj cfg env nvs payload w stored ≡ (
        publish_result
            (json_string_or_null cj (some json) (codes "request_id"))
            (some name)
            (failed [] false (refusal w))
            w,
        stored,
      )
  unfolding beacon_config_handle_mqtt handle_request handle_action answer
  destructive_is_refused payload name json w stored p n d h =
      rw (p, n, blocked-refusal json (action_of name) w d h) refl

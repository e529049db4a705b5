-- ===== src/Roster/Add.antt =====
-- `add_beacon` of main/beacon_config.c. What the pointers `error`, `changed_id` and `used_alias`
-- receive is an outcome; the text for the operator is left out.
use van_child_safety.Base.{
  Bool, true, false, not, Option, none, some, List, [], ◌∷◌, ◌++◌, ltb, if◌then◌else◌, length,
}
use van_child_safety.Base.Int.{ℤ, pos, negsuc}
use van_child_safety.Base.Text.{Text, codes, same_text, copy_string}
use van_child_safety.Types.{Beacon}
use van_child_safety.World.{Tm, Config, ConfigError}
use van_child_safety.Roster.Fields.{valid_id, valid_discord_channel, parse_mac, parse_uuid}
use van_child_safety.Roster.Json.{
  Cjson, is_some, first_of, or_empty, non_empty, json_string_or_null, json_object_or_null,
  json_int_or_default,
}
use van_child_safety.Roster.Document.{Nvs, max_beacons, beacon_config_save}
use van_child_safety.Roster.Entry.{
  Roster, Outcome, failed, succeeded, Checked, accept, reject, ◌>>=◌, ◌>>◌, guard, require,
  duplicate_id, duplicate_identity, text_fits, rssi_in_range, word, Identity, with_identity,
  cleared,
}

-- The branch for a MAC, and the one for an iBeacon.
unfoldable pub mac_identity : Option Text → Checked Identity
mac_identity s = do m ← require (parse_mac s) ConfigError.invalid_mac; accept (Identity.mac m)

unfoldable pub ibeacon_identity : Option Text → ℤ → ℤ → List Beacon → Checked Identity
ibeacon_identity s major minor bs = do
  u ← require (parse_uuid s) ConfigError.invalid_uuid
  a ← require (word major) ConfigError.invalid_major_minor
  b ← require (word minor) ConfigError.invalid_major_minor
  guard (not (duplicate_identity u a b bs)) ConfigError.duplicate_ibeacon
  accept (Identity.ibeacon u a b)

-- The checks in the order of the code: id, person, channel, zone, notes, threshold, identity.
unfoldable pub checked_entry :
    List Beacon
    → Option Text
    → Option Text
    → Option Text
    → Option Text
    → Option Text
    → ℤ
    → Checked Identity
    → Checked Beacon
checked_entry bs id person channel zone notes rssi checked_identity = do
  guard (ltb (length bs) max_beacons) ConfigError.max_records
  guard (valid_id id) ConfigError.invalid_id
  guard (not (duplicate_id (or_empty id) bs)) ConfigError.duplicate_id
  guard (text_fits 48 person) ConfigError.invalid_person_name
  guard (valid_discord_channel channel) ConfigError.invalid_discord_channel_id
  guard (text_fits 64 zone) ConfigError.invalid_home_zone_entity
  guard (text_fits 160 notes) ConfigError.invalid_notes
  guard (rssi_in_range rssi) ConfigError.invalid_rssi
  identity ← checked_identity
  accept (
      with_identity identity (record cleared {
        name = copy_string 32 (or_empty id);
        person_name = copy_string 49 (or_empty (first_of person id));
        discord_channel_id = copy_string 33 (or_empty channel);
        home_zone_entity = copy_string 65 (or_empty zone);
        notes = copy_string 161 (or_empty notes);
        rssi_threshold = rssi;
        active = true;
      }))

module _ (cj : Cjson) where
  -- The id that a request names, and whether the legacy member "name" gave it.
  unfoldable pub requested_id : cj.Item → Option Text × Bool
  unfolding json_string_or_null
  requested_id json = elim (json_string_or_null cj (some json) (codes "id")) [
    | some id ↦ (some id, false)
    | none ↦ let name = json_string_or_null cj (some json) (codes "name") in (name, is_some name)
  ]

  -- A string of the request, or else a member of a nested object.
  unfoldable pub string_or_nested : cj.Item → Text → Option cj.Item → Text → Option Text
  unfolding json_string_or_null
  string_or_nested json key nested inner =
      first_of (json_string_or_null cj (some json) key) (json_string_or_null cj nested inner)

  -- The threshold of a new entry, before its range is checked.
  unfoldable pub requested_rssi : cj.Item → Option cj.Item → ℤ
  unfolding json_int_or_default
  requested_rssi json beacon = json_int_or_default cj (some json) (codes "rssi_threshold") (
      json_int_or_default cj (some json) (codes "rssi")
        (json_int_or_default cj beacon (codes "rssi_threshold") (negsuc 64)))

  unfoldable pub requested_mac : cj.Item → Option cj.Item → Option Text
  unfolding json_string_or_null
  requested_mac json beacon = first_of (json_string_or_null cj (some json) (codes "mac")) (
      first_of (json_string_or_null cj beacon (codes "mac")) (
        first_of (json_string_or_null cj (some json) (codes "value"))
          (json_string_or_null cj beacon (codes "value"))))

  unfoldable pub requested_word : cj.Item → Option cj.Item → Text → ℤ
  unfolding json_int_or_default
  requested_word json beacon key =
      json_int_or_default cj (some json) key (json_int_or_default cj beacon key (pos 0))

  -- The branches by type.
  unfoldable pub requested_identity :
      cj.Item → Option cj.Item → Text → List Beacon → Checked Identity
  requested_identity json beacon kind bs =
      if same_text kind (codes "mac")
      then mac_identity (requested_mac json beacon)
      else if same_text kind (codes "ibeacon")
      then ibeacon_identity (string_or_nested json (codes "uuid") beacon (codes "uuid"))
          (requested_word json beacon (codes "major")) (requested_word json beacon (codes "minor"))
          bs
      else reject ConfigError.invalid_type

  abbrev pub or_ibeacon : Option Text → Text
  or_ibeacon none = codes "ibeacon"
  or_ibeacon (some kind) = kind

  -- The new entry, if every check passes.
  unfoldable pub new_entry : cj.Item → Option Text → List Beacon → Checked Beacon
  new_entry json id bs =
      let beacon = json_object_or_null cj json (codes "beacon") in
      let discord = json_object_or_null cj json (codes "discord") in
      let home = json_object_or_null cj json (codes "home") in
      let kind = or_ibeacon (string_or_nested json (codes "type") beacon (codes "type")) in
      checked_entry bs id (non_empty (json_string_or_null cj (some json) (codes "person_name")))
        (string_or_nested json (codes "discord_channel_id") discord (codes "channel_id"))
        (string_or_nested json (codes "home_zone_entity") home (codes "zone_entity"))
        (json_string_or_null cj (some json) (codes "notes")) (requested_rssi json beacon)
        (requested_identity json beacon kind bs)

module _ (cj : Cjson) (cfg : Config) where
  -- The new entry goes to the back, and is taken off again if it cannot be saved.
  abbrev pub add_checked : Nvs → Tm → Bool → Roster → Checked Beacon → Roster × Outcome
  add_checked nvs utc alias r (reject e) = (r, failed [] alias e)
  add_checked nvs utc alias r (accept entry) =
      let bs = r.beacons ++ entry ∷ [] in
      let (stored, saved) = beacon_config_save cj cfg nvs utc bs r.stored in
      if saved
      then (record { beacons = bs; stored = stored }, succeeded (copy_string 32 entry.name) alias)
      else (record r { stored = stored }, failed [] alias ConfigError.nvs_save_failed)

  -- `add_beacon`.
  unfoldable pub add_beacon : Nvs → Tm → cj.Item → Roster → Roster × Outcome
  add_beacon nvs utc json r =
      let (id, alias) = requested_id cj json in
      add_checked nvs utc alias r (new_entry cj json id r.beacons)

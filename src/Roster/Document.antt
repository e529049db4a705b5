-- ===== src/Roster/Document.antt =====
-- The roster as a JSON document, and how it is saved (main/beacon_config.c).
use van_child_safety.Base.{
  ℕ, Bool, true, false, ◌&&◌, Option, none, some, List, [], ◌∷◌, ◌++◌, length, if◌then◌else◌,
}
use van_child_safety.Base.Int.{pos}
use van_child_safety.Base.Text.{Text, codes, decimal}
use van_child_safety.Types.{Beacon, BeaconState, BeaconType}
use van_child_safety.World.{Tm, Config}
use van_child_safety.Ble.Scanner.{effective_threshold}
use van_child_safety.Roster.Fields.{format_mac, format_uuid}
use van_child_safety.Roster.Json.{Cjson}

-- `state_str`.
unfoldable pub state_str : BeaconState → Text
state_str BeaconState.near = codes "near"
state_str BeaconState.far = codes "far"
state_str BeaconState.absent = codes "absent"

-- `bc_utc_timestamp`.
unfoldable pub bc_utc_timestamp : Tm → Text
bc_utc_timestamp t =
    decimal 4 t.year
    ++ (codes "-"
        ++ (decimal 2 t.month
            ++ (codes "-"
                ++ (decimal 2 t.day
                    ++ (codes "T"
                        ++ (decimal 2 t.hour
                            ++ (codes ":"
                                ++ (decimal 2 t.minute
                                    ++ (codes ":" ++ (decimal 2 t.second ++ codes "Z"))))))))))

-- What an operation of the NVS partition does: whether the namespace opens for writing, whether
-- `nvs_set_str` and `nvs_commit` succeed, and what the key holds after a write that failed.
pub record Nvs : Type 0 where
  pub opens : Bool
  pub set_ok : Bool
  pub commit_ok : Bool
  pub left : Option Text

-- `nvs_set_str` and `nvs_commit` of a text that could be printed.
abbrev pub write_text : Nvs → Option Text → Option Text → Option Text × Bool
write_text nvs none stored = (stored, false)
write_text nvs (some json) stored =
    if nvs.set_ok && nvs.commit_ok then (some json, true) else (nvs.left, false)

-- `MAX_BEACONS`.
abbrev pub max_beacons : ℕ
max_beacons = 20

module _ (cj : Cjson) (cfg : Config) where
  abbrev Field : Type 0
  Field = Text × cj.Item

  -- Type and identity: in the "beacon" object, and repeated in the record.
  unfoldable pub identity_fields : Beacon → BeaconType → List Field
  unfolding format_mac format_uuid
  identity_fields b BeaconType.mac =
      (codes "type", cj.string (codes "mac")) ∷ (codes "mac", cj.string (format_mac b.mac)) ∷ []
  identity_fields b BeaconType.ibeacon =
      (codes "type", cj.string (codes "ibeacon"))
      ∷ (codes "uuid", cj.string (format_uuid b.uuid))
      ∷ (codes "major", cj.number (pos b.major))
      ∷ (codes "minor", cj.number (pos b.minor))
      ∷ []

  -- `add_entry_json`: the object that it adds.
  unfoldable pub entry_json : Beacon → cj.Item
  unfolding identity_fields state_str effective_threshold
  entry_json b = cj.object (
      (codes "id", cj.string b.name)
      ∷ (codes "name", cj.string b.name)
      ∷ (codes "person_name", cj.string b.person_name)
      ∷ (codes "active", cj.boolean b.active)
      ∷ (codes "state", cj.string (state_str b.state))
      ∷ (codes "rssi", cj.number b.rssi)
      ∷ (codes "rssi_threshold", cj.number b.rssi_threshold)
      ∷ (codes "effective_rssi_threshold", cj.number (effective_threshold cfg b))
      ∷ (codes "discord_channel_id", cj.string b.discord_channel_id)
      ∷ (codes "home_zone_entity", cj.string b.home_zone_entity)
      ∷ (codes "notes", cj.string b.notes)
      ∷ (codes "beacon", cj.object (fields ++ threshold))
      ∷ (fields ++ places))
    where
      fields : List Field
      fields = identity_fields b b.kind

      threshold : List Field
      threshold = (codes "rssi_threshold", cj.number b.rssi_threshold) ∷ []

      places : List Field
      places =
          (codes "discord", cj.object ((codes "channel_id", cj.string b.discord_channel_id) ∷ []))
          ∷ (codes "home", cj.object ((codes "zone_entity", cj.string b.home_zone_entity) ∷ []))
          ∷ []

  abbrev pub entries_json : List Beacon → List cj.Item
  entries_json [] = []
  entries_json (b ∷ bs) = entry_json b ∷ entries_json bs

  -- `build_roster_json`.
  unfoldable pub build_roster_json : Tm → List Beacon → cj.Item
  unfolding entry_json bc_utc_timestamp
  build_roster_json utc bs = cj.object (
      (codes "version", cj.number (pos 1))
      ∷ (codes "max_records", cj.number (pos max_beacons))
      ∷ (codes "count", cj.number (pos (length bs)))
      ∷ (codes "timestamp", cj.string (bc_utc_timestamp utc))
      ∷ (codes "records", cj.array (entries_json bs))
      ∷ (codes "beacons", cj.array (entries_json bs))
      ∷ [])

  -- `beacon_config_save`: what the key "json" holds afterwards, and whether it succeeded.
  unfoldable pub beacon_config_save : Nvs → Tm → List Beacon → Option Text → Option Text × Bool
  beacon_config_save nvs utc bs stored =
      if nvs.opens
      then write_text nvs (cj.print (build_roster_json utc bs)) stored
      else (stored, false)

  -- The members of one beacon in the telemetry, and `beacon_config_add_telemetry`.
  unfoldable pub telemetry_entry : Beacon → cj.Item
  unfolding state_str effective_threshold
  telemetry_entry b = cj.object (
      (codes "id", cj.string b.name)
      ∷ (codes "name", cj.string b.name)
      ∷ (codes "person_name", cj.string b.person_name)
      ∷ (codes "state", cj.string (state_str b.state))
      ∷ (codes "rssi", cj.number b.rssi)
      ∷ (codes "rssi_threshold", cj.number b.rssi_threshold)
      ∷ (codes "effective_rssi_threshold", cj.number (effective_threshold cfg b))
      ∷ (codes "discord_channel_id", cj.string b.discord_channel_id)
      ∷ (codes "home_zone_entity", cj.string b.home_zone_entity)
      ∷ [])

  unfoldable pub beacon_config_telemetry : List Beacon → List cj.Item
  unfolding telemetry_entry
  beacon_config_telemetry [] = []
  beacon_config_telemetry (b ∷ bs) =
      let rest = beacon_config_telemetry bs in if b.active then telemetry_entry b ∷ rest else rest

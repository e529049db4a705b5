-- ===== src/Roster/Load.antt =====
-- Loading the roster at power-on (main/beacon_config.c). What the NVS partition gives is a
-- parameter; the bytes of the legacy blob are taken as the records that they lay out.
use van_child_safety.Base.{
  ℕ, Bool, not, ◌&&◌, ◌||◌, Option, none, some, List, [], ◌∷◌, ◌++◌, leb, ltb, ◌==◌, if◌then◌else◌,
  length, take,
}
use van_child_safety.Base.Int.{ℤ, pos, negsuc, ltb_ℤ}
use van_child_safety.Base.Text.{Text, codes, is_empty, same_text, copy_string}
use van_child_safety.Types.{Beacon, BeaconType}
use van_child_safety.World.{Tm, Config}
use van_child_safety.Roster.Fields.{valid_id, parse_mac, parse_uuid}
use van_child_safety.Roster.Json.{
  Cjson, first_of, or_empty, flag, json_string_or_null, json_int_or_default,
}
use van_child_safety.Roster.Document.{Nvs, max_beacons, beacon_config_save}
use van_child_safety.Roster.Entry.{
  duplicate_id, duplicate_identity, word, Identity, with_identity, cleared,
}

-- `legacy_beacon_entry_t`, less the members that the migration does not read.
pub record LegacyBeacon : Type 0 where
  pub name : Text
  pub kind : BeaconType
  pub mac : List ℕ
  pub uuid : List ℕ
  pub major : ℕ
  pub minor : ℕ
  pub rssi_threshold : ℤ
  pub active : Bool

-- What the partition holds, and which calls on it succeed: whether the namespace opens, whether
-- the string is read once its size is known, and whether the blob can be erased.
pub record Partition : Type 0 where
  pub opens : Bool
  pub json : Option Text
  pub read_ok : Bool
  pub legacy : Option (List LegacyBeacon)
  pub erase_ok : Bool

-- A threshold outside -127 to 0 is moved to the nearer end.
abbrev pub clamp_rssi : ℤ → ℤ
clamp_rssi n = if ltb_ℤ n (negsuc 126) then negsuc 126 else if ltb_ℤ (pos 0) n then pos 0 else n

abbrev pub or_else : Text → Text → Text
or_else s t = if is_empty s then t else s

-- The identity of an iBeacon that was read, if no active entry has it.
abbrev pub stored_ibeacon :
    Bool → List Beacon → Option (List ℕ) → Option ℕ → Option ℕ → Option Identity
stored_ibeacon active bs (some uuid) (some major) (some minor) =
    if active && duplicate_identity uuid major minor bs
    then none
    else some (Identity.ibeacon uuid major minor)
stored_ibeacon active bs _ _ _ = none

abbrev pub stored_mac : Option (List ℕ) → Option Identity
stored_mac none = none
stored_mac (some m) = some (Identity.mac m)

abbrev pub keep_identity : Beacon → Option Identity → Option Beacon
keep_identity b none = none
keep_identity b (some identity) = some (with_identity identity b)

abbrev pub append_entry : List Beacon → Option Beacon → List Beacon
append_entry bs none = bs
append_entry bs (some b) = bs ++ b ∷ []

module _ (cj : Cjson) where
  -- `cJSON_IsObject(beacon) ? beacon : item`
  abbrev pub object_or : cj.Item → Option cj.Item → cj.Item
  object_or item none = item
  object_or item (some beacon) = if cj.is_object beacon then beacon else item

  abbrev pub identity_source : cj.Item → cj.Item
  identity_source item = object_or item (cj.get_item item (codes "beacon"))

  -- The identity of a stored record, if it is to be kept.
  unfoldable pub stored_identity : cj.Item → Bool → List Beacon → Option Identity
  stored_identity src active bs =
      if flag (λ s. same_text s (codes "mac")) (json_string_or_null cj (some src) (codes "type"))
      then stored_mac (
          parse_mac (
            first_of (json_string_or_null cj (some src) (codes "mac"))
              (json_string_or_null cj (some src) (codes "value"))))
      else stored_ibeacon active bs (parse_uuid (json_string_or_null cj (some src) (codes "uuid")))
          (word (json_int_or_default cj (some src) (codes "major") (pos 0)))
          (word (json_int_or_default cj (some src) (codes "minor") (pos 0)))

  -- The threshold before it is clamped.
  unfoldable pub stored_rssi : cj.Item → ℤ
  stored_rssi item =
      json_int_or_default cj (some item) (codes "rssi_threshold")
        (json_int_or_default cj (some item) (codes "rssi") (negsuc 64))

  -- The entry before its identity is read.
  unfoldable pub stored_fields : cj.Item → Text → Beacon
  stored_fields item id = record cleared {
    name = copy_string 32 id;
    person_name =
        or_else
          (copy_string 49 (or_empty (json_string_or_null cj (some item) (codes "person_name"))))
          (copy_string 49 id);
    discord_channel_id = copy_string 33 (
        or_empty (
          first_of (json_string_or_null cj (some item) (codes "discord_channel_id"))
            (json_string_or_null cj (cj.get_item item (codes "discord")) (codes "channel_id"))));
    home_zone_entity = copy_string 65 (
        or_empty (
          first_of (json_string_or_null cj (some item) (codes "home_zone_entity"))
            (json_string_or_null cj (cj.get_item item (codes "home")) (codes "zone_entity"))));
    notes = copy_string 161 (or_empty (json_string_or_null cj (some item) (codes "notes")));
    active = not (flag cj.is_false (cj.get_item item (codes "active")));
    rssi_threshold = clamp_rssi (stored_rssi item);
  }

  -- One record of the array, with what was loaded before it; `none` skips it.
  unfoldable pub stored_entry : cj.Item → List Beacon → Option Beacon
  stored_entry item bs =
      let id =
        first_of (json_string_or_null cj (some item) (codes "id"))
          (json_string_or_null cj (some item) (codes "name")) in
      if valid_id id && not (duplicate_id (or_empty id) bs)
      then (let b = stored_fields item (or_empty id) in
          keep_identity b (stored_identity (identity_source item) b.active bs))
      else none

  -- The loop over the array.
  unfoldable pub load_records : List cj.Item → List Beacon → List Beacon
  load_records [] bs = bs
  load_records (item ∷ items) bs =
      let rest = load_records items (append_entry bs (stored_entry item bs)) in
      if leb max_beacons (length bs) then bs else rest

  -- The array of a document: "records", or else "beacons".
  abbrev pub elements_of : Option cj.Item → Option (List cj.Item)
  elements_of none = none
  elements_of (some item) = cj.elements item

  unfoldable pub records_of : cj.Item → Option (List cj.Item)
  records_of root =
      first_of (elements_of (cj.get_item root (codes "records")))
        (elements_of (cj.get_item root (codes "beacons")))

  abbrev pub loaded_or : List Beacon → Option (List cj.Item) → List Beacon
  loaded_or before none = before
  loaded_or before (some items) = load_records items []

  abbrev pub load_parsed : Option cj.Item → List Beacon → List Beacon
  load_parsed none before = before
  load_parsed (some root) before = loaded_or before (records_of root)

  -- `load_from_json_string`: the roster stays as it was if the document has no records.
  unfoldable pub load_from_json_string : Text → List Beacon → List Beacon
  load_from_json_string json before = load_parsed (cj.parse json) before

-- One record of the legacy blob.
unfoldable pub legacy_entry : LegacyBeacon → Beacon
unfolding copy_string
legacy_entry l = record cleared {
  name = copy_string 32 l.name;
  person_name = copy_string 49 l.name;
  kind = l.kind;
  mac = l.mac;
  uuid = l.uuid;
  major = l.major;
  minor = l.minor;
  rssi_threshold = l.rssi_threshold;
  active = l.active;
}

unfoldable pub legacy_entries : List LegacyBeacon → List Beacon → List Beacon
legacy_entries [] bs = bs
legacy_entries (l ∷ ls) bs =
    let b = legacy_entry l in
    legacy_entries ls (if valid_id (some b.name) then bs ++ b ∷ [] else bs)

-- The roster, and what the two keys hold.
pub record Loaded : Type 0 where
  pub beacons : List Beacon
  pub stored : Option Text
  pub legacy : Option (List LegacyBeacon)

module _ (cj : Cjson) (cfg : Config) where
  -- The save after the migration; the blob is erased only if it succeeded.
  abbrev pub migrated : Nvs → Tm → Partition → List Beacon → Loaded
  migrated nvs utc p [] = record { beacons = []; stored = p.json; legacy = p.legacy }
  migrated nvs utc p (b ∷ bs) =
      let (stored, saved) = beacon_config_save cj cfg nvs utc (b ∷ bs) p.json in
      record {
        beacons = b ∷ bs;
        stored = stored;
        legacy = if saved && p.erase_ok then none else p.legacy;
      }

  -- `load_legacy_blob`; at most MAX_BEACONS records fit the buffer that is read.
  unfoldable pub load_legacy_blob : Nvs → Tm → Partition → List Beacon → Loaded
  load_legacy_blob nvs utc p before = elim p.legacy [
    | none ↦ record { beacons = before; stored = p.json; legacy = none }
    | some ls ↦ migrated nvs utc p (legacy_entries (take max_beacons ls) before)
  ]

  -- `load_from_nvs`.
  unfoldable pub load_from_nvs : Nvs → Tm → Partition → List Beacon → Loaded
  load_from_nvs nvs utc p before =
      let unchanged = λ (bs : List Beacon).
        let l : Loaded = record { beacons = bs; stored = p.json; legacy = p.legacy } in l in
      if p.opens
      then (elim p.json [
        | none ↦ load_legacy_blob nvs utc p before
        | some json ↦
            if p.read_ok
            then (let bs = load_from_json_string cj json before in
                if ltb 0 (length bs) || length before == length bs
                then unchanged bs
                else load_legacy_blob nvs utc p bs)
            else unchanged before
      ])
      else unchanged before

  -- `beacon_config_init`.
  unfoldable pub beacon_config_init : Nvs → Tm → Partition → Loaded
  beacon_config_init nvs utc p = load_from_nvs nvs utc p []

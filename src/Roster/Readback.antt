-- ===== src/Roster/Readback.antt =====
-- What the loader reads of a record that was saved (main/beacon_config.c), by what the
-- documentation of cJSON says.
use van_child_safety.Base.{
  ℕ, ◌≤◌, ◌<◌, ◌≡◌, refl, ap, ◌∙◌, Bool, true, false, not, ◌&&◌, Option, none, some, List, [], ◌∷◌,
  ◌++◌, arith, length, if◌then◌else◌,
}
use van_child_safety.Base.Int.{ℤ, pos, negsuc}
use van_child_safety.Base.Text.{Text, codes, same_id, same_text}
use van_child_safety.Types.{Beacon, BeaconType}
use van_child_safety.World.{Config}
use van_child_safety.Roster.Fields.{format_mac, format_uuid}
use van_child_safety.Roster.Json.{Cjson, json_string_or_null, json_int_or_default}
use van_child_safety.Roster.Document.{identity_fields, entry_json}
use van_child_safety.Roster.Entry.{
  rssi_in_range, word, duplicate_identity, Identity, with_identity, cleared,
}
use van_child_safety.Roster.Load.{
  clamp_rssi, or_else, object_or, identity_source, stored_rssi, stored_fields, stored_identity,
}
use van_child_safety.Roster.Valid.{IsEntry, copy_string-id}
use van_child_safety.Roster.Adding.{valid_id-length}
use van_child_safety.Roster.Hex.{Octets, parse_mac-format, parse_uuid-format}

-- A member of an object: the first whose key agrees but for the case of letters.
abbrev pub first_member {ℓ} : {A : Type ℓ} → Text → List (Text × A) → Option A
first_member key [] = none
first_member key ((k, v) ∷ fields) = if same_id k key then some v else first_member key fields

-- What the documentation of cJSON says of items that were built by its functions.
pub record CjsonLaws (cj : Cjson) : Type 0 where
  pub get_item-object :
      (fields : List (Text × cj.Item)) (key : Text)
      → cj.get_item (cj.object fields) key ≡ first_member key fields
  pub elements-array : (items : List cj.Item) → cj.elements (cj.array items) ≡ some items
  pub string_value-string : (s : Text) → cj.string_value (cj.string s) ≡ some s
  pub int_value-word : (n : ℕ) → n ≤ 65535 → cj.int_value (cj.number (pos n)) ≡ some (pos n)
  pub int_value-small : (n : ℕ) → n < 128 → cj.int_value (cj.number (negsuc n)) ≡ some (negsuc n)
  pub is_object-object : (fields : List (Text × cj.Item)) → cj.is_object (cj.object fields) ≡ true
  pub is_false-boolean : (b : Bool) → cj.is_false (cj.boolean b) ≡ not b

-- The identity that is saved.
abbrev pub identity_of : Beacon → BeaconType → Identity
identity_of b BeaconType.mac = Identity.mac b.mac
identity_of b BeaconType.ibeacon = Identity.ibeacon b.uuid b.major b.minor

-- What is saved of an entry besides its identity.
abbrev pub saved_fields : Beacon → Beacon
saved_fields b = record cleared {
  name = b.name;
  person_name = or_else b.person_name b.name;
  discord_channel_id = b.discord_channel_id;
  home_zone_entity = b.home_zone_entity;
  notes = b.notes;
  active = b.active;
  rssi_threshold = b.rssi_threshold;
}

-- The entry as after power-on: not seen yet, and with the identity of its type alone.
unfoldable pub at_rest : Beacon → Beacon
at_rest b = with_identity (identity_of b b.kind) (saved_fields b)

abbrev pub all_at_rest : List Beacon → List Beacon
all_at_rest [] = []
all_at_rest (b ∷ bs) = at_rest b ∷ all_at_rest bs

clamp_rssi-id : (n : ℤ) → rssi_in_range n ≡ true → clamp_rssi n ≡ n
clamp_rssi-id (pos n) h = ground (arith, h)
clamp_rssi-id (negsuc n) h = ground (arith, h)

word-pos : (n : ℕ) → n ≤ 65535 → word (pos n) ≡ some n
word-pos n h = ground (arith, h)

module _ (cj : Cjson) (laws : CjsonLaws cj) where
  string_member :
      (item : cj.Item) (key s : Text)
      → cj.get_item item key ≡ some (cj.string s)
      → json_string_or_null cj (some item) key ≡ some s
  unfolding json_string_or_null
  string_member item key s h = rw h (laws.string_value-string s)

  word_member :
      (item : cj.Item) (key : Text) (n : ℕ) (d : ℤ)
      → cj.get_item item key ≡ some (cj.number (pos n))
      → n ≤ 65535
      → json_int_or_default cj (some item) key d ≡ pos n
  unfolding json_int_or_default
  word_member item key n d h b = rw (h, laws.int_value-word n b) refl

  rssi_member :
      (item : cj.Item) (key : Text) (n d : ℤ)
      → cj.get_item item key ≡ some (cj.number n)
      → rssi_in_range n ≡ true
      → json_int_or_default cj (some item) key d ≡ n
  unfolding json_int_or_default
  rssi_member item key (pos n) d h r = rw (h, laws.int_value-word n (ground (arith, r))) refl
  rssi_member item key (negsuc n) d h r = rw (h, laws.int_value-small n (ground (arith, r))) refl

  module _ (cfg : Config) (b : Beacon) where
    abbrev pub item : cj.Item
    item = entry_json cj cfg b

    pub read_id : json_string_or_null cj (some item) (codes "id") ≡ some b.name
    unfolding entry_json same_id
    read_id = string_member item (codes "id") b.name (laws.get_item-object _ _)

    read_person : json_string_or_null cj (some item) (codes "person_name") ≡ some b.person_name
    unfolding entry_json same_id
    read_person = string_member item (codes "person_name") b.person_name (laws.get_item-object _ _)

    read_channel :
        json_string_or_null cj (some item) (codes "discord_channel_id") ≡ some b.discord_channel_id
    unfolding entry_json same_id
    read_channel =
        string_member item (codes "discord_channel_id") b.discord_channel_id
          (laws.get_item-object _ _)

    read_zone :
        json_string_or_null cj (some item) (codes "home_zone_entity") ≡ some b.home_zone_entity
    unfolding entry_json same_id
    read_zone =
        string_member item (codes "home_zone_entity") b.home_zone_entity (laws.get_item-object _ _)

    read_notes : json_string_or_null cj (some item) (codes "notes") ≡ some b.notes
    unfolding entry_json same_id
    read_notes = string_member item (codes "notes") b.notes (laws.get_item-object _ _)

    read_active : cj.get_item item (codes "active") ≡ some (cj.boolean b.active)
    unfolding entry_json same_id
    read_active = laws.get_item-object _ _

    read_rssi : rssi_in_range b.rssi_threshold ≡ true → stored_rssi cj item ≡ b.rssi_threshold
    unfolding stored_rssi entry_json same_id
    read_rssi r =
        rssi_member item (codes "rssi_threshold") b.rssi_threshold _ (laws.get_item-object _ _) r

    not-not : (t : Bool) → not (not t) ≡ t
    not-not true = refl
    not-not false = refl

    pub stored_fields_lem : IsEntry b → stored_fields cj item b.name ≡ saved_fields b
    unfolding stored_fields
    stored_fields_lem h =
        let short : length b.name < 32 = valid_id-length b.name h.id_ok in
        rw
          (
            read_person,
            read_channel,
            read_zone,
            read_notes,
            read_active,
            laws.is_false-boolean b.active,
            not-not b.active,
            read_rssi h.rssi_ok,
            clamp_rssi-id b.rssi_threshold h.rssi_ok,
            copy_string-id 32 b.name short,
            copy_string-id 49 b.name (omega (arith, short)),
            copy_string-id 49 b.person_name (omega (arith, h.person_fits)),
            copy_string-id 33 b.discord_channel_id (omega (arith, h.channel_fits)),
            copy_string-id 65 b.home_zone_entity (omega (arith, h.zone_fits)),
            copy_string-id 161 b.notes (omega (arith, h.notes_fit)),
          )
          refl

    -- The "beacon" object.
    abbrev pub beacon_item : cj.Item
    beacon_item = cj.object (
        identity_fields cj cfg b b.kind
        ++ (codes "rssi_threshold", cj.number b.rssi_threshold) ∷ [])

    pub identity_source_lem : identity_source cj item ≡ beacon_item
    unfolding entry_json same_id
    identity_source_lem =
        ap (object_or cj item) (laws.get_item-object _ (codes "beacon"))
        ∙ rw (laws.is_object-object (identity_fields cj cfg b b.kind ++ threshold)) refl
      where
        threshold : List (Text × cj.Item)
        threshold = (codes "rssi_threshold", cj.number b.rssi_threshold) ∷ []

    -- The "beacon" object of a type.
    abbrev pub beacon_object : BeaconType → cj.Item
    beacon_object k =
        cj.object
          (identity_fields cj cfg b k ++ (codes "rssi_threshold", cj.number b.rssi_threshold) ∷ [])

    pub mac_identity_lem :
        (active : Bool) (bs : List Beacon)
        → length b.mac ≡ 6
        → Octets b.mac
        → stored_identity cj (beacon_object BeaconType.mac) active bs ≡ some (Identity.mac b.mac)
    unfolding stored_identity identity_fields same_id same_text
    mac_identity_lem active bs size o =
        let src = beacon_object BeaconType.mac in
        rw
          (
            string_member src (codes "type") (codes "mac") (laws.get_item-object _ _),
            string_member src (codes "mac") (format_mac b.mac) (laws.get_item-object _ _),
            parse_mac-format b.mac size o,
          )
          refl

    pub ibeacon_identity_lem :
        (active : Bool) (bs : List Beacon)
        → length b.uuid ≡ 16
        → Octets b.uuid
        → b.major ≤ 65535
        → b.minor ≤ 65535
        → (active && duplicate_identity b.uuid b.major b.minor bs) ≡ false
        → stored_identity cj (beacon_object BeaconType.ibeacon) active bs
          ≡ some (Identity.ibeacon b.uuid b.major b.minor)
    unfolding stored_identity identity_fields same_id same_text
    ibeacon_identity_lem active bs size o p q d =
        let src = beacon_object BeaconType.ibeacon in
        rw
          (
            string_member src (codes "type") (codes "ibeacon") (laws.get_item-object _ _),
            string_member src (codes "uuid") (format_uuid b.uuid) (laws.get_item-object _ _),
            word_member src (codes "major") b.major (pos 0) (laws.get_item-object _ _) p,
            word_member src (codes "minor") b.minor (pos 0) (laws.get_item-object _ _) q,
            parse_uuid-format b.uuid size o,
            word-pos b.major p,
            word-pos b.minor q,
            d,
          )
          refl

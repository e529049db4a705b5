-- ===== src/Roster/Change.antt =====
-- `remove_beacon` and `update_beacon` of main/beacon_config.c. The pointer to the entry is its
-- position in the roster.
use van_child_safety.Base.{
  ℕ, zero, suc, Bool, true, false, not, ◌&&◌, ◌||◌, Option, none, some, List, [], ◌∷◌, ◌==◌, set,
  if◌then◌else◌,
}
use van_child_safety.Base.Int.{ℤ, pos_part, neg_part}
use van_child_safety.Base.Text.{Text, codes, same_id, copy_string}
use van_child_safety.Types.{Beacon, BeaconState}
use van_child_safety.World.{Tm, Config, ConfigError}
use van_child_safety.Ble.Advert.{is_ibeacon}
use van_child_safety.Roster.Fields.{valid_id, valid_discord_channel}
use van_child_safety.Roster.Json.{
  Cjson, first_of, or_empty, non_empty, member, json_string_or_null, json_object_or_null,
}
use van_child_safety.Roster.Document.{Nvs, beacon_config_save}
use van_child_safety.Roster.Entry.{
  Roster, Outcome, failed, succeeded, text_fits, rssi_in_range, has_identity,
}
use van_child_safety.Roster.Add.{requested_id, string_or_nested}

abbrev pub later : Option (ℕ × Beacon) → Option (ℕ × Beacon)
later none = none
later (some (i, b)) = some (suc i, b)

-- `beacon_config_find_by_id`, with the position of the entry.
unfoldable pub find_entry : Text → List Beacon → Option (ℕ × Beacon)
find_entry id [] = none
find_entry id (b ∷ bs) = if same_id b.name id then some (0, b) else later (find_entry id bs)

-- The two `memmove`s: the entries after a position close up, or make room again.
unfoldable pub remove_at : ℕ → List Beacon → List Beacon
remove_at i [] = []
remove_at zero (b ∷ bs) = bs
remove_at (suc i) (b ∷ bs) = b ∷ remove_at i bs

unfoldable pub insert_at : ℕ → Beacon → List Beacon → List Beacon
insert_at zero e bs = e ∷ bs
insert_at (suc i) e [] = e ∷ []
insert_at (suc i) e (b ∷ bs) = b ∷ insert_at i e bs

-- `duplicate_ibeacon_identity` with an exception.
unfoldable pub other_identity : List ℕ → ℕ → ℕ → Text → List Beacon → Bool
other_identity uuid major minor except [] = false
other_identity uuid major minor except (b ∷ bs) =
    (not (same_id b.name except) && has_identity uuid major minor b)
    || other_identity uuid major minor except bs

-- An entry that is being changed, and the error that ended the change, if one did.
abbrev pub Edited : Type 0
Edited = Beacon × Option ConfigError

infixl 5 ◌>>=◌
abbrev pub ◌>>=◌ : Edited → (Beacon → Edited) → Edited
(b, none) >>= f = f b
(b, some e) >>= f = (b, some e)

abbrev pub set_person : Option Text → Beacon → Beacon
set_person none b = b
set_person (some s) b = record b { person_name = copy_string 49 s }

abbrev pub set_zone : Option Text → Beacon → Beacon
set_zone none b = b
set_zone (some s) b = record b { home_zone_entity = copy_string 65 s }

abbrev pub set_notes : Option Text → Beacon → Beacon
set_notes none b = b
set_notes (some s) b = record b { notes = copy_string 161 s }

unfoldable pub set_channel : Option Text → Beacon → Edited
unfolding valid_discord_channel copy_string
set_channel none b = (b, none)
set_channel (some s) b =
    if valid_discord_channel (some s)
    then (record b { discord_channel_id = copy_string 33 s }, none)
    else (b, some ConfigError.invalid_discord_channel_id)

-- Whether a number is there is told apart from its value: the outer `none` is no member at all.
unfoldable pub set_threshold : Option (Option ℤ) → Beacon → Edited
set_threshold none b = (b, none)
set_threshold (some none) b = (b, some ConfigError.invalid_rssi)
set_threshold (some (some n)) b =
    if rssi_in_range n
    then (record b { rssi_threshold = n }, none)
    else (b, some ConfigError.invalid_rssi)

abbrev pub same_int : ℤ → ℤ → Bool
same_int a b = (pos_part a == pos_part b) && (neg_part a == neg_part b)

-- `cJSON_IsTrue(active)` if there is such a member.
unfoldable pub set_active : Option Bool → List Beacon → Beacon → Edited
unfolding other_identity
set_active none others b = (b, none)
set_active (some on) others b =
    if on
      && (not b.active
          && (is_ibeacon b.kind && other_identity b.uuid b.major b.minor b.name others))
    then (b, some ConfigError.duplicate_ibeacon)
    else if on
    then (record b { active = true }, none)
    else (record b { active = false; state = BeaconState.absent; near_since = 0 }, none)

-- `if (rssi_threshold_changed)`, told from the snapshot.
unfoldable pub restart_if_moved : Beacon → Beacon → Beacon
restart_if_moved snapshot b =
    if same_int b.rssi_threshold snapshot.rssi_threshold
    then b
    else record b { state = BeaconState.absent; near_since = 0; last_seen = 0 }

-- The changes from the snapshot on, in the order of the code: person, channel, zone, notes,
-- threshold, activity.
unfoldable pub edit_by :
    Option Text
    → Option Text
    → Option Text
    → Option Text
    → Option (Option ℤ)
    → Option Bool
    → List Beacon
    → ℕ
    → Beacon
    → Edited
edit_by person channel zone notes rssi active bs i snapshot =
    set_channel channel (set_person person snapshot) >>= λ e1.
    set_threshold rssi (set_notes notes (set_zone zone e1)) >>= λ e2.
    set_active active (set bs i e2) e2 >>= λ e3. (restart_if_moved snapshot e3, none)

module _ (cj : Cjson) where
  abbrev pub threshold_item : cj.Item → Option cj.Item
  threshold_item json = first_of (cj.get_item json (codes "rssi")) (
      first_of (cj.get_item json (codes "rssi_threshold"))
        (member cj (json_object_or_null cj json (codes "beacon")) (codes "rssi_threshold")))

  abbrev pub read_by : {A : Type 0} → (cj.Item → A) → Option cj.Item → Option A
  read_by f none = none
  read_by f (some item) = some (f item)

  -- The changes that a request asks for.
  unfoldable pub edit : cj.Item → List Beacon → ℕ → Beacon → Edited
  edit json bs i snapshot =
      edit_by (non_empty (json_string_or_null cj (some json) (codes "person_name")))
        (string_or_nested cj json (codes "discord_channel_id")
          (json_object_or_null cj json (codes "discord")) (codes "channel_id"))
        (string_or_nested cj json (codes "home_zone_entity")
          (json_object_or_null cj json (codes "home")) (codes "zone_entity"))
        (json_string_or_null cj (some json) (codes "notes"))
        (read_by cj.int_value (threshold_item json))
        (read_by cj.is_true (cj.get_item json (codes "active"))) bs i snapshot

  -- The checks before anything is changed.
  unfoldable pub text_error : cj.Item → Option ConfigError
  text_error json =
      if not (text_fits 48 (json_string_or_null cj (some json) (codes "person_name")))
      then some ConfigError.invalid_person_name
      else if not (
          text_fits 64 (
            string_or_nested cj json (codes "home_zone_entity")
              (json_object_or_null cj json (codes "home")) (codes "zone_entity")))
      then some ConfigError.invalid_home_zone_entity
      else if not (text_fits 160 (json_string_or_null cj (some json) (codes "notes")))
      then some ConfigError.invalid_notes
      else none

module _ (cj : Cjson) (cfg : Config) where
  abbrev pub remove_found : Nvs → Tm → Bool → Roster → Option (ℕ × Beacon) → Roster × Outcome
  remove_found nvs utc alias r none = (r, failed [] alias ConfigError.not_found)
  remove_found nvs utc alias r (some (i, entry)) =
      let bs = remove_at i r.beacons in
      let id = copy_string 32 entry.name in
      let (stored, saved) = beacon_config_save cj cfg nvs utc bs r.stored in
      if saved then (record { beacons = bs; stored = stored }, succeeded id alias) else (
        record { beacons = insert_at i entry bs; stored = stored },
        failed id alias ConfigError.nvs_save_failed,
      )

  -- `remove_beacon`.
  unfoldable pub remove_beacon : Nvs → Tm → cj.Item → Roster → Roster × Outcome
  remove_beacon nvs utc json r =
      let (id, alias) = requested_id cj json in
      if valid_id id
      then remove_found nvs utc alias r (find_entry (or_empty id) r.beacons)
      else (r, failed [] alias ConfigError.invalid_id)

  -- The changed entry is saved, and the snapshot put back if that fails. After another error the
  -- entry stays as far as it was changed.
  unfoldable pub save_edit : Nvs → Tm → Bool → Roster → ℕ → Beacon → Edited → Roster × Outcome
  save_edit nvs utc alias r i snapshot (entry, some e) =
      (record r { beacons = set r.beacons i entry }, failed [] alias e)
  save_edit nvs utc alias r i snapshot (entry, none) =
      let bs = set r.beacons i entry in
      let (stored, saved) = beacon_config_save cj cfg nvs utc bs r.stored in
      if saved
      then (record { beacons = bs; stored = stored }, succeeded (copy_string 32 entry.name) alias)
      else (
        record { beacons = set bs i snapshot; stored = stored },
        failed [] alias ConfigError.nvs_save_failed,
      )

  abbrev pub update_checked :
      Nvs → Tm → cj.Item → Bool → Roster → ℕ → Beacon → Option ConfigError → Roster × Outcome
  update_checked nvs utc json alias r i snapshot (some e) = (r, failed [] alias e)
  update_checked nvs utc json alias r i snapshot none =
      save_edit nvs utc alias r i snapshot (edit cj json r.beacons i snapshot)

  abbrev pub update_found :
      Nvs → Tm → cj.Item → Bool → Roster → Option (ℕ × Beacon) → Roster × Outcome
  update_found nvs utc json alias r none = (r, failed [] alias ConfigError.not_found)
  update_found nvs utc json alias r (some (i, snapshot)) =
      update_checked nvs utc json alias r i snapshot (text_error cj json)

  abbrev pub find_requested : Option Text → List Beacon → Option (ℕ × Beacon)
  find_requested none bs = none
  find_requested (some id) bs = find_entry id bs

  -- `update_beacon`.
  unfoldable pub update_beacon : Nvs → Tm → cj.Item → Roster → Roster × Outcome
  update_beacon nvs utc json r =
      let (id, alias) = requested_id cj json in
      update_found nvs utc json alias r (find_requested id r.beacons)

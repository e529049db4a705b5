-- ===== src/Roster/Boot.antt =====
-- What power-on makes of the two keys of the NVS partition (main/beacon_config.c).
use van_child_safety.Base.{
  ℕ, ◌≡◌, refl, Bool, true, false, ◌||◌, Option, none, some, List, [], ◌∷◌, inl, inr, arith,
  Bool-cases, ltb, ◌==◌, length, take, if◌then◌else◌,
}
use van_child_safety.Base.Text.{Text}
use van_child_safety.Types.{Beacon}
use van_child_safety.World.{Tm, Config}
use van_child_safety.Roster.Json.{Cjson}
use van_child_safety.Roster.Document.{Nvs, max_beacons, beacon_config_save, build_roster_json}
use van_child_safety.Roster.Load.{
  LegacyBeacon, Partition, load_from_json_string, legacy_entries, migrated, load_legacy_blob,
  load_from_nvs, beacon_config_init,
}
use van_child_safety.Roster.Saving.{save-stored}

some_or_none : (n : ℕ) → (ltb 0 n || (0 == n)) ≡ true
some_or_none n = ground arith

-- A partition of the older layout.
abbrev pub unmigrated : List LegacyBeacon → Bool → Bool → Partition
unmigrated ls read_ok erase_ok = record {
  opens = true;
  json = none;
  read_ok = read_ok;
  legacy = some ls;
  erase_ok = erase_ok;
}

module _ (cj : Cjson) (cfg : Config) (nvs : Nvs) (utc : Tm) where
  -- If the key "json" holds a text, whatever it says, the legacy blob is not looked at: the roster
  -- is what the text gives, or empty if it cannot be read, and both keys stay as they are.
  pub stored_text_hides_legacy :
      (json : Text) (read_ok : Bool) (legacy : Option (List LegacyBeacon)) (erase_ok : Bool)
      → beacon_config_init cj cfg nvs utc (record {
        opens = true;
        json = some json;
        read_ok = read_ok;
        legacy = legacy;
        erase_ok = erase_ok;
      })
        ≡ record {
          beacons = if read_ok then load_from_json_string cj json [] else [];
          stored = some json;
          legacy = legacy;
        }
  unfolding beacon_config_init load_from_nvs
  stored_text_hides_legacy json true legacy erase_ok =
      rw (some_or_none (length (load_from_json_string cj json []))) refl
  stored_text_hides_legacy json false legacy erase_ok = refl

  migrated-stored :
      (p : Partition) (ls : List LegacyBeacon) (bs : List Beacon)
      → p.legacy ≡ some ls
      → (migrated cj cfg nvs utc p bs).legacy ≡ none
      → (migrated cj cfg nvs utc p bs).stored
        ≡ cj.print (build_roster_json cj cfg utc (migrated cj cfg nvs utc p bs).beacons)
  migrated-stored p ls [] l h = absurd (ground (arith, l, h))
  migrated-stored p ls (b ∷ bs) l h =
      elim (Bool-cases (beacon_config_save cj cfg nvs utc (b ∷ bs) p.json).1) [
        | inl e ↦ save-stored cj cfg nvs utc (b ∷ bs) p.json e
        | inr e ↦ absurd (ground (arith, l, h, e))
      ]

  -- The legacy blob is gone after power-on only if its roster was saved: the key "json" then holds
  -- the document of the roster in memory.
  pub blob_goes_only_when_saved :
      (ls : List LegacyBeacon) (read_ok erase_ok : Bool)
      → (beacon_config_init cj cfg nvs utc (unmigrated ls read_ok erase_ok)).legacy ≡ none
      → let l = beacon_config_init cj cfg nvs utc (unmigrated ls read_ok erase_ok) in
        l.stored ≡ cj.print (build_roster_json cj cfg utc l.beacons)
  unfolding beacon_config_init load_from_nvs load_legacy_blob
  blob_goes_only_when_saved ls read_ok erase_ok h =
      migrated-stored (unmigrated ls read_ok erase_ok) ls (legacy_entries (take max_beacons ls) [])
        refl h

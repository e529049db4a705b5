-- ===== src/Roster/Reload.antt =====
-- A roster that was saved is loaded again as it was, at rest (main/beacon_config.c).
use van_child_safety.Base.{
  ℕ, ◌+◌, ◌≤◌, ◌≡◌, refl, sym, ap, ◌∙◌, Bool, true, false, ◌&&◌, ◌||◌, Option, some, List, [], ◌∷◌,
  ◌++◌, inl, inr, arith, Bool-cases, leb, ltb, ◌==◌, length, length-snoc, append_assoc, append_nil,
}
use van_child_safety.Base.Text.{Text, codes, same_id}
use van_child_safety.Types.{Beacon, BeaconType}
use van_child_safety.World.{Tm, Config}
use van_child_safety.Ble.Advert.{is_ibeacon}
use van_child_safety.Roster.Json.{Cjson}
use van_child_safety.Roster.Document.{
  max_beacons, entry_json, entries_json, Nvs, beacon_config_save, build_roster_json,
}
use van_child_safety.Roster.Entry.{duplicate_id, duplicate_identity, with_identity}
use van_child_safety.Roster.Load.{
  stored_entry, stored_identity, load_records, records_of, load_parsed, load_from_json_string,
  LegacyBeacon, Partition, load_from_nvs, beacon_config_init,
}
use van_child_safety.Roster.Distinct.{
  All, Apart, Distinct, same_id_comm, Apart-comm, All-map, All-zip, All-snoc,
}
use van_child_safety.Roster.Valid.{IsEntry, IsRoster}
use van_child_safety.Roster.Hex.{Octets}
use van_child_safety.Roster.Saving.{save-stored}
use van_child_safety.Roster.Readback.{
  CjsonLaws, identity_of, at_rest, all_at_rest, read_id, saved_fields, stored_fields_lem,
  beacon_object, identity_source_lem, mac_identity_lem, ibeacon_identity_lem,
}

-- The converse of the tests: an entry that is apart from all passes them.
duplicate_id-Apart :
    (b : Beacon) (bs : List Beacon) → All (Apart b) bs → duplicate_id b.name bs ≡ false
unfolding duplicate_id
duplicate_id-Apart b [] h = refl
duplicate_id-Apart b (c ∷ bs) h =
    rw (same_id_comm c.name b.name, h.0.0, duplicate_id-Apart b bs h.1) refl

duplicate_identity-Apart :
    (b : Beacon) (bs : List Beacon)
    → All (Apart b) bs
    → (b.active && is_ibeacon b.kind) ≡ true
    → duplicate_identity b.uuid b.major b.minor bs ≡ false
unfolding duplicate_identity
duplicate_identity-Apart b [] h a = refl
duplicate_identity-Apart b (c ∷ bs) h a =
    ground (arith, a, h.0.1, duplicate_identity-Apart b bs h.1 a)

-- At rest an entry has its id and, if it is an active iBeacon, its identity.
Apart-kind :
    (b c : Beacon) (k : BeaconType)
    → b.kind ≡ k
    → Apart c b
    → Apart c (with_identity (identity_of b k) (saved_fields b))
Apart-kind b c BeaconType.mac e h = (h.0, ground arith)
Apart-kind b c BeaconType.ibeacon e h = (h.0, ground (arith, e, h.1))

Apart-at_rest : (b c : Beacon) → Apart b c → Apart c (at_rest b)
unfolding at_rest
Apart-at_rest b c h = Apart-kind b c b.kind refl (Apart-comm b c h)

-- The octets of the identity are octets.
abbrev pub IsByted : Beacon → Type 0
IsByted b = Octets b.mac × Octets b.uuid

some_or_none : (n : ℕ) → (ltb 0 n || (0 == n)) ≡ true
some_or_none n = ground arith

module _ (cj : Cjson) (laws : CjsonLaws cj) (cfg : Config) where
  saved_identity :
      (b : Beacon) (bs : List Beacon) (k : BeaconType)
      → b.kind ≡ k
      → IsEntry b
      → IsByted b
      → All (Apart b) bs
      → stored_identity cj (beacon_object cj laws cfg b k) b.active bs ≡ some (identity_of b k)
  saved_identity b bs BeaconType.mac k e o h =
      mac_identity_lem cj laws cfg b b.active bs e.mac_size o.0
  saved_identity b bs BeaconType.ibeacon k e o h =
      ibeacon_identity_lem cj laws cfg b b.active bs e.uuid_size o.1 e.major_fits e.minor_fits
        (elim (Bool-cases b.active) [
          | inl a ↦ rw a (duplicate_identity-Apart b bs h (rw (a, k) refl))
          | inr a ↦ rw a refl
        ])

  stored_entry-entry_json :
      (b : Beacon) (bs : List Beacon)
      → IsEntry b
      → IsByted b
      → All (Apart b) bs
      → stored_entry cj (entry_json cj cfg b) bs ≡ some (at_rest b)
  unfolding stored_entry at_rest
  stored_entry-entry_json b bs e o h =
      rw
        (
          read_id cj laws cfg b,
          e.id_ok,
          duplicate_id-Apart b bs h,
          stored_fields_lem cj laws cfg b e,
          identity_source_lem cj laws cfg b,
          saved_identity b bs b.kind refl e o h,
        )
        refl

  load_records-entries_json :
      (bs acc : List Beacon)
      → All IsEntry bs
      → All IsByted bs
      → Distinct bs
      → All (λ (b : Beacon). All (Apart b) acc) bs
      → length acc + length bs ≤ max_beacons
      → load_records cj (entries_json cj cfg bs) acc ≡ acc ++ all_at_rest bs
  unfolding load_records
  load_records-entries_json [] acc e o d a n = sym (append_nil acc)
  load_records-entries_json (b ∷ bs) acc e o d a n =
      rw (stored_entry-entry_json b acc e.0 o.0 a.0, room)
        (load_records-entries_json bs (acc ++ at_rest b ∷ []) e.1 o.1 d.1
            (All-map _ _ bs (λ c p. All-snoc (Apart c) acc (at_rest b) p.0 (Apart-at_rest b c p.1))
              (All-zip (λ c. All (Apart c) acc) (Apart b) bs a.1 d.0))
            (omega (arith, length-snoc acc (at_rest b), n))
          ∙ append_assoc acc (at_rest b ∷ []) (all_at_rest bs))
    where
      room : leb max_beacons (length acc) ≡ false
      room = ground (arith, n)

  All-Apart_nil : (bs : List Beacon) → All (λ (b : Beacon). All (Apart b) []) bs
  All-Apart_nil [] = tt
  All-Apart_nil (b ∷ bs) = (tt, All-Apart_nil bs)

  parsed_document :
      (utc : Tm) (bs before : List Beacon)
      → IsRoster bs
      → All IsByted bs
      → load_parsed cj (some (build_roster_json cj cfg utc bs)) before ≡ all_at_rest bs
  unfolding build_roster_json records_of same_id
  parsed_document utc bs before h o = rw (laws.get_item-object _ (codes "records")) (
      rw (laws.elements-array _) (
        load_records-entries_json bs [] h.entries o h.distinct (All-Apart_nil bs)
          (omega (arith, h.fits))))

  -- A partition that holds the text and can be read.
  abbrev pub holding : Text → Option (List LegacyBeacon) → Bool → Partition
  holding json legacy erase_ok = record {
    opens = true;
    json = some json;
    read_ok = true;
    legacy = legacy;
    erase_ok = erase_ok;
  }

  -- A well-formed roster that was saved is loaded again at the next power-on, entry by entry and
  -- in order, as it was but at rest (absent, not seen yet, of its type's identity alone, a missing
  -- person's name replaced by the id), if cJSON parses the text that it printed back to the
  -- document, and its items behave as documented.
  pub saved_roster_reloads :
      (nvs nvs' : Nvs) (utc utc' : Tm) (bs : List Beacon) (stored : Option Text) (json : Text)
      (legacy : Option (List LegacyBeacon)) (erase_ok : Bool)
      → IsRoster bs
      → All IsByted bs
      → (cj.print (build_roster_json cj cfg utc bs) ≡ some json
          → cj.parse json ≡ some (build_roster_json cj cfg utc bs))
      → beacon_config_save cj cfg nvs utc bs stored ≡ (some json, true)
      → (beacon_config_init cj cfg nvs' utc' (holding json legacy erase_ok)).beacons
        ≡ all_at_rest bs
  unfolding beacon_config_init load_from_nvs load_from_json_string
  saved_roster_reloads nvs nvs' utc utc' bs stored json legacy erase_ok h o parse saved =
      let printed =
        sym (save-stored cj cfg nvs utc bs stored (ap (λ (x : Option Text × Bool). x.1) saved))
        ∙ ap (λ (x : Option Text × Bool). x.0) saved in
      let loaded = ap (λ r. load_parsed cj r []) (parse printed) ∙ parsed_document utc bs [] h o in
      rw (loaded, some_or_none (length (all_at_rest bs))) refl

-- ===== src/Roster/Adding.antt =====
-- An entry that passes the checks of `add_beacon` can join the roster (main/beacon_config.c).
use van_child_safety.Base.{
  ◌<◌, ◌≡◌, refl, subst, true, false, Option, none, some, List, [], ◌∷◌, arith, length,
}
use van_child_safety.Base.Int.{ℤ}
use van_child_safety.Base.Text.{Text, copy_string}
use van_child_safety.Types.{Beacon}
use van_child_safety.Roster.Fields.{valid_id}
use van_child_safety.Roster.Json.{Cjson, or_empty, first_of}
use van_child_safety.Roster.Document.{max_beacons}
use van_child_safety.Roster.Entry.{
  rssi_in_range, Checked, accept, reject, Identity, with_identity, cleared, duplicate_id,
}
use van_child_safety.Roster.Add.{checked_entry, new_entry}
use van_child_safety.Roster.Distinct.{All, Apart, Apart-tests}
use van_child_safety.Roster.Valid.{IsEntry, length-copy_string, copy_string-id}
use van_child_safety.Roster.Identities.{IsFree, requested_identity-IsFree}

pub valid_id-length : (s : Text) → valid_id (some s) ≡ true → length s < 32
unfolding valid_id
valid_id-length [] h = absurd (cc)
valid_id-length (c ∷ s) h = ground (arith, h)

no_id : valid_id none ≡ false
unfolding valid_id
no_id = refl

-- The entry that is filled once every check has passed.
abbrev filled : Text → Option Text → Option Text → Option Text → Option Text → ℤ → Beacon
filled id person channel home_zone notes rssi = record cleared {
  name = copy_string 32 id;
  person_name = copy_string 49 (or_empty (first_of person (some id)));
  discord_channel_id = copy_string 33 (or_empty channel);
  home_zone_entity = copy_string 65 (or_empty home_zone);
  notes = copy_string 161 (or_empty notes);
  rssi_threshold = rssi;
  active = true;
}

filled-IsEntry :
    (bs : List Beacon) (id : Text) (person channel home_zone notes : Option Text) (rssi : ℤ)
    (i : Identity)
    → valid_id (some id) ≡ true
    → rssi_in_range rssi ≡ true
    → IsFree bs i
    → IsEntry (with_identity i (filled id person channel home_zone notes rssi))
filled-IsEntry bs id person channel home_zone notes rssi (Identity.mac m) v r f = record {
  id_ok = rw (copy_string-id 32 id (valid_id-length id v)) v;
  person_fits = length-copy_string 49 (or_empty (first_of person (some id)));
  channel_fits = length-copy_string 33 (or_empty channel);
  zone_fits = length-copy_string 65 (or_empty home_zone);
  notes_fit = length-copy_string 161 (or_empty notes);
  rssi_ok = r;
  major_fits = omega arith;
  minor_fits = omega arith;
  mac_size = f;
  uuid_size = refl;
}
filled-IsEntry bs id person channel home_zone notes rssi (Identity.ibeacon u a b) v r f = record {
  id_ok = rw (copy_string-id 32 id (valid_id-length id v)) v;
  person_fits = length-copy_string 49 (or_empty (first_of person (some id)));
  channel_fits = length-copy_string 33 (or_empty channel);
  zone_fits = length-copy_string 65 (or_empty home_zone);
  notes_fit = length-copy_string 161 (or_empty notes);
  rssi_ok = r;
  major_fits = f.1;
  minor_fits = f.2;
  mac_size = refl;
  uuid_size = f.0;
}

filled-Apart :
    (bs : List Beacon) (id : Text) (person channel home_zone notes : Option Text) (rssi : ℤ)
    (i : Identity)
    → valid_id (some id) ≡ true
    → duplicate_id id bs ≡ false
    → IsFree bs i
    → All (Apart (with_identity i (filled id person channel home_zone notes rssi))) bs
filled-Apart bs id person channel home_zone notes rssi (Identity.mac m) v d f =
    Apart-tests (with_identity (Identity.mac m) (filled id person channel home_zone notes rssi)) bs
      (rw (copy_string-id 32 id (valid_id-length id v)) d) refl
filled-Apart bs id person channel home_zone notes rssi (Identity.ibeacon u a b) v d f =
    Apart-tests
      (with_identity (Identity.ibeacon u a b) (filled id person channel home_zone notes rssi)) bs
      (rw (copy_string-id 32 id (valid_id-length id v)) d) f.3

-- A new entry can go to the back.
abbrev pub Fits : List Beacon → Beacon → Type 0
Fits bs b = (length bs < max_beacons) × IsEntry b × All (Apart b) bs

checked_entry-Fits :
    (bs : List Beacon) (id person channel home_zone notes : Option Text) (rssi : ℤ)
    (checked : Checked Identity) (b : Beacon)
    → ((i : Identity) → checked ≡ accept i → IsFree bs i)
    → checked_entry bs id person channel home_zone notes rssi checked ≡ accept b
    → Fits bs b
unfolding checked_entry
checked_entry-Fits bs none person channel home_zone notes rssi checked b free h =
    absurd (ground (arith, h, no_id))
checked_entry-Fits bs (some id) person channel home_zone notes rssi (reject e) b free h =
    absurd (ground (arith, h))
checked_entry-Fits bs (some id) person channel home_zone notes rssi (accept i) b free h =
    let room : length bs < max_beacons = ground (arith, h) in
    let v : valid_id (some id) ≡ true = ground (arith, h) in
    let d : duplicate_id id bs ≡ false = ground (arith, h) in
    let r : rssi_in_range rssi ≡ true = ground (arith, h) in
    let e : with_identity i (filled id person channel home_zone notes rssi) ≡ b =
      ground (arith, h) in
    subst (Fits bs) e (
      room,
      filled-IsEntry bs id person channel home_zone notes rssi i v r (free i refl),
      filled-Apart bs id person channel home_zone notes rssi i v d (free i refl),
    )

module _ (cj : Cjson) where
  pub new_entry-Fits :
      (json : cj.Item) (id : Option Text) (bs : List Beacon) (b : Beacon)
      → new_entry cj json id bs ≡ accept b
      → Fits bs b
  unfolding new_entry
  new_entry-Fits json id bs b h =
      checked_entry-Fits bs id _ _ _ _ _ _ b (requested_identity-IsFree cj json _ _ bs) h

-- ===== src/Roster/Loading.antt =====
-- Whatever document the NVS partition holds, the roster loaded from it is well-formed
-- (main/beacon_config.c).
use van_child_safety.Base.{
  ℕ, ◌≤◌, ◌<◌, ◌≡◌, refl, subst, Bool, true, false, not, ◌&&◌, Option, none, some, List, [], ◌∷◌,
  inl, inr, arith, Bool-cases, leb, length, if◌then◌else◌,
}
use van_child_safety.Base.Int.{ℤ, pos, negsuc}
use van_child_safety.Base.Text.{Text, codes}
use van_child_safety.Types.{Beacon}
use van_child_safety.Roster.Fields.{valid_id, parse_mac, parse_uuid}
use van_child_safety.Roster.Json.{Cjson, or_empty, json_int_or_default}
use van_child_safety.Roster.Document.{max_beacons}
use van_child_safety.Roster.Entry.{
  word, rssi_in_range, Identity, with_identity, duplicate_id, duplicate_identity,
}
use van_child_safety.Roster.Load.{
  clamp_rssi, or_else, stored_ibeacon, stored_mac, stored_identity, keep_identity, stored_rssi,
  stored_fields, stored_entry, append_entry, records_of, load_records, loaded_or, load_parsed,
  load_from_json_string,
}
use van_child_safety.Roster.Distinct.{All, Apart, Apart-tests}
use van_child_safety.Roster.Valid.{
  IsEntry, IsRoster, IsRoster-snoc, empty-IsRoster, length-copy_string, copy_string-id,
}
use van_child_safety.Roster.Identities.{parse_mac-length, parse_uuid-length, word-le}
use van_child_safety.Roster.Adding.{valid_id-length}

clamp_rssi-range : (n : ℤ) → rssi_in_range (clamp_rssi n) ≡ true
clamp_rssi-range (pos n) = ground arith
clamp_rssi-range (negsuc n) = ground arith

or_else-length : (n : ℕ) (s t : Text) → length s ≤ n → length t ≤ n → length (or_else s t) ≤ n
or_else-length n [] t p q = q
or_else-length n (c ∷ s) t p q = p

-- An identity that was kept fits its fields; that of an active iBeacon is in use by no other.
abbrev Kept : Bool → List Beacon → Identity → Type 0
Kept active bs (Identity.mac m) = length m ≡ 6
Kept active bs (Identity.ibeacon u major minor) =
    (length u ≡ 16)
    × (major ≤ 65535)
    × (minor ≤ 65535)
    × ((active && duplicate_identity u major minor bs) ≡ false)

stored_mac-Kept :
    (active : Bool) (bs : List Beacon) (m : Option (List ℕ)) (i : Identity)
    → ((x : List ℕ) → m ≡ some x → length x ≡ 6)
    → stored_mac m ≡ some i
    → Kept active bs i
stored_mac-Kept active bs none i size h = absurd (cc)
stored_mac-Kept active bs (some m) (Identity.mac n) size h = ground (arith, h, size m refl)
stored_mac-Kept active bs (some m) (Identity.ibeacon _ _ _) size h = absurd (cc)

stored_ibeacon-Kept :
    (active : Bool) (bs : List Beacon) (u : Option (List ℕ)) (major minor : ℤ) (i : Identity)
    → ((x : List ℕ) → u ≡ some x → length x ≡ 16)
    → stored_ibeacon active bs u (word major) (word minor) ≡ some i
    → Kept active bs i
stored_ibeacon-Kept active bs none major minor i size h = absurd (cc)
stored_ibeacon-Kept active bs (some u) major minor (Identity.mac m) size h =
    absurd (ground (arith, h))
stored_ibeacon-Kept active bs (some u) major minor (Identity.ibeacon v a b) size h = (
  ground (arith, h, size u refl),
  ground (arith, h, word-le major a),
  ground (arith, h, word-le minor b),
  ground (arith, h),
)

branch-Kept :
    (is_mac active : Bool) (bs : List Beacon) (m u : Option Text) (major minor : ℤ) (i : Identity)
    → (if is_mac
        then stored_mac (parse_mac m)
        else stored_ibeacon active bs (parse_uuid u) (word major) (word minor))
      ≡ some i
    → Kept active bs i
branch-Kept true active bs m u major minor i h =
    stored_mac-Kept active bs (parse_mac m) i (λ x. parse_mac-length m x) h
branch-Kept false active bs m u major minor i h =
    stored_ibeacon-Kept active bs (parse_uuid u) major minor i (λ x. parse_uuid-length u x) h

module _ (cj : Cjson) where
  stored_identity-Kept :
      (src : cj.Item) (active : Bool) (bs : List Beacon) (i : Identity)
      → stored_identity cj src active bs ≡ some i
      → Kept active bs i
  unfolding stored_identity
  stored_identity-Kept src active bs i h =
      branch-Kept _ active bs _ _ (json_int_or_default cj (some src) (codes "major") (pos 0))
        (json_int_or_default cj (some src) (codes "minor") (pos 0)) i h

  -- The entry can follow those that were loaded before it.
  abbrev Follows : List Beacon → Beacon → Type 0
  Follows bs b = IsEntry b × All (Apart b) bs

  with_identity-Follows :
      (item : cj.Item) (id : Text) (bs : List Beacon) (i : Identity)
      → valid_id (some id) ≡ true
      → duplicate_id id bs ≡ false
      → Kept (stored_fields cj item id).active bs i
      → Follows bs (with_identity i (stored_fields cj item id))
  unfolding stored_fields
  with_identity-Follows item id bs (Identity.mac m) v d k = (
    record {
      id_ok = rw (copy_string-id 32 id (valid_id-length id v)) v;
      person_fits = or_else-length 48 _ _ (length-copy_string 49 _) (length-copy_string 49 id);
      channel_fits = length-copy_string 33 _;
      zone_fits = length-copy_string 65 _;
      notes_fit = length-copy_string 161 _;
      rssi_ok = clamp_rssi-range (stored_rssi cj item);
      major_fits = omega arith;
      minor_fits = omega arith;
      mac_size = k;
      uuid_size = refl;
    },
    Apart-tests (with_identity (Identity.mac m) (stored_fields cj item id)) bs
        (rw (copy_string-id 32 id (valid_id-length id v)) d) (ground arith),
  )
  with_identity-Follows item id bs (Identity.ibeacon u a b) v d k = (
    record {
      id_ok = rw (copy_string-id 32 id (valid_id-length id v)) v;
      person_fits = or_else-length 48 _ _ (length-copy_string 49 _) (length-copy_string 49 id);
      channel_fits = length-copy_string 33 _;
      zone_fits = length-copy_string 65 _;
      notes_fit = length-copy_string 161 _;
      rssi_ok = clamp_rssi-range (stored_rssi cj item);
      major_fits = k.1;
      minor_fits = k.2;
      mac_size = refl;
      uuid_size = k.0;
    },
    Apart-tests (with_identity (Identity.ibeacon u a b) (stored_fields cj item id)) bs
        (rw (copy_string-id 32 id (valid_id-length id v)) d) (ground (arith, k.3)),
  )

  keep_identity-Follows :
      (item : cj.Item) (id : Text) (bs : List Beacon) (o : Option Identity) (b : Beacon)
      → valid_id (some id) ≡ true
      → duplicate_id id bs ≡ false
      → ((i : Identity) → o ≡ some i → Kept (stored_fields cj item id).active bs i)
      → keep_identity (stored_fields cj item id) o ≡ some b
      → Follows bs b
  keep_identity-Follows item id bs none b v d k h = absurd (cc)
  keep_identity-Follows item id bs (some i) b v d k h =
      let e : with_identity i (stored_fields cj item id) ≡ b = ground (arith, h) in
      subst (Follows bs) e (with_identity-Follows item id bs i v d (k i refl))

  stored_named-Follows :
      (item src : cj.Item) (id : Option Text) (bs : List Beacon) (b : Beacon)
      → (if valid_id id && not (duplicate_id (or_empty id) bs)
          then (let e = stored_fields cj item (or_empty id) in
              keep_identity e (stored_identity cj src e.active bs))
          else none)
        ≡ some b
      → Follows bs b
  unfolding valid_id
  stored_named-Follows item src none bs b h = absurd (cc)
  stored_named-Follows item src (some id) bs b h =
      elim (Bool-cases (valid_id (some id) && not (duplicate_id id bs))) [
        | inl e ↦
            keep_identity-Follows item id bs _ b (ground (arith, e)) (ground (arith, e))
              (λ i. stored_identity-Kept src _ bs i) (rw e at h)
        | inr e ↦ absurd (ground (arith, h, e))
      ]

  stored_entry-Follows :
      (item : cj.Item) (bs : List Beacon) (b : Beacon)
      → stored_entry cj item bs ≡ some b
      → Follows bs b
  unfolding stored_entry
  stored_entry-Follows item bs b h = stored_named-Follows item _ _ bs b h

  append_entry-IsRoster :
      (bs : List Beacon) (o : Option Beacon)
      → length bs < max_beacons
      → ((b : Beacon) → o ≡ some b → Follows bs b)
      → IsRoster bs
      → IsRoster (append_entry bs o)
  append_entry-IsRoster bs none room f h = h
  append_entry-IsRoster bs (some b) room f h = IsRoster-snoc bs b h room (f b refl).0 (f b refl).1

  load_records-IsRoster :
      (items : List cj.Item) (bs : List Beacon) → IsRoster bs → IsRoster (load_records cj items bs)
  unfolding load_records
  load_records-IsRoster [] bs h = h
  load_records-IsRoster (item ∷ items) bs h = elim (Bool-cases (leb max_beacons (length bs))) [
    | inl e ↦ rw e h
    | inr e ↦ rw e (
        load_records-IsRoster items _ (
          append_entry-IsRoster bs (stored_entry cj item bs) (ground (arith, e))
            (λ b. stored_entry-Follows item bs b) h))
  ]

  loaded_or-IsRoster :
      (before : List Beacon) (items : Option (List cj.Item))
      → IsRoster before
      → IsRoster (loaded_or cj before items)
  loaded_or-IsRoster before none h = h
  loaded_or-IsRoster before (some items) h = load_records-IsRoster items [] empty-IsRoster

  load_parsed-IsRoster :
      (root : Option cj.Item) (before : List Beacon)
      → IsRoster before
      → IsRoster (load_parsed cj root before)
  load_parsed-IsRoster none before h = h
  load_parsed-IsRoster (some root) before h = loaded_or-IsRoster before (records_of cj root) h

  -- Whatever text the key "json" holds, the roster loaded from it over a well-formed one is
  -- well-formed: at most MAX_BEACONS entries in order, of which no two clash. A text that does not
  -- parse leaves the roster that was there before, and so does a document with neither the member
  -- "records" nor the member "beacons".
  pub load_from_json_string-IsRoster :
      (json : Text) (before : List Beacon)
      → IsRoster before
      → IsRoster (load_from_json_string cj json before)
        × (cj.parse json ≡ none → load_from_json_string cj json before ≡ before)
        × ((root : cj.Item)
            → cj.parse json ≡ some root
            → cj.get_item root (codes "records") ≡ none
            → cj.get_item root (codes "beacons") ≡ none
            → load_from_json_string cj json before ≡ before)
  unfolding load_from_json_string records_of
  load_from_json_string-IsRoster json before h = (
    load_parsed-IsRoster (cj.parse json) before h,
    λ e. rw e refl,
    λ root e r b. rw (e, r, b) refl,
  )

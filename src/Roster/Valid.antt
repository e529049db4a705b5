-- ===== src/Roster/Valid.antt =====
-- What a well-formed roster is (main/beacon_config.c, main/beacon_config.h).
use van_child_safety.Base.{
  ℕ, ◌-◌, ◌≤◌, ◌<◌, ◌≡◌, true, some, List, [], ◌∷◌, ◌++◌, arith, length, length-snoc, set,
  length-set, length-take-le, take-le,
}
use van_child_safety.Base.Text.{Text, copy_string}
use van_child_safety.Types.{Beacon}
use van_child_safety.Roster.Fields.{valid_id}
use van_child_safety.Roster.Document.{max_beacons}
use van_child_safety.Roster.Entry.{rssi_in_range}
use van_child_safety.Roster.Change.{remove_at}
use van_child_safety.Roster.Distinct.{
  All, All-snoc, All-remove_at, All-set, Apart, Distinct, Distinct-snoc, Distinct-remove_at,
  Distinct-set,
}
use van_child_safety.Roster.Found.{At, length-remove_at}

-- The texts fit their buffers with the terminator, and the numbers their ranges.
pub record IsEntry (b : Beacon) : Type 0 where
  pub id_ok : valid_id (some b.name) ≡ true
  pub person_fits : length b.person_name ≤ 48
  pub channel_fits : length b.discord_channel_id ≤ 32
  pub zone_fits : length b.home_zone_entity ≤ 64
  pub notes_fit : length b.notes ≤ 160
  pub rssi_ok : rssi_in_range b.rssi_threshold ≡ true
  pub major_fits : b.major ≤ 65535
  pub minor_fits : b.minor ≤ 65535
  pub mac_size : length b.mac ≡ 6
  pub uuid_size : length b.uuid ≡ 16

-- At most MAX_BEACONS entries, each in order, no two of which clash.
pub record IsRoster (bs : List Beacon) : Type 0 where
  pub fits : length bs ≤ max_beacons
  pub entries : All IsEntry bs
  pub distinct : Distinct bs

pub empty-IsRoster : IsRoster []
empty-IsRoster = record { fits = omega arith; entries = tt; distinct = tt }

pub length-copy_string : (n : ℕ) (s : Text) → length (copy_string n s) ≤ n - 1
unfolding copy_string
length-copy_string n s = length-take-le (n - 1) s

pub IsRoster-snoc :
    (bs : List Beacon) (b : Beacon)
    → IsRoster bs
    → length bs < max_beacons
    → IsEntry b
    → All (Apart b) bs
    → IsRoster (bs ++ b ∷ [])
IsRoster-snoc bs b r h e a = record {
  fits = omega (arith, length-snoc bs b);
  entries = All-snoc IsEntry bs b r.entries e;
  distinct = Distinct-snoc bs b r.distinct a;
}

pub IsRoster-remove_at :
    (bs : List Beacon) (i : ℕ) (b : Beacon) → At bs i b → IsRoster bs → IsRoster (remove_at i bs)
IsRoster-remove_at bs i b a r = record {
  fits = omega (arith, length-remove_at bs i b a, r.fits);
  entries = All-remove_at IsEntry i bs r.entries;
  distinct = Distinct-remove_at i bs r.distinct;
}

pub IsRoster-set :
    (bs : List Beacon) (i : ℕ) (e : Beacon)
    → IsRoster bs
    → IsEntry e
    → All (Apart e) (remove_at i bs)
    → IsRoster (set bs i e)
IsRoster-set bs i e r h a = record {
  fits = omega (arith, length-set bs i e, r.fits);
  entries = All-set IsEntry bs i e r.entries h;
  distinct = Distinct-set bs i e r.distinct a;
}

pub copy_string-id : (n : ℕ) (s : Text) → length s < n → copy_string n s ≡ s
unfolding copy_string
copy_string-id n s h = take-le (n - 1) s (omega arith)

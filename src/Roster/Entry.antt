-- ===== src/Roster/Entry.antt =====
-- What a change of the roster works on and answers (main/beacon_config.c): outcomes, checks that may
-- fail, and the entry that a request or a stored record fills.
use van_child_safety.Base.{
  ◌≡◌, refl, ◌⊎◌, inl, inr, ℕ, Bool, true, false, not, ◌&&◌, ◌||◌, Option, none, some, List, [],
  ◌∷◌, leb, ◌==◌, if◌then◌else◌, length, replicate,
}
use van_child_safety.Base.Int.{ℤ, pos, negsuc, ltb_ℤ}
use van_child_safety.Base.Text.{Text, same_id, same_text}
use van_child_safety.Types.{Beacon, BeaconState, BeaconType}
use van_child_safety.World.{ConfigError}
use van_child_safety.Ble.Advert.{is_ibeacon}

-- The roster in memory, and what the key "json" of the NVS partition holds.
pub record Roster : Type 0 where
  pub beacons : List Beacon
  pub stored : Option Text

pub record Outcome : Type 0 where
  pub ok : Bool
  pub changed_id : Text
  pub error : Option ConfigError
  pub used_alias : Bool

abbrev pub failed : Text → Bool → ConfigError → Outcome
failed id alias e = record { ok = false; changed_id = id; error = some e; used_alias = alias }

abbrev pub succeeded : Text → Bool → Outcome
succeeded id alias = record { ok = true; changed_id = id; error = none; used_alias = alias }

-- A check that may fail with an error.
pub data Checked {ℓ} (A : Type ℓ) : Type ℓ where
  accept : A → Checked A
  reject : ConfigError → Checked A

infixl 5 ◌>>=◌ ◌>>◌
abbrev pub ◌>>=◌ {ℓ κ} : {A : Type ℓ} {B : Type κ} → Checked A → (A → Checked B) → Checked B
accept a >>= f = f a
reject e >>= f = reject e

abbrev pub ◌>>◌ {ℓ} : {B : Type ℓ} → Checked (Unit {0}) → Checked B → Checked B
m >> k = m >>= λ _. k

abbrev pub guard : Bool → ConfigError → Checked (Unit {0})
guard true e = accept tt
guard false e = reject e

abbrev pub require {ℓ} : {A : Type ℓ} → Option A → ConfigError → Checked A
require (some a) e = accept a
require none e = reject e

pub Checked-cases {ℓ} :
    {A : Type ℓ} (c : Checked A) → ((a : A) × (c ≡ accept a)) ⊎ ((e : ConfigError) × (c ≡ reject e))
Checked-cases (accept a) = inl (a, refl)
Checked-cases (reject e) = inr (e, refl)

-- `beacon_config_find_by_id(id) != NULL`, and `duplicate_loaded_id`.
unfoldable pub duplicate_id : Text → List Beacon → Bool
duplicate_id id [] = false
duplicate_id id (b ∷ bs) = same_id b.name id || duplicate_id id bs

-- An active iBeacon with this identity.
abbrev pub has_identity : List ℕ → ℕ → ℕ → Beacon → Bool
has_identity uuid major minor b =
    (b.active && is_ibeacon b.kind)
    && (same_text b.uuid uuid && (b.major == major && b.minor == minor))

-- `duplicate_loaded_ibeacon_identity`, and `duplicate_ibeacon_identity` with no exception.
unfoldable pub duplicate_identity : List ℕ → ℕ → ℕ → List Beacon → Bool
duplicate_identity uuid major minor [] = false
duplicate_identity uuid major minor (b ∷ bs) =
    has_identity uuid major minor b || duplicate_identity uuid major minor bs

-- `!s || strlen(s) <= n`
abbrev pub text_fits : ℕ → Option Text → Bool
text_fits n none = true
text_fits n (some s) = leb (length s) n

-- `-127 <= n && n <= 0`
abbrev pub rssi_in_range : ℤ → Bool
rssi_in_range n = not (ltb_ℤ n (negsuc 126)) && not (ltb_ℤ (pos 0) n)

-- `0 <= n && n <= 65535`, and the value as a `uint16_t`.
abbrev pub word : ℤ → Option ℕ
word (pos n) = if leb n 65535 then some n else none
word (negsuc _) = none

pub data Identity : Type 0 where
  mac : List ℕ → Identity
  ibeacon : List ℕ → ℕ → ℕ → Identity

-- The identity written into a cleared entry.
abbrev pub with_identity : Identity → Beacon → Beacon
with_identity (Identity.mac m) b = record b { kind = BeaconType.mac; mac = m }
with_identity (Identity.ibeacon u major minor) b = record b {
  kind = BeaconType.ibeacon;
  uuid = u;
  major = major;
  minor = minor;
}

-- `memset(&entry, 0, sizeof(entry))`
abbrev pub cleared : Beacon
cleared = record {
  name = [];
  person_name = [];
  discord_channel_id = [];
  home_zone_entity = [];
  notes = [];
  kind = BeaconType.mac;
  mac = replicate 6 0;
  uuid = replicate 16 0;
  major = 0;
  minor = 0;
  rssi_threshold = pos 0;
  state = BeaconState.absent;
  rssi = pos 0;
  last_seen = 0;
  near_since = 0;
  active = false;
}

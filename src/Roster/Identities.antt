-- ===== src/Roster/Identities.antt =====
-- The identity that a request gives an entry fits its fields and is in use by no active entry
-- (main/beacon_config.c).
use van_child_safety.Base.{
  ℕ, zero, suc, ◌≤◌, ◌≡◌, refl, Bool, true, false, Option, none, some, List, [], ◌∷◌, inl, inr,
  arith, Bool-cases, Option-cases, ◌==◌, length, if◌then◌else◌,
}
use van_child_safety.Base.Int.{ℤ, pos, negsuc}
use van_child_safety.Base.Text.{Text}
use van_child_safety.Types.{Beacon}
use van_child_safety.World.{ConfigError}
use van_child_safety.Roster.Fields.{parse_mac, parse_uuid, mac_from, uuid_from, cons_octet, octet}
use van_child_safety.Roster.Json.{Cjson}
use van_child_safety.Roster.Entry.{accept, reject, word, Identity, duplicate_identity}
use van_child_safety.Roster.Add.{requested_identity, mac_identity, ibeacon_identity}

cons_octet-length :
    (o : Option ℕ) (os : Option (List ℕ)) (k : ℕ) (m : List ℕ)
    → ((n : List ℕ) → os ≡ some n → length n ≡ k)
    → cons_octet o os ≡ some m
    → length m ≡ suc k
cons_octet-length none os k m ih h = absurd (cc)
cons_octet-length (some o) none k m ih h = absurd (cc)
cons_octet-length (some o) (some os) k m ih h = ground (arith, ih os refl)

uuid_from-length : (k : ℕ) (s : Text) (m : List ℕ) → uuid_from k s ≡ some m → length m ≡ k
unfolding uuid_from
uuid_from-length zero s m h = ground (arith, h)
uuid_from-length (suc k) [] m h = absurd (cc)
uuid_from-length (suc k) (a ∷ []) m h = absurd (cc)
uuid_from-length (suc k) (a ∷ b ∷ s) m h = elim (Bool-cases (a == b'-')) [
  | inl e ↦ uuid_from-length (suc k) (b ∷ s) m (simp e at h)
  | inr e ↦ elim (Bool-cases (b == b'-')) [
    | inl f ↦ absurd (ground (arith, h, e, f))
    | inr f ↦
        cons_octet-length (octet a b) (uuid_from k s) k m (λ n. uuid_from-length k s n)
          (simp (e, f) at h)
  ]
]

mac_from-length : (k : ℕ) (s : Text) (m : List ℕ) → mac_from k s ≡ some m → length m ≡ k
unfolding mac_from
mac_from-length zero s m h = ground (arith, h)
mac_from-length (suc k) [] m h = absurd (cc)
mac_from-length (suc k) (a ∷ []) m h = absurd (cc)
mac_from-length (suc k) (a ∷ b ∷ []) m h =
    cons_octet-length (octet a b) _ k m (λ n e. ground (arith, e)) h
mac_from-length (suc k) (a ∷ b ∷ c ∷ s) m h =
    cons_octet-length (octet a b) _ k m (λ n e. ground (arith, e, mac_from-length k s n)) h

pub parse_mac-length : (s : Option Text) (m : List ℕ) → parse_mac s ≡ some m → length m ≡ 6
unfolding parse_mac
parse_mac-length none m h = absurd (cc)
parse_mac-length (some s) m h = ground (arith, h, mac_from-length 6 s m)

pub parse_uuid-length : (s : Option Text) (m : List ℕ) → parse_uuid s ≡ some m → length m ≡ 16
unfolding parse_uuid
parse_uuid-length none m h = absurd (cc)
parse_uuid-length (some s) m h = ground (arith, h, uuid_from-length 16 s m)

pub word-le : (n : ℤ) (w : ℕ) → word n ≡ some w → w ≤ 65535
word-le (pos n) w h = ground (arith, h)
word-le (negsuc n) w h = absurd (cc)

-- An identity fits its fields; an iBeacon's is in use by no active entry.
abbrev pub IsFree : List Beacon → Identity → Type 0
IsFree bs (Identity.mac m) = length m ≡ 6
IsFree bs (Identity.ibeacon u major minor) =
    (length u ≡ 16)
    × (major ≤ 65535)
    × (minor ≤ 65535)
    × (duplicate_identity u major minor bs ≡ false)

mac-IsFree :
    (bs : List Beacon) (i : Identity) (m : List ℕ)
    → accept (Identity.mac m) ≡ accept i
    → length m ≡ 6
    → IsFree bs i
mac-IsFree bs (Identity.mac n) m h e = ground (arith, h, e)
mac-IsFree bs (Identity.ibeacon _ _ _) m h e = absurd (cc)

mac_identity-IsFree :
    (s : Option Text) (bs : List Beacon) (i : Identity) → mac_identity s ≡ accept i → IsFree bs i
unfolding mac_identity
mac_identity-IsFree s bs i h = elim (Option-cases (parse_mac s)) [
  | inl e ↦ absurd (ground (arith, h, e))
  | inr (m, e) ↦
      let f : accept (Identity.mac m) ≡ accept i = ground (arith, h, e) in
      mac-IsFree bs i m f (parse_mac-length s m e)
]

ibeacon_identity-IsFree :
    (s : Option Text) (major minor : ℤ) (bs : List Beacon) (i : Identity)
    → ibeacon_identity s major minor bs ≡ accept i
    → IsFree bs i
unfolding ibeacon_identity
ibeacon_identity-IsFree s major minor bs (Identity.mac m) h = absurd (ground (arith, h))
ibeacon_identity-IsFree s major minor bs (Identity.ibeacon u a b) h = (
  ground (arith, h, parse_uuid-length s u),
  ground (arith, h, word-le major a),
  ground (arith, h, word-le minor b),
  ground (arith, h),
)

kind_branch-IsFree :
    (is_mac is_ibeacon : Bool) (m u : Option Text) (major minor : ℤ) (bs : List Beacon)
    (i : Identity)
    → (if is_mac
        then mac_identity m
        else if is_ibeacon
        then ibeacon_identity u major minor bs
        else reject ConfigError.invalid_type)
      ≡ accept i
    → IsFree bs i
kind_branch-IsFree true _ m u major minor bs i h = mac_identity-IsFree m bs i h
kind_branch-IsFree false true m u major minor bs i h = ibeacon_identity-IsFree u major minor bs i h
kind_branch-IsFree false false m u major minor bs i h = absurd (cc)

module _ (cj : Cjson) where
  pub requested_identity-IsFree :
      (json : cj.Item) (beacon : Option cj.Item) (kind : Text) (bs : List Beacon) (i : Identity)
      → requested_identity cj json beacon kind bs ≡ accept i
      → IsFree bs i
  unfolding requested_identity
  requested_identity-IsFree json beacon kind bs i h = kind_branch-IsFree _ _ _ _ _ _ bs i h

-- ===== src/Ble/Advert.antt =====
-- The advertisement parser of main/ble_scanner.c, and the lookups of main/beacon_config.c that it
-- calls. An entry is named by its index in the roster.
use van_child_safety.Base.{
  ℕ, zero, suc, ◌+◌, ◌*◌, ◌≤◌, ◌<◌, ◌≡◌, refl, Bool, true, false, ◌&&◌, Option, none, some, List,
  [], ◌∷◌, inl, inr, arith, ltb, leb, ap, ◌∙◌, ◌==◌, Bool-cases, if◌then◌else◌, length, get_or,
  take, drop,
}
use van_child_safety.Base.Text.{same_text}
use van_child_safety.Types.{Beacon, BeaconType}

abbrev pub is_mac : BeaconType → Bool
is_mac BeaconType.mac = true
is_mac BeaconType.ibeacon = false

abbrev pub is_ibeacon : BeaconType → Bool
is_ibeacon BeaconType.mac = false
is_ibeacon BeaconType.ibeacon = true

-- The index, counted from one entry earlier.
abbrev pub shift : Option ℕ → Option ℕ
shift none = none
shift (some i) = some (suc i)

-- `beacon_config_find_by_mac`.
unfoldable pub find_by_mac : List ℕ → List Beacon → Option ℕ
find_by_mac mac [] = none
find_by_mac mac (b ∷ bs) =
    if b.active && (is_mac b.kind && same_text b.mac mac)
    then some 0
    else shift (find_by_mac mac bs)

-- `beacon_config_find_by_ibeacon`.
unfoldable pub find_by_ibeacon : List ℕ → ℕ → ℕ → List Beacon → Option ℕ
find_by_ibeacon uuid major minor [] = none
find_by_ibeacon uuid major minor (b ∷ bs) =
    if b.active
      && (is_ibeacon b.kind && (same_text b.uuid uuid && (b.major == major && b.minor == minor)))
    then some 0
    else shift (find_by_ibeacon uuid major minor bs)

-- The manufacturer data at `data`: an iBeacon of Apple's layout that the roster knows.
unfoldable pub match_ibeacon : List Beacon → List ℕ → Option ℕ
unfolding find_by_ibeacon
match_ibeacon bs bytes =
    if (byte 0 + byte 1 * 256 == 0x004C) && (byte 2 + byte 3 * 256 == 0x1502)
    then find_by_ibeacon (take 16 (drop 4 bytes)) (byte 20 * 256 + byte 21)
        (byte 22 * 256 + byte 23) bs
    else none
  where
    byte : ℕ → ℕ
    byte i = get_or bytes i 0

-- One structure of the advertisement.
abbrev pub match_structure : List Beacon → ℕ → ℕ → List ℕ → Option ℕ
match_structure bs len kind bytes =
    if (kind == 0xFF) && leb 26 len then match_ibeacon bs bytes else none

-- One round of the loop; `rest` is the result of the rounds after it, and the outer `none` means
-- that they did not finish.
unfoldable pub scan_round : List Beacon → List ℕ → ℕ → Option (Option ℕ) → Option (Option ℕ)
unfolding match_ibeacon
scan_round bs adv pos rest =
    let len = get_or adv pos 0 in
    if ltb (pos + 1) (length adv)
    then (if len == 0
        then some none
        else if ltb (length adv) (pos + 1 + len)
        then some none
        else elim (match_structure bs len (get_or adv (pos + 1) 0) (drop (pos + 2) adv)) [
          | none ↦ rest
          | some i ↦ some (some i)
        ])
    else some none

-- The loop; `fuel` bounds its rounds, and a loop that runs out of it has no result.
unfoldable pub scan_structures : ℕ → List Beacon → List ℕ → ℕ → Option (Option ℕ)
unfolding scan_round
scan_structures zero bs adv pos = none
scan_structures (suc fuel) bs adv pos =
    scan_round bs adv pos (scan_structures fuel bs adv (pos + get_or adv pos 0 + 1))

scan_round-result :
    (bs : List Beacon) (adv : List ℕ) (pos : ℕ) (rest : Option ℕ)
    → (r : Option ℕ) × (scan_round bs adv pos (some rest) ≡ some r)
unfolding scan_round
scan_round-result bs adv pos rest = elim (Bool-cases (ltb (pos + 1) (length adv))) [
  | inl e ↦ elim (Bool-cases (len == 0)) [
    | inl z ↦ rw e (rw z (none, refl))
    | inr z ↦ elim (Bool-cases (ltb (length adv) (pos + 1 + len))) [
      | inl f ↦ rw e (rw z (rw f (none, refl)))
      | inr f ↦ rw e (rw z (rw f (structure-result m)))
    ]
  ]
  | inr e ↦ rw e (none, refl)
]
  where
    len : ℕ
    len = get_or adv pos 0

    m : Option ℕ
    m = match_structure bs len (get_or adv (pos + 1) 0) (drop (pos + 2) adv)

    structure-result :
        (m : Option ℕ)
        → (r : Option ℕ) × (elim m as (λ _. Option (Option ℕ)) [
          | none ↦ some rest
          | some i ↦ some (some i)
        ]
            ≡ some r)
    structure-result none = (rest, refl)
    structure-result (some i) = (some i, refl)

scan_ends :
    (bs : List Beacon) (adv : List ℕ) (pos : ℕ) (rest : Option (Option ℕ))
    → ltb (pos + 1) (length adv) ≡ false
    → scan_round bs adv pos rest ≡ some none
unfolding scan_round
scan_ends bs adv pos rest e = rw e refl

-- The loop has a result, and it has the same result on more fuel.
abbrev Finished : ℕ → ℕ → List Beacon → List ℕ → ℕ → Type 0
Finished fuel more bs adv pos =
    (r : Option ℕ) × (scan_structures fuel bs adv pos ≡ some r)
    × (scan_structures more bs adv pos ≡ some r)

scan-Finished :
    (fuel more : ℕ) (bs : List Beacon) (adv : List ℕ) (pos : ℕ)
    → length adv ≤ fuel + pos
    → 1 ≤ fuel
    → fuel ≤ more
    → Finished fuel more bs adv pos
unfolding scan_structures
scan-Finished zero more bs adv pos h p l = absurd (omega (arith, p))
scan-Finished (suc fuel) zero bs adv pos h p l = absurd (omega (arith, l))
scan-Finished (suc fuel) (suc more) bs adv pos h p l =
    elim (Bool-cases (ltb (pos + 1) (length adv))) [
      | inl e ↦
          let pos' = pos + get_or adv pos 0 + 1 in
          let (r, q, q') =
            scan-Finished fuel more bs adv pos' (omega (arith, h)) (ground (arith, e, h))
              (omega (arith, l)) in
          let (r', t) = scan_round-result bs adv pos r in
          (r', ap (scan_round bs adv pos) q ∙ t, ap (scan_round bs adv pos) q' ∙ t)
      | inr e ↦ (none, scan_ends bs adv pos _ e, scan_ends bs adv pos _ e)
    ]

-- The loop over an advertisement ends: one round more than there are bytes is enough for it to
-- have a result, and further rounds do not change the result.
pub scan_structures-enough :
    (fuel : ℕ) (bs : List Beacon) (adv : List ℕ)
    → length adv < fuel
    → (r : Option ℕ) × (scan_structures (suc (length adv)) bs adv 0 ≡ some r)
      × (scan_structures fuel bs adv 0 ≡ some r)
scan_structures-enough fuel bs adv h =
    scan-Finished (suc (length adv)) fuel bs adv 0 (omega arith) (omega arith) (omega (arith, h))

-- What a loop that has ended found.
abbrev found : Option (Option ℕ) → Option ℕ
found none = none
found (some r) = r

-- The entry of a device: by its address, or by an iBeacon in its advertisement.
unfoldable pub find_device : List Beacon → List ℕ → List ℕ → Option ℕ
unfolding find_by_mac scan_structures
find_device bs mac adv = elim (find_by_mac mac bs) [
  | none ↦ found (scan_structures (suc (length adv)) bs adv 0)
  | some i ↦ some i
]

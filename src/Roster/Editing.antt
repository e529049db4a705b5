-- ===== src/Roster/Editing.antt =====
-- The changes of `update_beacon` keep an entry well-formed and apart from the others
-- (main/beacon_config.c).
use van_child_safety.Base.{
  ℕ, zero, suc, ◌≡◌, refl, Bool, true, false, not, ◌&&◌, Option, none, some, List, [], ◌∷◌, inl,
  inr, arith, Bool-cases, set, if◌then◌else◌,
}
use van_child_safety.Base.Int.{ℤ}
use van_child_safety.Base.Text.{Text, same_id}
use van_child_safety.Types.{Beacon}
use van_child_safety.Ble.Advert.{is_ibeacon}
use van_child_safety.Roster.Json.{Cjson}
use van_child_safety.Roster.Entry.{rssi_in_range, has_identity}
use van_child_safety.Roster.Change.{
  remove_at, Edited, ◌>>=◌, other_identity, set_person, set_zone, set_notes, set_channel,
  set_threshold, set_active, same_int, restart_if_moved, edit_by, edit,
}
use van_child_safety.Roster.Distinct.{All, All-map, All-zip, Apart, same_id_comm}
use van_child_safety.Roster.Valid.{IsEntry, length-copy_string}

-- The entry is in order, and apart from the others of the roster.
abbrev pub IsGood : List Beacon → Beacon → Type 0
IsGood others b = IsEntry b × All (Apart b) others

either-IsGood :
    (others : List Beacon) (t : Bool) (a b : Edited)
    → IsGood others a.0
    → IsGood others b.0
    → IsGood others (if t then a else b).0
either-IsGood others true a b p q = p
either-IsGood others false a b p q = q

bind-IsGood :
    (others : List Beacon) (m : Edited) (f : Beacon → Edited)
    → IsGood others m.0
    → ((b : Beacon) → IsGood others b → IsGood others (f b).0)
    → IsGood others (m >>= f).0
bind-IsGood others (b, none) f g k = k b g
bind-IsGood others (b, some e) f g k = g

set_person-IsGood :
    (others : List Beacon) (s : Option Text) (b : Beacon)
    → IsGood others b
    → IsGood others (set_person s b)
set_person-IsGood others none b g = g
set_person-IsGood others (some s) b g =
    let h = g.0 in (ground (arith, length-copy_string 49 s), g.1)

set_zone-IsGood :
    (others : List Beacon) (s : Option Text) (b : Beacon)
    → IsGood others b
    → IsGood others (set_zone s b)
set_zone-IsGood others none b g = g
set_zone-IsGood others (some s) b g = let h = g.0 in (ground (arith, length-copy_string 65 s), g.1)

set_notes-IsGood :
    (others : List Beacon) (s : Option Text) (b : Beacon)
    → IsGood others b
    → IsGood others (set_notes s b)
set_notes-IsGood others none b g = g
set_notes-IsGood others (some s) b g =
    let h = g.0 in (ground (arith, length-copy_string 161 s), g.1)

set_channel-IsGood :
    (others : List Beacon) (s : Option Text) (b : Beacon)
    → IsGood others b
    → IsGood others (set_channel s b).0
unfolding set_channel
set_channel-IsGood others none b g = g
set_channel-IsGood others (some s) b g =
    let h = g.0 in either-IsGood others _ _ _ (ground (arith, length-copy_string 33 s), g.1) g

set_threshold-IsGood :
    (others : List Beacon) (n : Option (Option ℤ)) (b : Beacon)
    → IsGood others b
    → IsGood others (set_threshold n b).0
unfolding set_threshold
set_threshold-IsGood others none b g = g
set_threshold-IsGood others (some none) b g = g
set_threshold-IsGood others (some (some n)) b g =
    let h = g.0 in
    elim (Bool-cases (rssi_in_range n)) [ inl e ↦ rw e (ground (arith, e), g.1) | inr e ↦ rw e g ]

-- What the search for another active entry of this identity leaves known of the others.
search-All :
    (u : List ℕ) (major minor : ℕ) (id : Text) (bs : List Beacon)
    → other_identity u major minor id bs ≡ false
    → All (λ (c : Beacon). (not (same_id c.name id) && has_identity u major minor c) ≡ false) bs
unfolding other_identity
search-All u major minor id [] h = tt
search-All u major minor id (c ∷ bs) h =
    (ground (arith, h), search-All u major minor id bs (ground (arith, h)))

other_identity-others :
    (u : List ℕ) (major minor : ℕ) (id : Text) (bs : List Beacon) (i : ℕ) (x : Beacon)
    → other_identity u major minor id (set bs i x) ≡ false
    → All
        (λ (c : Beacon). (not (same_id c.name id) && has_identity u major minor c) ≡ false)
        (remove_at i bs)
unfolding other_identity remove_at
other_identity-others u major minor id [] i x h = tt
other_identity-others u major minor id (c ∷ bs) zero x h =
    search-All u major minor id bs (ground (arith, h))
other_identity-others u major minor id (c ∷ bs) (suc i) x h =
    (ground (arith, h), other_identity-others u major minor id bs i x (ground (arith, h)))

-- An entry that becomes active is still apart from the others.
activated-Apart :
    (b c : Beacon)
    → same_id b.name c.name ≡ false
    → (not (same_id c.name b.name) && has_identity b.uuid b.major b.minor c) ≡ false
    → Apart (record b { active = true }) c
activated-Apart b c n h = (n, ground (arith, h, n, same_id_comm c.name b.name))

-- The entry was active before, or is no iBeacon, or no other active one has its identity.
activated-All :
    (bs : List Beacon) (i : ℕ) (b : Beacon)
    → All (Apart b) (remove_at i bs)
    → (not b.active
        && (is_ibeacon b.kind && other_identity b.uuid b.major b.minor b.name (set bs i b)))
      ≡ false
    → All (Apart (record b { active = true })) (remove_at i bs)
activated-All bs i b g e = elim (Bool-cases b.active) [
  | inl a ↦ All-map (Apart b) _ (remove_at i bs) (λ c p. (p.0, ground (arith, p, a))) g
  | inr a ↦ elim (Bool-cases (is_ibeacon b.kind)) [
    | inl k ↦
        let free =
          other_identity-others b.uuid b.major b.minor b.name bs i b (ground (arith, e, a, k)) in
        All-map _ _ (remove_at i bs) (λ c p. activated-Apart b c p.0.0 p.1)
          (All-zip (Apart b) _ (remove_at i bs) g free)
    | inr k ↦ All-map (Apart b) _ (remove_at i bs) (λ c p. (p.0, ground (arith, k))) g
  ]
]

set_active-IsGood :
    (on : Option Bool) (bs : List Beacon) (i : ℕ) (b : Beacon)
    → IsGood (remove_at i bs) b
    → IsGood (remove_at i bs) (set_active on (set bs i b) b).0
unfolding set_active
set_active-IsGood none bs i b g = g
set_active-IsGood (some false) bs i b g =
    let h = g.0 in (ground arith, All-map (Apart b) _ (remove_at i bs) (λ c a. (a.0, refl)) g.1)
set_active-IsGood (some true) bs i b g =
    let h = g.0 in
    elim (Bool-cases (
      not b.active
      && (is_ibeacon b.kind && other_identity b.uuid b.major b.minor b.name (set bs i b)))) [
        | inl e ↦ rw e g
        | inr e ↦ rw e (ground (arith, h), activated-All bs i b g.1 e)
      ]

restart_if_moved-IsGood :
    (others : List Beacon) (snapshot b : Beacon)
    → IsGood others b
    → IsGood others (restart_if_moved snapshot b)
unfolding restart_if_moved
restart_if_moved-IsGood others snapshot b g =
    let h = g.0 in
    elim (Bool-cases (same_int b.rssi_threshold snapshot.rssi_threshold)) [
      | inl e ↦ rw e g
      | inr e ↦ rw e (ground (arith, h), g.1)
    ]

edit_by-IsGood :
    (person channel home_zone notes : Option Text) (rssi : Option (Option ℤ)) (on : Option Bool)
    (bs : List Beacon) (i : ℕ) (b : Beacon)
    → IsGood (remove_at i bs) b
    → IsGood (remove_at i bs) (edit_by person channel home_zone notes rssi on bs i b).0
unfolding edit_by
edit_by-IsGood person channel home_zone notes rssi on bs i b g =
    let others = remove_at i bs in
    bind-IsGood others (set_channel channel (set_person person b)) _
      (set_channel-IsGood others channel _ (set_person-IsGood others person b g))
      λ e1 g1.
        bind-IsGood others (set_threshold rssi (set_notes notes (set_zone home_zone e1))) _
          (set_threshold-IsGood others rssi _
            (set_notes-IsGood others notes _ (set_zone-IsGood others home_zone e1 g1)))
          λ e2 g2.
            bind-IsGood others (set_active on (set bs i e2) e2) _ (set_active-IsGood on bs i e2 g2)
              λ e3 g3. restart_if_moved-IsGood others b e3 g3

module _ (cj : Cjson) where
  -- However far the change gets.
  pub edit-IsGood :
      (json : cj.Item) (bs : List Beacon) (i : ℕ) (b : Beacon)
      → IsGood (remove_at i bs) b
      → IsGood (remove_at i bs) (edit cj json bs i b).0
  unfolding edit
  edit-IsGood json bs i b g = edit_by-IsGood _ _ _ _ _ _ bs i b g

-- ===== src/Ble/Hysteresis.antt =====
-- Near and far of main/ble_scanner.c over readings of one beacon.
use Prim.{Unit}
use van_child_safety.Base.{
  ℕ, ◌-◌, ◌/◌, ◌≤◌, ◌≡◌, ◌≢◌, ◌⊎◌, inl, inr, refl, ◌∙◌, Bool-cases, ap, sym, subst, true, false,
  not, ◌&&◌, List, [], ◌∷◌, ◌++◌, arith, if◌then◌else◌, length, ◌<◌,
}
use van_child_safety.Base.Int.{ℤ, ltb_ℤ, leb_ℤ}
use van_child_safety.Types.{Beacon}
use van_child_safety.World.{World, Env, Config, publish, queue_capacity, queue_send}
use van_child_safety.Roster.Near.{is_near, near_event}
use van_child_safety.Bus.Locked.{is_armed}
use van_child_safety.Ble.Scanner.{effective_threshold, far_below, classify, report_change}

-- Readings of one beacon, with their times.
unfoldable pub classify_all : Config → List (ℕ × ℤ) → Beacon → Beacon
unfolding classify
classify_all cfg [] b = b
classify_all cfg ((now, rssi) ∷ rs) b = classify_all cfg rs (classify cfg now rssi b)

-- No reading is below the threshold by more than the hysteresis.
abbrev pub NotFar : Config → ℤ → List (ℕ × ℤ) → Type 0
NotFar cfg threshold [] = Unit
NotFar cfg threshold ((now, rssi) ∷ rs) =
    (far_below cfg rssi threshold ≡ false) × NotFar cfg threshold rs

classify-near :
    (cfg : Config) (now : ℕ) (rssi : ℤ) (b : Beacon)
    → is_near b.state ≡ true
    → far_below cfg rssi (effective_threshold cfg b) ≡ false
    → is_near (classify cfg now rssi b).state ≡ true
unfolding classify
classify-near cfg now rssi b n f = ground arith

classify-threshold :
    (cfg : Config) (now : ℕ) (rssi : ℤ) (b : Beacon)
    → (classify cfg now rssi b).rssi_threshold ≡ b.rssi_threshold
unfolding classify
classify-threshold cfg now rssi b = ground arith

same_threshold :
    (cfg : Config) (b b' : Beacon)
    → b'.rssi_threshold ≡ b.rssi_threshold
    → effective_threshold cfg b' ≡ effective_threshold cfg b
unfolding effective_threshold
same_threshold cfg b b' e =
    ap (λ t. if ltb_ℤ t cfg.ble_beacon_min_near_rssi then cfg.ble_beacon_min_near_rssi else t) e

-- Readings of one beacon, the last one first.
unfoldable pub classify_back : Config → List (ℕ × ℤ) → Beacon → Beacon
unfolding classify
classify_back cfg [] b = b
classify_back cfg ((now, rssi) ∷ rs) b = classify cfg now rssi (classify_back cfg rs b)

-- The last readings, back to one of that time, are all at the threshold.
abbrev pub AtThresholdSince : ℤ → ℕ → List (ℕ × ℤ) → Type 0
AtThresholdSince threshold since [] = ⊥
AtThresholdSince threshold since ((now, rssi) ∷ rs) =
    (leb_ℤ threshold rssi ≡ true) × ((since ≡ now) ⊎ AtThresholdSince threshold since rs)

-- A candidate's start is that of such a run; a beacon that is near need not be one.
abbrev Started : ℤ → List (ℕ × ℤ) → Beacon → Type 0
Started threshold rs b =
    is_near b.state ≡ false → b.near_since ≢ 0 → AtThresholdSince threshold b.near_since rs

-- One reading of a beacon that is not near.
classified :
    (cfg : Config) (now : ℕ) (rssi : ℤ) (b : Beacon)
    → let b' = classify cfg now rssi b in
      (b'.near_since ≡ 0)
      ⊎ ((leb_ℤ (effective_threshold cfg b) rssi ≡ true)
          × ((b'.near_since ≡ now) ⊎ (b'.near_since ≡ b.near_since)))
      ⊎ ((is_near b.state ≡ true) × (is_near b'.state ≡ true))
unfolding classify
classified cfg now rssi b = ground arith

stays_near :
    (cfg : Config) (now : ℕ) (rssi : ℤ) (b : Beacon)
    → is_near b.state ≡ true
    → leb_ℤ (effective_threshold cfg b) rssi ≡ true
    → is_near (classify cfg now rssi b).state ≡ true
unfolding classify
stays_near cfg now rssi b n h = ground arith

comes_near :
    (cfg : Config) (now : ℕ) (rssi : ℤ) (b : Beacon)
    → let b' = classify cfg now rssi b in
      is_near b.state ≡ false
      → is_near b'.state ≡ true
      → (leb_ℤ (effective_threshold cfg b) rssi ≡ true)
        × (cfg.ble_beacon_near_sustain_s ≤ (now - b'.near_since) / 1000000)
        × ((b'.near_since ≡ now) ⊎ ((b.near_since ≢ 0) × (b'.near_since ≡ b.near_since)))
unfolding classify
comes_near cfg now rssi b n m = ground arith

module _ (cfg : Config) where
  Started-classify :
      (now : ℕ) (rssi : ℤ) (rs : List (ℕ × ℤ)) (b : Beacon)
      → Started (effective_threshold cfg b) rs b
      → Started (effective_threshold cfg b) ((now, rssi) ∷ rs) (classify cfg now rssi b)
  Started-classify now rssi rs b s n z = elim (classified cfg now rssi b) [
    | inl none ↦ absurd (z none)
    | inr (inl (h, inl e)) ↦ (h, inl e)
    | inr (inl (h, inr e)) ↦ elim (Bool-cases (is_near b.state)) [
      | inl near ↦ absurd (ground (arith, n, stays_near cfg now rssi b near h))
      | inr far ↦ (
        h,
        inr (
            subst (λ t. AtThresholdSince (effective_threshold cfg b) t rs) (sym e)
              (s far (λ y. z (e ∙ y)))),
      )
    ]
    | inr (inr (_, near)) ↦ absurd (ground (arith, n, near))
  ]

  classify_back-threshold :
      (rs : List (ℕ × ℤ)) (b : Beacon)
      → effective_threshold cfg (classify_back cfg rs b) ≡ effective_threshold cfg b
  unfolding classify_back
  classify_back-threshold [] b = refl
  classify_back-threshold ((now, rssi) ∷ rs) b =
      same_threshold cfg (classify_back cfg rs b) (classify cfg now rssi (classify_back cfg rs b))
        (classify-threshold cfg now rssi (classify_back cfg rs b))
      ∙ classify_back-threshold rs b

  Started-back :
      (rs : List (ℕ × ℤ)) (b : Beacon)
      → b.near_since ≡ 0
      → Started (effective_threshold cfg b) rs (classify_back cfg rs b)
  unfolding classify_back
  Started-back [] b z = λ n y. absurd (y z)
  Started-back ((now, rssi) ∷ rs) b z =
      subst (λ t. Started t ((now, rssi) ∷ rs) (classify cfg now rssi (classify_back cfg rs b)))
        (classify_back-threshold rs b)
        (Started-classify now rssi rs (classify_back cfg rs b) (
          subst (λ t. Started t rs (classify_back cfg rs b)) (sym (classify_back-threshold rs b))
            (Started-back rs b z)))

  -- A beacon that had no candidate run, and after any readings comes near by the next one, has had
  -- only readings at or above its threshold since one that is the sustain time old.
  pub near_is_sustained :
      (now : ℕ) (rssi : ℤ) (rs : List (ℕ × ℤ)) (b : Beacon)
      → b.near_since ≡ 0
      → is_near (classify_back cfg rs b).state ≡ false
      → is_near (classify_back cfg ((now, rssi) ∷ rs) b).state ≡ true
      → (since : ℕ) × AtThresholdSince (effective_threshold cfg b) since ((now, rssi) ∷ rs)
        × (cfg.ble_beacon_near_sustain_s ≤ (now - since) / 1000000)
  unfolding classify_back
  near_is_sustained now rssi rs b z n m =
      let b1 = classify_back cfg rs b in
      let c = comes_near cfg now rssi b1 n m in
      (
        (classify cfg now rssi b1).near_since,
        (
          subst (λ t. leb_ℤ t rssi ≡ true) (classify_back-threshold rs b) c.0,
          elim (c.2) [
            | inl e ↦ inl e
            | inr (y, e) ↦ inr (
                subst (λ t. AtThresholdSince (effective_threshold cfg b) t rs) (sym e)
                  (Started-back rs b z n y))
          ],
        ),
        c.1,
      )

-- A beacon that is near stays near through any readings that dip no further than the hysteresis.
pub dips_keep_near :
    (cfg : Config) (rs : List (ℕ × ℤ)) (b : Beacon)
    → is_near b.state ≡ true
    → NotFar cfg (effective_threshold cfg b) rs
    → is_near (classify_all cfg rs b).state ≡ true
unfolding classify_all
dips_keep_near cfg [] b n f = n
dips_keep_near cfg ((now, rssi) ∷ rs) b n (f, fs) =
    dips_keep_near cfg rs b' (classify-near cfg now rssi b n f) (
      subst (λ t. NotFar cfg t rs)
        (sym (same_threshold cfg b b' (classify-threshold cfg now rssi b))) fs)
  where
    b' : Beacon
    b' = classify cfg now rssi b

-- The event of a beacon is queued exactly when it comes near while the unit is armed, if the
-- queue has room.
pub coming_near_queues :
    (cfg : Config) (env : Env) (b b' : Beacon) (w : World)
    → length w.distress_queue < queue_capacity
    → (report_change cfg env b b' w).distress_queue ≡ (
        if not (is_near b.state) && (is_near b'.state && is_armed w.bus.state)
        then w.distress_queue ++ near_event env b' ∷ []
        else w.distress_queue)
unfolding report_change publish queue_send
coming_near_queues cfg env b b' w room = ground arith

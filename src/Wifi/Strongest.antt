-- ===== src/Wifi/Strongest.antt =====
-- The scan of main/wifi.c selects the configured network with the strongest signal.
use van_child_safety.Base.{
  ℕ, ◌≡◌, ◌⊎◌, inl, inr, refl, sym, ap, ◌∙◌, Option, none, some, List, [], ◌∷◌, arith, Bool-cases,
}
use van_child_safety.Base.Int.{ℤ, negsuc, ◌≤ℤ◌, ltb_ℤ}
use van_child_safety.Roster.Distinct.{All}
use van_child_safety.Wifi.Networks.{
  Networks, ApRecord, Best, better, best_of, no_best, network_index_for_ssid,
}

abbrev pub Any {ℓ} : {A : Type ℓ} → (A → Type 0) → List A → Type 0
Any P [] = ⊥
Any P (x ∷ xs) = P x ⊎ Any P xs

≤ℤ_trans : (a b c : ℤ) → a ≤ℤ b → b ≤ℤ c → a ≤ℤ c
≤ℤ_trans a b c h k = omega (arith, h, k)

≤ℤ_refl : (a : ℤ) → a ≤ℤ a
≤ℤ_refl a = omega arith

module _ (nets : Networks) where
  -- A record of no configured network, or no stronger than a signal.
  abbrev pub NoStronger : ℤ → ApRecord → Type 0
  NoStronger rssi r = (network_index_for_ssid nets r.ssid ≡ none) ⊎ (r.rssi ≤ℤ rssi)

  -- A record of the network and of the signal.
  abbrev pub Heard : Best → ApRecord → Type 0
  Heard b r =
      (n : ℕ) × (network_index_for_ssid nets r.ssid ≡ some n)
      × (b.network ≡ some n)
      × (r.rssi ≡ b.rssi)

  better_rises :
      (o : Option ℕ) (rssi : ℤ) (b : Best)
      → (b.rssi ≤ℤ (better o rssi b).rssi)
        × ((o ≡ none) ⊎ (rssi ≤ℤ (better o rssi b).rssi))
        × ((better o rssi b ≡ b)
            ⊎ ((n : ℕ) × (o ≡ some n)
                × ((better o rssi b).network ≡ some n)
                × (rssi ≡ (better o rssi b).rssi)))
  better_rises none rssi b = (omega arith, inl refl, inl refl)
  better_rises (some n) rssi b = elim (Bool-cases (ltb_ℤ b.rssi rssi)) [
    | inl e ↦ rw e (ground (arith, e), inr (≤ℤ_refl rssi), inr (n, refl, refl, refl))
    | inr e ↦ rw e (≤ℤ_refl b.rssi, inr (ground (arith, e)), inl refl)
  ]

  -- What the loop ends with: no weaker than what it started with, no record of a configured network
  -- is stronger, and it is what it started with or was heard.
  best_of_rises :
      (rs : List ApRecord) (b : Best)
      → (b.rssi ≤ℤ (best_of nets rs b).rssi)
        × All (NoStronger (best_of nets rs b).rssi) rs
        × ((best_of nets rs b ≡ b) ⊎ Any (Heard (best_of nets rs b)) rs)
  unfolding best_of
  best_of_rises [] b = (≤ℤ_refl b.rssi, tt, inl refl)
  best_of_rises (r ∷ rs) b =
      let m = better (network_index_for_ssid nets r.ssid) r.rssi b in
      let last = best_of nets rs m in
      let first = better_rises (network_index_for_ssid nets r.ssid) r.rssi b in
      let rest = best_of_rises rs m in
      (
        ≤ℤ_trans b.rssi m.rssi last.rssi first.0 rest.0,
        (
          elim (first.1) [
            | inl e ↦ inl e
            | inr l ↦ inr (≤ℤ_trans r.rssi m.rssi last.rssi l rest.0)
          ],
          rest.1,
        ),
        elim (rest.2) [
          | inl same ↦ elim (first.2) [
            | inl kept ↦ inl (same ∙ kept)
            | inr heard ↦ inr (
                inl (
                  heard.0,
                  heard.1,
                  ap (λ (b : Best). b.network) same ∙ heard.2,
                  heard.3 ∙ ap (λ (b : Best). b.rssi) (sym same),
                ))
          ]
          | inr heard ↦ inr (inr heard)
        ],
      )

  -- Of a scan, no record of a configured network has a stronger signal than the one selected. Either
  -- no network is selected, and then that signal is -128, or there is a record of the selected
  -- network with the selected signal.
  pub scan_selects_strongest :
      (rs : List ApRecord)
      → let b = best_of nets rs no_best in
        All (NoStronger b.rssi) rs
        × (((b.network ≡ none) × (b.rssi ≡ negsuc 127)) ⊎ Any (Heard b) rs)
  scan_selects_strongest rs = let b = best_of_rises rs no_best in (b.1, selected _ (b.2))
    where
      selected :
          (b : Best)
          → (b ≡ no_best) ⊎ Any (Heard b) rs
          → ((b.network ≡ none) × (b.rssi ≡ negsuc 127)) ⊎ Any (Heard b) rs
      selected b (inl e) = inl (ap (λ (b : Best). b.network) e, ap (λ (b : Best). b.rssi) e)
      selected b (inr h) = inr h

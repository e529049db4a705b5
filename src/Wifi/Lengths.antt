-- ===== src/Wifi/Lengths.antt =====
-- A configured name that fills the driver's field for it (main/wifi.c).
use van_child_safety.Base.{
  ℕ, zero, suc, ◌+◌, ◌-◌, ◌≤◌, ◌<◌, ◌≡◌, ◌≢◌, refl, sym, ap, subst, ◌∙◌, true, false, not, ◌&&◌,
  inl, inr, Bool-cases, some, List, [], ◌∷◌, arith, length, get_or, length-take-le, ==_iff, ◌==◌,
}
use van_child_safety.Base.Text.{Text, copy_string, is_empty, same_text}
use van_child_safety.Roster.Distinct.{All}
use van_child_safety.Wifi.Networks.{
  Networks, network_is_configured, index_from, network_index_for_ssid,
}
use van_child_safety.Wifi.Station.{Attempt, Station, Scan, wifi_start}
use van_child_safety.Wifi.Targets.{
  Aimed, WifiEvent, wifi_run, Configured-inside, attempts_are_configured,
}
use van_child_safety.Wifi.Rotation.{Configured}

same_text_refl : (s : Text) → same_text s s ≡ true
unfolding same_text
same_text_refl [] = refl
same_text_refl (c ∷ s) = rw (same c, same_text_refl s) refl
  where
    same : (n : ℕ) → (n == n) ≡ true
    same n = ground arith

same_text-true : (s t : Text) → same_text s t ≡ true → s ≡ t
unfolding same_text
same_text-true [] [] h = refl
same_text-true [] (_ ∷ _) h = absurd (ground (arith, h))
same_text-true (_ ∷ _) [] h = absurd (ground (arith, h))
same_text-true (a ∷ s) (b ∷ t) h =
    ap (λ c. c ∷ s) ((==_iff a b).0 (ground (arith, h)))
    ∙ ap (λ r. b ∷ r) (same_text-true s t (ground (arith, h)))

module _ (nets : Networks) where
  -- The first entry from an index on that is the text.
  abbrev FoundFrom : Text → ℕ → List Text → Type 0
  FoundFrom ssid i ss =
      (j : ℕ) × (index_from nets ssid i ss ≡ some (i + j)) × (get_or ss j [] ≡ ssid)

  FoundFrom-later :
      (ssid : Text) (i : ℕ) (s : Text) (ss : List Text)
      → (not (is_empty s) && same_text ssid s) ≡ false
      → FoundFrom ssid (suc i) ss
      → FoundFrom ssid i (s ∷ ss)
  unfolding index_from
  FoundFrom-later ssid i s ss e f = (suc f.0, rw e (f.1 ∙ ap some (omega arith)), f.2)

  is_found :
      (ssid : Text) (i k : ℕ) (ss : List Text)
      → is_empty ssid ≡ false
      → k < length ss
      → get_or ss k [] ≡ ssid
      → FoundFrom ssid i ss
  unfolding index_from
  is_found ssid i k [] n h e = absurd (omega (arith, h))
  is_found ssid i zero (s ∷ ss) n h e = (
    0,
    subst (λ t. index_from nets ssid i (t ∷ ss) ≡ some (i + 0)) (sym e)
        (rw (n, same_text_refl ssid) (ap some (omega arith))),
    e,
  )
  is_found ssid i (suc k) (s ∷ ss) n h e =
      elim (Bool-cases (not (is_empty s) && same_text ssid s)) [
        | inl y ↦ (0, rw y (ap some (omega arith)), sym (same_text-true ssid s (ground (arith, y))))
        | inr y ↦ FoundFrom-later ssid i s ss y (is_found ssid (suc i) k ss n (omega (arith, h)) e)
      ]

  not_empty : (i : ℕ) → Configured nets i → is_empty (get_or nets.ssids i []) ≡ false
  unfolding network_is_configured
  not_empty i c = ground (arith, c)

  seen_name :
      (i : ℕ)
      → Configured nets i
      → (j : ℕ) × (network_index_for_ssid nets (get_or nets.ssids i []) ≡ some j)
        × (get_or nets.ssids j [] ≡ get_or nets.ssids i [])
  unfolding network_index_for_ssid
  seen_name i c =
      let filled = not_empty i c in
      let f =
        is_found (get_or nets.ssids i []) 0 i nets.ssids filled (Configured-inside nets c) refl in
      (f.0, rw filled (f.1 ∙ ap some (omega arith)), f.2)

  -- No attempt hands over a text as long as the field.
  shorter :
      (name : Text) (attempts : List Attempt)
      → 0 < nets.ssid_size
      → nets.ssid_size ≤ length name
      → All (Aimed nets) attempts
      → All (λ (a : Attempt). a.ssid ≢ name) attempts
  unfolding copy_string
  shorter name [] h l g = tt
  shorter name (a ∷ attempts) h l g = (differs g.0, shorter name attempts h l g.1)
    where
      differs : Aimed nets a → a.ssid ≢ name
      differs (i, c, e) same = omega (
        arith,
        length-take-le (nets.ssid_size - 1) (get_or nets.ssids i []),
        ap (λ (t : Text). length t) (sym (ap (λ (a : Attempt). a.ssid) e) ∙ same),
        h,
        l,
      )

  -- A configured name that fills the driver's field is found among the configured names when a scan
  -- hears it, but a station that made no attempt before its start makes none for that name at the
  -- start or in any events after it.
  pub full_name_is_never_joined :
      (scans : ℕ → Scan) (s s' : Station) (es : List (WifiEvent nets)) (i : ℕ)
      → Configured nets i
      → 0 < nets.ssid_size
      → nets.ssid_size ≤ length (get_or nets.ssids i [])
      → s.attempts ≡ []
      → wifi_start nets scans s ≡ some s'
      → ((j : ℕ) × (network_index_for_ssid nets (get_or nets.ssids i []) ≡ some j)
          × (get_or nets.ssids j [] ≡ get_or nets.ssids i []))
        × All (λ (a : Attempt). a.ssid ≢ get_or nets.ssids i []) (wifi_run nets es s').attempts
  full_name_is_never_joined scans s s' es i c h l n e = (
    seen_name i c,
    shorter _ _ h l
        (attempts_are_configured nets scans s s' es (subst (All (Aimed nets)) (sym n) tt) e).1,
  )

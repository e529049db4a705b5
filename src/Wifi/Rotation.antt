-- ===== src/Wifi/Rotation.antt =====
-- After a lost connection the networks of main/wifi.c take turns.
use native.Mathlib.Nat.{mod-add-mod, add-mod_right, mod-eq_of_lt, mod-mod}
use van_child_safety.Base.{
  ℕ, zero, suc, ◌+◌, ◌-◌, ◌%◌, ◌≤◌, ◌<◌, ◌≡◌, refl, ap, sym, ◌∙◌, ◌⊎◌, subst, inl, inr, true, false,
  some, List, ◌∷◌, arith, Bool-cases, ltb, length,
}
use van_child_safety.Wifi.Networks.{
  Networks, network_is_configured, next_from, next_configured_network,
}
use van_child_safety.Wifi.Station.{
  Station, Attempt, connect, try_connect_network, sta_disconnected, attempt,
}

-- Reached, or a number of steps before.
pub le-split : (o j : ℕ) → o ≤ j → (o ≡ j) ⊎ ((i : ℕ) × (j ≡ suc (o + i)))
le-split zero zero h = inl refl
le-split zero (suc j) h = inr (j, omega arith)
le-split (suc o) zero h = absurd (omega (arith, h))
le-split (suc o) (suc j) h = elim (le-split o j (omega (arith, h))) [
  | inl e ↦ inl (ap suc e)
  | inr i ↦ inr (i.0, omega (arith, i.1))
]

module _ (nets : Networks) where
  abbrev count : ℕ
  count = length nets.ssids

  abbrev pub Configured : ℕ → Type 0
  Configured i = network_is_configured nets i ≡ true

  -- What the search from an offset finds: the first one, not past the given one.
  abbrev Finds : ℕ → ℕ → ℕ → ℕ → Type 0
  Finds start offset rounds j =
      (o : ℕ) × (o ≤ j)
      × (next_from nets start offset rounds ≡ some ((start + (offset + o)) % count))
      × Configured ((start + (offset + o)) % count)

  Finds-here :
      (start offset rounds j : ℕ)
      → Configured ((start + offset) % count)
      → Finds start offset (suc rounds) j
  unfolding next_from
  Finds-here start offset rounds j e = (
    0,
    omega arith,
    rw e (ap (λ n. some (n % count)) (omega arith)),
    subst (λ n. Configured (n % count)) (omega arith) e,
  )

  Finds-later :
      (start offset rounds j : ℕ)
      → network_is_configured nets ((start + offset) % count) ≡ false
      → Finds start (suc offset) rounds j
      → Finds start offset (suc rounds) (suc j)
  unfolding next_from
  Finds-later start offset rounds j e f = (
    suc f.0,
    omega (arith, f.1),
    rw e (f.2 ∙ ap (λ n. some (n % count)) (omega arith)),
    subst (λ n. Configured (n % count)) (omega arith) f.3,
  )

  next_from-Finds :
      (start offset rounds j : ℕ)
      → j < rounds
      → Configured ((start + (offset + j)) % count)
      → Finds start offset rounds j
  next_from-Finds start offset zero j h c = absurd (omega (arith, h))
  next_from-Finds start offset (suc rounds) zero h c =
      Finds-here start offset rounds zero (subst (λ n. Configured (n % count)) (omega arith) c)
  next_from-Finds start offset (suc rounds) (suc j) h c =
      elim (Bool-cases (network_is_configured nets ((start + offset) % count))) [
        | inl e ↦ Finds-here start offset rounds (suc j) e
        | inr e ↦ Finds-later start offset rounds j e (
            next_from-Finds start (suc offset) rounds j (omega (arith, h))
              (subst (λ n. Configured (n % count)) (omega arith) c))
      ]

  same_place :
      (current position o : ℕ)
      → current % count ≡ position % count
      → (suc current + o) % count ≡ (suc position + o) % count
  same_place current position o e =
      ap (λ n. n % count) (omega arith)
      ∙ sym (mod-add-mod current count (suc o))
      ∙ ap (λ n. (n + suc o) % count) e
      ∙ mod-add-mod position count (suc o)
      ∙ ap (λ n. n % count) (omega arith)

  -- The next network after a position that stands for the current one.
  next_finds :
      (current position j : ℕ)
      → current % count ≡ position % count
      → j < count
      → Configured ((suc position + j) % count)
      → (o : ℕ) × (o ≤ j)
        × (next_configured_network nets (suc current) ≡ some ((suc position + o) % count))
        × Configured ((suc position + o) % count)
  unfolding next_configured_network
  next_finds current position j e h c =
      let f = next_from-Finds (suc current) 0 count j h (
        subst Configured (sym (same_place current position j e) ∙ ap (λ n. n % count) (omega arith))
          c) in
      let there = same_place current position f.0 e in
      (
        f.0,
        f.1,
        f.2 ∙ ap some (ap (λ n. n % count) (omega arith) ∙ there),
        subst Configured (ap (λ n. n % count) (omega arith) ∙ there) f.3,
      )

  abbrev pub disconnects : ℕ → Station → Station
  disconnects zero s = s
  disconnects (suc k) s = disconnects k (sta_disconnected nets s)

  -- An event that moves on to a network tries that one.
  moves_on :
      (s : Station) (n : ℕ)
      → next_configured_network nets (suc s.current_network) ≡ some n
      → Configured n
      → sta_disconnected nets s
        ≡ connect nets n (record s { connected = false; current_network = n })
  unfolding sta_disconnected try_connect_network
  moves_on s n e c = rw (e, c) refl

  -- At most so many events later, the last attempt is one for the network.
  abbrev TriedWithin : ℕ → ℕ → Station → Type 0
  TriedWithin most n s =
      (k : ℕ) × (rest : List Attempt) × (k ≤ most)
      × ((disconnects k s).attempts ≡ attempt nets n ∷ rest)

  tried_first :
      (s : Station) (n most : ℕ)
      → next_configured_network nets (suc s.current_network) ≡ some n
      → Configured n
      → TriedWithin (suc most) n s
  unfolding connect
  tried_first s n most e c =
      (1, s.attempts, omega arith, ap (λ (t : Station). t.attempts) (moves_on s n e c))

  current_moves :
      (s : Station) (n : ℕ)
      → next_configured_network nets (suc s.current_network) ≡ some n
      → Configured n
      → (sta_disconnected nets s).current_network ≡ n
  unfolding connect
  current_moves s n e c = ap (λ (t : Station). t.current_network) (moves_on s n e c)

  abbrev Turns : ℕ → Type 0
  Turns fuel =
      (j : ℕ) (s : Station) (position : ℕ)
      → j < fuel
      → j < count
      → s.current_network % count ≡ position % count
      → Configured ((suc position + j) % count)
      → TriedWithin (suc j) ((suc position + j) % count) s

  Turns-later :
      (j o i : ℕ) (s : Station) (position : ℕ)
      → Turns j
      → j < count
      → j ≡ suc (o + i)
      → next_configured_network nets (suc s.current_network) ≡ some ((suc position + o) % count)
      → Configured ((suc position + o) % count)
      → Configured ((suc position + j) % count)
      → TriedWithin (suc j) ((suc position + j) % count) s
  Turns-later j o i s position before h m e d c =
      let t =
        before i (sta_disconnected nets s) (suc position + o) (omega (arith, m))
          (omega (arith, h, m))
          (ap (λ n. n % count) (current_moves s _ e d) ∙ mod-mod (suc position + o) count)
          (subst (λ n. Configured (n % count)) (omega (arith, m)) c) in
      (
        suc t.0,
        t.1,
        omega (arith, t.2, m),
        t.3 ∙ ap (λ n. attempt nets (n % count) ∷ t.1) (omega (arith, m)),
      )

  turns : (fuel : ℕ) → Turns fuel
  turns zero j s position f h e c = absurd (omega (arith, f))
  turns (suc fuel) j s position f h e c =
      let n = next_finds s.current_network position j e h c in
      elim (le-split n.0 j n.1) [
        | inl same ↦
            subst (λ o. TriedWithin (suc j) ((suc position + o) % count) s) same
              (tried_first s _ j n.2 n.3)
        | inr more ↦
            Turns-later j n.0 more.0 s position (λ i t q l. turns fuel i t q (omega (arith, l, f)))
              h more.1 n.2 n.3 c
      ]

  -- The position of a network after the current one.
  place_of :
      (current n : ℕ)
      → current < count
      → n < count
      → (j : ℕ) × (j < count) × ((suc current + j) % count ≡ n)
  place_of current n h l = elim (Bool-cases (ltb current n)) [
    | inl e ↦ (
      n - suc current,
      ground (arith, l),
      ap (λ m. m % count) (ground (arith, e)) ∙ mod-eq_of_lt l,
    )
    | inr e ↦ (
      n + count - suc current,
      ground (arith, e, h),
      ap (λ m. m % count) (omega (arith, h)) ∙ add-mod_right n count ∙ mod-eq_of_lt l,
    )
  ]

  -- Whatever network is the current one, every configured network is tried within as many lost
  -- connections as there are networks.
  pub every_network_is_tried :
      (s : Station) (n : ℕ)
      → s.current_network < count
      → Configured n
      → (k : ℕ) × (rest : List Attempt) × (k ≤ count)
        × ((disconnects k s).attempts ≡ attempt nets n ∷ rest)
  unfolding network_is_configured
  every_network_is_tried s n h c =
      let p = place_of s.current_network n h (ground (arith, c)) in
      let t = turns count p.0 s s.current_network p.1 p.1 refl (subst Configured (sym p.2) c) in
      (t.0, t.1, omega (arith, t.2, p.1), t.3 ∙ ap (λ m. attempt nets m ∷ t.1) p.2)

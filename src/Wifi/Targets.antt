-- ===== src/Wifi/Targets.antt =====
-- The station of main/wifi.c only ever connects to configured networks.
use van_child_safety.Base.{
  ℕ, zero, suc, ◌+◌, ◌%◌, ◌≤◌, ◌<◌, ◌≡◌, refl, sym, ◌∙◌, inl, inr, subst, Bool, true, false, not,
  ◌&&◌, Option, none, some, List, [], ◌∷◌, arith, ltb, if◌then◌else◌, Bool-cases, length, take,
  get_or,
}
use van_child_safety.Base.Int.{ℤ, ltb_ℤ}
use van_child_safety.Base.Text.{Text, is_empty, same_text}
use van_child_safety.Roster.Distinct.{All}
use van_child_safety.Wifi.Networks.{
  Networks, ApRecord, Best, better, best_of, no_best, network_is_configured, next_from,
  next_configured_network, index_from, network_index_for_ssid,
}
use van_child_safety.Wifi.Station.{
  Attempt, Station, Scan, attempt, connect, try_connect_network, sta_start, move_to,
  sta_disconnected, got_ip, take_scan, scan_networks, wifi_start, start_on, check_connection,
}
use van_child_safety.Wifi.Rotation.{Configured, disconnects, every_network_is_tried}

module _ (nets : Networks) where
  pub Configured-inside : {i : ℕ} → Configured nets i → i < length nets.ssids
  unfolding network_is_configured
  Configured-inside c = ground (arith, c)

  -- For a configured network.
  abbrev pub Aimed : Attempt → Type 0
  Aimed a = (i : ℕ) × Configured nets i × (a ≡ attempt nets i)

  -- On a configured network, with attempts for configured networks alone.
  abbrev pub IsStation : Station → Type 0
  IsStation s = Configured nets s.current_network × All Aimed s.attempts

  -- An index, if there is one, is that of a configured network.
  abbrev Sound : Option ℕ → Type 0
  Sound none = Unit
  Sound (some n) = Configured nets n

  next_from-Sound : (start offset rounds : ℕ) → Sound (next_from nets start offset rounds)
  unfolding next_from
  next_from-Sound start offset zero = tt
  next_from-Sound start offset (suc rounds) =
      elim (Bool-cases (network_is_configured nets ((start + offset) % length nets.ssids))) [
        | inl e ↦ rw e e
        | inr e ↦ rw e (next_from-Sound start (suc offset) rounds)
      ]

  connect-IsStation :
      (i : ℕ) (s : Station) → Configured nets i → IsStation s → IsStation (connect nets i s)
  unfolding connect
  connect-IsStation i s c h = (h.0, ((i, c, refl), h.1))

  move_to-IsStation :
      (o : Option ℕ) (s : Station) → Sound o → IsStation s → IsStation (move_to nets o s)
  move_to-IsStation none s c h = h
  move_to-IsStation (some n) s c h = (c, h.1)

  try-IsStation :
      (s : Station) → IsStation s → IsStation (try_connect_network nets s.current_network s)
  unfolding try_connect_network
  try-IsStation s h = rw (h.0) (connect-IsStation s.current_network s h.0 h)

  -- What the driver and the task do to the station after the start.
  pub data WifiEvent : Type 0 where
    started disconnected addressed : WifiEvent
    checked : Option ℤ → Bool → WifiEvent

  abbrev pub wifi_step : WifiEvent → Station → Station
  wifi_step WifiEvent.started s = sta_start nets s
  wifi_step WifiEvent.disconnected s = sta_disconnected nets s
  wifi_step WifiEvent.addressed s = got_ip nets s
  wifi_step (WifiEvent.checked rssi taken) s = check_connection nets rssi taken s

  abbrev pub wifi_run : List WifiEvent → Station → Station
  wifi_run [] s = s
  wifi_run (e ∷ es) s = wifi_run es (wifi_step e s)

  next-Sound : (start : ℕ) → Sound (next_configured_network nets start)
  unfolding next_configured_network
  next-Sound start = next_from-Sound start 0 (length nets.ssids)

  either-IsStation :
      (b : Bool) (s t : Station) → IsStation s → IsStation t → IsStation (if b then s else t)
  either-IsStation true s t h k = h
  either-IsStation false s t h k = k

  sta_start-IsStation : (s : Station) → IsStation s → IsStation (sta_start nets s)
  unfolding sta_start
  sta_start-IsStation s h =
      either-IsStation s.initial_scan_done _ _ (try-IsStation (record s { started = true }) h) h

  sta_disconnected-IsStation : (s : Station) → IsStation s → IsStation (sta_disconnected nets s)
  unfolding sta_disconnected
  sta_disconnected-IsStation s h =
      try-IsStation _ (
        move_to-IsStation _ (record s { connected = false }) (next-Sound (suc s.current_network)) h)

  step-IsStation : (e : WifiEvent) (s : Station) → IsStation s → IsStation (wifi_step e s)
  unfolding got_ip check_connection
  step-IsStation WifiEvent.started s h = sta_start-IsStation s h
  step-IsStation WifiEvent.disconnected s h = sta_disconnected-IsStation s h
  step-IsStation WifiEvent.addressed s h = h
  step-IsStation (WifiEvent.checked none taken) s h = try-IsStation s h
  step-IsStation (WifiEvent.checked (some rssi) true) s h = h
  step-IsStation (WifiEvent.checked (some rssi) false) s h = h

  pub run-IsStation : (es : List WifiEvent) (s : Station) → IsStation s → IsStation (wifi_run es s)
  run-IsStation [] s h = h
  run-IsStation (e ∷ es) s h = run-IsStation es (wifi_step e s) (step-IsStation e s h)

  -- An index into a part of the list that starts at `i`.
  abbrev SoundFrom : ℕ → List Text → Option ℕ → Type 0
  SoundFrom i ss none = Unit
  SoundFrom i ss (some n) =
      (k : ℕ) × (n ≡ i + k) × ((ltb k (length ss) && not (is_empty (get_or ss k []))) ≡ true)

  SoundFrom-later :
      (i : ℕ) (s : Text) (ss : List Text) (o : Option ℕ)
      → SoundFrom (suc i) ss o
      → SoundFrom i (s ∷ ss) o
  SoundFrom-later i s ss none h = tt
  SoundFrom-later i s ss (some n) h = (suc h.0, omega (arith, h.1), ground (arith, h.2))

  index_from-SoundFrom :
      (ssid : Text) (i : ℕ) (ss : List Text) → SoundFrom i ss (index_from nets ssid i ss)
  unfolding index_from
  index_from-SoundFrom ssid i [] = tt
  index_from-SoundFrom ssid i (s ∷ ss) = elim (Bool-cases (not (is_empty s) && same_text ssid s)) [
    | inl e ↦ rw e (0, omega arith, ground (arith, e))
    | inr e ↦ rw e (SoundFrom-later i s ss _ (index_from-SoundFrom ssid (suc i) ss))
  ]

  Sound-SoundFrom : (o : Option ℕ) → SoundFrom 0 nets.ssids o → Sound o
  unfolding network_is_configured
  Sound-SoundFrom none h = tt
  Sound-SoundFrom (some n) h = subst (Configured nets) (sym (h.1 ∙ omega arith)) (h.2)

  network_index-Sound : (ssid : Text) → Sound (network_index_for_ssid nets ssid)
  unfolding network_index_for_ssid
  network_index-Sound [] = tt
  network_index-Sound (c ∷ ssid) = Sound-SoundFrom _ (index_from-SoundFrom (c ∷ ssid) 0 nets.ssids)

  better-Sound :
      (o : Option ℕ) (rssi : ℤ) (b : Best)
      → Sound o
      → Sound b.network
      → Sound (better o rssi b).network
  better-Sound none rssi b h k = k
  better-Sound (some n) rssi b h k = elim (Bool-cases (ltb_ℤ b.rssi rssi)) [
    | inl e ↦ rw e h
    | inr e ↦ rw e k
  ]

  best_of-Sound :
      (rs : List ApRecord) (b : Best) → Sound b.network → Sound (best_of nets rs b).network
  unfolding best_of
  best_of-Sound [] b h = h
  best_of-Sound (r ∷ rs) b h =
      best_of-Sound rs _ (better-Sound _ r.rssi b (network_index-Sound r.ssid) h)

  take_scan-IsStation :
      (scan : Scan) (s : Station) → IsStation s → IsStation (take_scan nets scan s).0
  unfolding take_scan
  take_scan-IsStation Scan.refused s h = h
  take_scan-IsStation (Scan.counted n none) s h = h
  take_scan-IsStation (Scan.counted n (some records)) s h =
      move_to-IsStation _ s (best_of-Sound (take _ records) no_best tt) h

  scan_networks-IsStation :
      (k : ℕ) (scans : ℕ → Scan) (s : Station)
      → IsStation s
      → IsStation (scan_networks nets k scans s)
  unfolding scan_networks
  scan_networks-IsStation zero scans s h = h
  scan_networks-IsStation (suc k) scans s h =
      let t = take_scan-IsStation (scans 0) s h in
      elim (Bool-cases (ltb 0 (take_scan nets (scans 0) s).1)) [
        | inl e ↦ rw e t
        | inr e ↦ rw e (scan_networks-IsStation k (λ i. scans (suc i)) _ t)
      ]

  -- The station with its first network, and no attempt yet.
  abbrev pub Started : Option Station → Type 0
  Started none = Unit
  Started (some s) = IsStation s

  start_on-Started :
      (o : Option ℕ) (scans : ℕ → Scan) (s : Station)
      → Sound o
      → All Aimed s.attempts
      → Started (start_on nets o scans s)
  unfolding start_on
  start_on-Started none scans s c h = tt
  start_on-Started (some n) scans s c h =
      let first = record s { current_network = n } in
      let scanned = scan_networks-IsStation 3 scans _ (sta_start-IsStation first (c, h)) in
      try-IsStation
        (record (scan_networks nets 3 scans (sta_start nets first)) { initial_scan_done = true })
        scanned

  wifi_start-Started :
      (scans : ℕ → Scan) (s : Station) → All Aimed s.attempts → Started (wifi_start nets scans s)
  unfolding wifi_start
  wifi_start-Started scans s h = start_on-Started _ scans s (next-Sound 0) h

  -- After the start, whatever the scans found and whatever events follow, the current network is a
  -- configured one, and every attempt so far was for a configured network.
  pub attempts_are_configured :
      (scans : ℕ → Scan) (s s' : Station) (es : List WifiEvent)
      → All Aimed s.attempts
      → wifi_start nets scans s ≡ some s'
      → IsStation (wifi_run es s')
  attempts_are_configured scans s s' es h e =
      run-IsStation es s' (subst Started e (wifi_start-Started scans s h))

  -- After any such history a configured network is tried within as many lost connections as there
  -- are networks in the list.
  pub network_is_tried_in_time :
      (scans : ℕ → Scan) (s s' : Station) (es : List WifiEvent) (n : ℕ)
      → All Aimed s.attempts
      → wifi_start nets scans s ≡ some s'
      → Configured nets n
      → (k : ℕ) × (rest : List Attempt) × (k ≤ length nets.ssids)
        × ((disconnects nets k (wifi_run es s')).attempts ≡ attempt nets n ∷ rest)
  network_is_tried_in_time scans s s' es n h e c =
      every_network_is_tried nets (wifi_run es s') n
        (Configured-inside (attempts_are_configured scans s s' es h e).0) c

-- ===== src/Ble/Scanner.antt =====
-- `process_device`, `check_absent` and the health report of main/ble_scanner.c.
use van_child_safety.Base.{
  ℕ, ◌+◌, ◌-◌, ◌*◌, ◌/◌, Bool, true, false, not, ◌&&◌, Option, none, some, List, [], ◌∷◌, ltb, leb,
  ◌==◌, if◌then◌else◌, set, drop,
}
use van_child_safety.Base.Int.{ℤ, pos, pos_part, neg_part, ltb_ℤ, leb_ℤ}
use van_child_safety.Types.{SensorStatus, Beacon, BeaconState}
use van_child_safety.World.{World, Env, TakeSite, Config, BusEvent, Message, publish, queue_send}
use van_child_safety.Roster.Near.{is_near, near_event}
use van_child_safety.Bus.Locked.{is_armed}
use van_child_safety.Bus.Transitions.{publish_event}
use van_child_safety.Ble.Advert.{find_device}

-- `beacon_config_get`.
unfoldable pub beacon_config_get : ℕ → List Beacon → Option Beacon
beacon_config_get i bs = first (drop i bs)
  where
    first : List Beacon → Option Beacon
    first [] = none
    first (b ∷ _) = some b

abbrev pub same_beacon_state : BeaconState → BeaconState → Bool
same_beacon_state BeaconState.absent BeaconState.absent = true
same_beacon_state BeaconState.far BeaconState.far = true
same_beacon_state BeaconState.near BeaconState.near = true
same_beacon_state _ _ = false

module _ (cfg : Config) where
  -- `beacon_config_effective_rssi_threshold`.
  unfoldable pub effective_threshold : Beacon → ℤ
  effective_threshold b =
      if ltb_ℤ b.rssi_threshold cfg.ble_beacon_min_near_rssi
      then cfg.ble_beacon_min_near_rssi
      else b.rssi_threshold

  -- `rssi < effective_threshold - FAR_HYSTERESIS`.
  unfoldable pub far_below : ℤ → ℤ → Bool
  far_below rssi threshold =
      ltb (pos_part rssi + cfg.ble_beacon_far_hysteresis_db + neg_part threshold)
        (pos_part threshold + neg_part rssi)

  -- The entry after a reading; `since` is `near_since` once a reading at the threshold began it.
  unfoldable pub classify : ℕ → ℤ → Beacon → Beacon
  unfolding effective_threshold far_below
  classify now rssi b =
      let seen = record b { rssi = rssi; last_seen = now } in
      let since = if b.near_since == 0 then now else b.near_since in
      if far_below rssi (effective_threshold b)
      then record seen { state = BeaconState.far; near_since = 0 }
      else if leb_ℤ (effective_threshold b) rssi
      then record seen {
        near_since = since;
        state =
            if leb cfg.ble_beacon_near_sustain_s ((now - since) / 1000000)
            then BeaconState.near
            else b.state;
      }
      else if is_near b.state
      then seen
      else record seen { state = BeaconState.far; near_since = 0 }

  -- What a change of state publishes, and the event of a beacon that comes near while armed.
  unfoldable pub report_change : Env → Beacon → Beacon → World → World
  unfolding publish is_armed queue_send near_event
  report_change env b b' w =
      if same_beacon_state b'.state b.state
      then w
      else let w' = publish (Message.beacon_state b'.name b'.state b'.rssi) w in
        if is_near b'.state && is_armed w.bus.state
        then (queue_send (near_event env b') w').0
        else w'

  abbrev pub process_entry : Env → ℕ → ℤ → Option Beacon → World → World
  process_entry env i rssi none w = w
  process_entry env i rssi (some b) w =
      let b' = classify env.now rssi b in
      report_change env b b' (record w { beacons = set w.beacons i b' })

  abbrev pub process_found : Env → ℤ → Option ℕ → World → World
  process_found env rssi none w = w
  process_found env rssi (some i) w = process_entry env i rssi (beacon_config_get i w.beacons) w

  -- `process_device`.
  unfoldable pub process_device : Env → List ℕ → ℤ → List ℕ → World → World
  unfolding find_device classify report_change beacon_config_get
  process_device env mac rssi adv w = process_found env rssi (find_device w.beacons mac adv) w

  -- `now - entry->last_seen > timeout_us` of an entry that is not absent.
  unfoldable pub timed_out : ℕ → Beacon → Bool
  timed_out now b =
      b.active
      && (not (same_beacon_state b.state BeaconState.absent)
          && ltb (b.last_seen + cfg.ble_beacon_absent_timeout_s * 1000000) now)

  -- What is published of an entry that goes absent.
  unfoldable pub announce_absent : Beacon → World → World
  unfolding publish is_armed publish_event
  announce_absent b w =
      let w' = publish (Message.beacon_state b.name BeaconState.absent (pos 0)) w in
      if is_armed w.bus.state && is_near b.state
      then publish_event (BusEvent.beacon_silent_while_armed b.name) w'
      else w'

  -- The entries after `check_absent`.
  unfoldable pub absent_entries : ℕ → List Beacon → List Beacon
  unfolding timed_out
  absent_entries now [] = []
  absent_entries now (b ∷ bs) =
      (if timed_out now b then record b { state = BeaconState.absent; near_since = 0 } else b)
      ∷ absent_entries now bs

  -- What it publishes, entry by entry.
  unfoldable pub announce_entries : ℕ → List Beacon → World → World
  unfolding timed_out announce_absent
  announce_entries now [] w = w
  announce_entries now (b ∷ bs) w =
      announce_entries now bs (if timed_out now b then announce_absent b w else w)

  -- `check_absent`.
  unfoldable pub check_absent : Env → World → World
  unfolding absent_entries announce_entries
  check_absent env w =
      let w' = announce_entries env.now w.beacons w in
      record w' { beacons = absent_entries env.now w.beacons }

-- The end of the loop of `ble_scan_task`: no result for 90 s is stale.
unfoldable pub scan_health : Env → ℕ → ℕ → World → World
scan_health env last_scan_us drops w =
    if env.taken TakeSite.ble_health
    then record w {
      telemetry = record w.telemetry {
        ble_last_scan_us = last_scan_us;
        ble_scan_drop_count = drops;
        ble_status =
            if ltb (last_scan_us + 90000000) env.now then SensorStatus.stale else SensorStatus.ok;
      };
    }
    else w

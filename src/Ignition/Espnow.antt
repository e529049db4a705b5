-- ===== src/Ignition/Espnow.antt =====
-- The ESP-NOW source, main/ignition_espnow.c.
use van_child_safety.Base.{
  ℕ, ◌+◌, ◌-◌, ◌*◌, ◌%◌, Bool, true, false, not, ◌&&◌, List, ltb, leb, ◌==◌, if◌then◌else◌, length,
}
use van_child_safety.Base.Int.{ℤ, pos, negsuc}
use van_child_safety.Base.Text.{Text, codes}
use van_child_safety.Types.{IgnitionStatus}
use van_child_safety.World.{Config}
use van_child_safety.Ignition.Wire.{Heartbeat, heartbeat_size, decode_heartbeat, fnv1a32}

-- `s_magic` to `s_status`; a receive time of 0 stands for never.
pub record Espnow : Type 0 where
  pub magic : ℕ
  pub last_rx_us : ℕ
  pub last_heartbeat : Heartbeat
  pub missed_seq : ℕ
  pub synchronized : Bool
  pub boot_at : ℕ
  pub initialized : Bool
  pub status : IgnitionStatus

abbrev pub power_on_espnow : Espnow
power_on_espnow = record {
  magic = 0;
  last_rx_us = 0;
  last_heartbeat = record { magic = 0; seq = 0; uptime_s = 0; battery_mv = 0 };
  missed_seq = 0;
  synchronized = false;
  boot_at = 0;
  initialized = false;
  status = IgnitionStatus.boot;
}

-- `HEARTBEAT_TIMEOUT_US` and `BOOT_GRACE_US`.
abbrev pub heartbeat_timeout_us : Config → ℕ
heartbeat_timeout_us cfg = cfg.espnow_heartbeat_timeout_ms * 1000

abbrev pub boot_grace_us : Config → ℕ
boot_grace_us cfg = cfg.espnow_boot_grace_s * 1000000

-- `uint16_t delta = hb.seq - s_last_heartbeat.seq`.
unfoldable pub seq_delta : ℕ → ℕ → ℕ
seq_delta seq last = (seq + (65536 - last)) % 65536

-- Gap detection.
unfoldable pub count_missed : Heartbeat → Espnow → ℕ
unfolding seq_delta
count_missed hb s =
    if s.synchronized
    then (let delta = seq_delta hb.seq s.last_heartbeat.seq in
        if ltb 1 delta && ltb delta 0x8000
        then (s.missed_seq + (delta - 1)) % 65536
        else s.missed_seq)
    else s.missed_seq

-- The end of `espnow_recv_cb`: what has another magic is ignored.
unfoldable pub accept_heartbeat : ℕ → Heartbeat → Espnow → Espnow
unfolding count_missed
accept_heartbeat now hb s = if not (hb.magic == s.magic) then s else record s {
  missed_seq = count_missed hb s;
  last_heartbeat = hb;
  last_rx_us = now;
  synchronized = true;
  status = IgnitionStatus.ok;
}

-- `espnow_recv_cb`: what is short is ignored.
unfoldable pub espnow_recv : ℕ → List ℕ → Espnow → Espnow
unfolding decode_heartbeat accept_heartbeat
espnow_recv now bytes s =
    if ltb (length bytes) heartbeat_size then s else accept_heartbeat now (decode_heartbeat bytes) s

-- `ignition_init`, once Wi-Fi has started; the Booleans are what `esp_now_init` and
-- `esp_now_register_recv_cb` return.
unfoldable pub ignition_init : ℕ → Text → Bool → Bool → Espnow → Espnow
unfolding fnv1a32
ignition_init now secret init_ok register_ok s =
    let s' = record s { boot_at = now; magic = fnv1a32 secret } in
    if not init_ok
    then record s' { status = IgnitionStatus.error; initialized = false }
    else if not register_ok
    then record s' { status = IgnitionStatus.error }
    else record s' { initialized = true }

-- `ignition_get`.
unfoldable pub ignition_get : Config → ℕ → Espnow → Bool × Espnow
ignition_get cfg now s =
    if not s.initialized
    then (false, s)
    else if ltb now (s.boot_at + boot_grace_us cfg) && s.last_rx_us == 0
    then (true, s)
    else if s.last_rx_us == 0
    then (false, record s { status = IgnitionStatus.stale })
    else if leb (s.last_rx_us + heartbeat_timeout_us cfg) now
    then (false, record s { status = IgnitionStatus.stale })
    else (true, record s { status = IgnitionStatus.ok })

unfoldable pub ignition_source_status_name : IgnitionStatus → Text
ignition_source_status_name IgnitionStatus.ok = codes "ok"
ignition_source_status_name IgnitionStatus.stale = codes "stale"
ignition_source_status_name IgnitionStatus.error = codes "error"
ignition_source_status_name IgnitionStatus.boot = codes "boot"
ignition_source_status_name IgnitionStatus.overridden = codes "overridden"

-- `ignition_espnow_diag_t`.
pub record EspnowDiag : Type 0 where
  pub last_heartbeat_age_us : ℤ
  pub remote_uptime_s : ℕ
  pub remote_battery_mv : ℕ
  pub seq : ℕ
  pub missed_seq : ℕ

unfoldable pub ignition_espnow_diag : ℕ → Espnow → EspnowDiag
ignition_espnow_diag now s = record {
  last_heartbeat_age_us = if ltb 0 s.last_rx_us then pos (now - s.last_rx_us) else negsuc 0;
  remote_uptime_s = s.last_heartbeat.uptime_s;
  remote_battery_mv = s.last_heartbeat.battery_mv;
  seq = s.last_heartbeat.seq;
  missed_seq = s.missed_seq;
}

-- ===== src/Ignition/Heartbeats.antt =====
-- What the receiver of main/ignition_espnow.c makes of the heartbeats of the remote.
use van_child_safety.Base.{
  ℕ, ◌+◌, ◌-◌, ◌%◌, ◌<◌, ◌≡◌, ◌≢◌, ◌↔◌, refl, ap, ◌∙◌, Bool, true, ◌&&◌, arith, ltb, ◌==◌,
  if◌then◌else◌,
}
use van_child_safety.Types.{IgnitionStatus}
use van_child_safety.World.{Config}
use van_child_safety.Ignition.Wire.{Heartbeat, encode_heartbeat, Fits, decode-encode, length-encode}
use van_child_safety.Ignition.Espnow.{
  Espnow, heartbeat_timeout_us, boot_grace_us, seq_delta, count_missed, accept_heartbeat,
  espnow_recv, ignition_get,
}

-- A heartbeat from the air is accepted as it was sent.
recv-encode :
    (now : ℕ) (hb : Heartbeat) (s : Espnow)
    → Fits hb
    → espnow_recv now (encode_heartbeat hb) s ≡ accept_heartbeat now hb s
unfolding espnow_recv
recv-encode now hb s f =
    rw (length-encode hb) (ap (λ h. accept_heartbeat now h s) (decode-encode hb f))

delta_lost :
    (last lost : ℕ)
    → last < 65536
    → lost < 32767
    → seq_delta ((last + 1 + lost) % 65536) last ≡ lost + 1
unfolding seq_delta
delta_lost last lost h k = omega (arith, h, k)

counted :
    (d missed lost : ℕ)
    → d ≡ lost + 1
    → lost < 32767
    → missed < 65536
    → (if ltb 1 d && ltb d 0x8000 then (missed + (d - 1)) % 65536 else missed)
      ≡ (missed + lost) % 65536
counted d missed lost e h m = ground arith

missed_lost :
    (lost : ℕ) (hb : Heartbeat) (s : Espnow)
    → s.synchronized ≡ true
    → s.last_heartbeat.seq < 65536
    → s.missed_seq < 65536
    → lost < 32767
    → hb.seq ≡ (s.last_heartbeat.seq + 1 + lost) % 65536
    → count_missed hb s ≡ (s.missed_seq + lost) % 65536
unfolding count_missed
missed_lost lost hb s y l k h q =
    simp y (counted (seq_delta hb.seq last) s.missed_seq lost delta h k)
  where
    last : ℕ
    last = s.last_heartbeat.seq

    delta : seq_delta hb.seq last ≡ lost + 1
    delta = ap (λ n. seq_delta n last) q ∙ delta_lost last lost l h

accepted :
    (now : ℕ) (hb : Heartbeat) (s : Espnow)
    → hb.magic ≡ s.magic
    → accept_heartbeat now hb s ≡ record s {
      missed_seq = count_missed hb s;
      last_heartbeat = hb;
      last_rx_us = now;
      synchronized = true;
      status = IgnitionStatus.ok;
    }
unfolding accept_heartbeat
accepted now hb s m = ground (arith, m)

-- If fewer than 32767 heartbeats of the paired remote are lost after one that arrived, and all
-- numbers fit their widths, the next heartbeat is accepted as sent and the count of missed frames
-- grows by exactly `lost`, modulo its width, across the wrap-around of the number.
pub gap_counts_lost :
    (now lost : ℕ) (hb : Heartbeat) (s : Espnow)
    → Fits hb
    → hb.magic ≡ s.magic
    → s.synchronized ≡ true
    → s.last_heartbeat.seq < 65536
    → s.missed_seq < 65536
    → lost < 32767
    → hb.seq ≡ (s.last_heartbeat.seq + 1 + lost) % 65536
    → let s' = espnow_recv now (encode_heartbeat hb) s in
      (s'.missed_seq ≡ (s.missed_seq + lost) % 65536)
      × (s'.last_heartbeat ≡ hb)
      × (s'.last_rx_us ≡ now)
gap_counts_lost now lost hb s f m y l k h q =
    rw (recv-encode now hb s f, accepted now hb s m) (missed_lost lost hb s y l k h q, refl, refl)

-- The source in one formula: on in the boot grace until a first heartbeat, and then as long as the
-- last heartbeat is younger than the timeout.
abbrev pub is_on : Config → ℕ → Espnow → Bool
is_on cfg now s =
    s.initialized
    && (if s.last_rx_us == 0
        then ltb now (s.boot_at + boot_grace_us cfg)
        else ltb now (s.last_rx_us + heartbeat_timeout_us cfg))

-- `ignition_get` is that formula, and changes nothing but the status.
pub ignition_get_lem :
    (cfg : Config) (now : ℕ) (s : Espnow)
    → let (on, s') = ignition_get cfg now s in
      (on ≡ is_on cfg now s) × (s' ≡ record s { status = s'.status })
unfolding ignition_get
ignition_get_lem cfg now s = ground arith

-- If the source is initialised, a heartbeat of the paired remote whose fields fit and that arrives
-- at a time `t` other than 0 has the next reading of the ignition on exactly before `t` plus the
-- timeout.
pub heartbeat_holds_ignition :
    (cfg : Config) (t now : ℕ) (hb : Heartbeat) (s : Espnow)
    → Fits hb
    → hb.magic ≡ s.magic
    → s.initialized ≡ true
    → t ≢ 0
    → ((ignition_get cfg now (espnow_recv t (encode_heartbeat hb) s)).0 ≡ true)
      ↔ (now < t + heartbeat_timeout_us cfg)
unfolding accept_heartbeat ignition_get
heartbeat_holds_ignition cfg t now hb s f m i n = rw (recv-encode t hb s f) (ground arith)

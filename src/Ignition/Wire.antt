-- ===== src/Ignition/Wire.antt =====
-- The heartbeat of main/ignition_espnow_protocol.h on the wire (packed, low byte first), the hash
-- that both sides derive the magic with, and the loop of ignition_remote/main/main.c that sends.
use Prim.Native.Nat.{bit_xor}
use van_child_safety.Base.{
  ℕ, suc, ◌+◌, ◌*◌, ◌/◌, ◌%◌, ◌^◌, ◌<◌, ◌≡◌, refl, List, [], ◌∷◌, arith, get_or, length,
}
use van_child_safety.Base.Text.{Text}

-- `ignition_heartbeat_t`.
pub record Heartbeat : Type 0 where
  pub magic : ℕ
  pub seq : ℕ
  pub uptime_s : ℕ
  pub battery_mv : ℕ

-- `sizeof(ignition_heartbeat_t)`.
abbrev pub heartbeat_size : ℕ
heartbeat_size = 12

-- What `esp_now_send(peer, (const uint8_t *)hb, sizeof(*hb))` puts on the air.
unfoldable pub encode_heartbeat : Heartbeat → List ℕ
encode_heartbeat h =
    h.magic % 256
    ∷ h.magic / 256 % 256
    ∷ h.magic / 65536 % 256
    ∷ h.magic / 16777216 % 256
    ∷ h.seq % 256
    ∷ h.seq / 256 % 256
    ∷ h.uptime_s % 256
    ∷ h.uptime_s / 256 % 256
    ∷ h.uptime_s / 65536 % 256
    ∷ h.uptime_s / 16777216 % 256
    ∷ h.battery_mv % 256
    ∷ h.battery_mv / 256 % 256
    ∷ []

-- `memcpy(&hb, data, sizeof(hb))`.
unfoldable pub decode_heartbeat : List ℕ → Heartbeat
decode_heartbeat bytes = record {
  magic = byte 0 + byte 1 * 256 + byte 2 * 65536 + byte 3 * 16777216;
  seq = byte 4 + byte 5 * 256;
  uptime_s = byte 6 + byte 7 * 256 + byte 8 * 65536 + byte 9 * 16777216;
  battery_mv = byte 10 + byte 11 * 256;
}
  where
    byte : ℕ → ℕ
    byte i = get_or bytes i 0

fnv_from : ℕ → Text → ℕ
fnv_from h [] = h
fnv_from h (c ∷ s) = fnv_from (bit_xor h c * 0x01000193 % 2 ^ 32) s

-- `fnv1a32`, on both sides.
unfoldable pub fnv1a32 : Text → ℕ
unfolding fnv_from
fnv1a32 s = fnv_from 0x811c9dc5 s

-- What fits its fields.
pub record Fits (h : Heartbeat) : Type 0 where
  pub magic : h.magic < 4294967296
  pub seq : h.seq < 65536
  pub uptime_s : h.uptime_s < 4294967296
  pub battery_mv : h.battery_mv < 65536

-- One round of the loop of the remote: the heartbeat, and `s_seq` after it. No supply is measured.
unfoldable pub next_heartbeat : ℕ → ℕ → ℕ → Heartbeat × ℕ
next_heartbeat now magic seq = (
  record { magic = magic; seq = seq; uptime_s = now / 1000000 % 2 ^ 32; battery_mv = 0 },
  suc seq % 2 ^ 16,
)

whole_16 : (n : ℕ) → n < 65536 → n % 256 + n / 256 % 256 * 256 ≡ n
whole_16 n h = omega (arith, h)

whole_32 :
    (n : ℕ)
    → n < 4294967296
    → n % 256 + n / 256 % 256 * 256 + n / 65536 % 256 * 65536 + n / 16777216 % 256 * 16777216 ≡ n
whole_32 n h = omega (arith, h)

-- A heartbeat whose fields fit their widths is decoded as it was encoded.
pub decode-encode : (h : Heartbeat) → Fits h → decode_heartbeat (encode_heartbeat h) ≡ h
unfolding decode_heartbeat encode_heartbeat
decode-encode h f =
    rw
      (
        whole_32 h.magic f.magic,
        whole_16 h.seq f.seq,
        whole_32 h.uptime_s f.uptime_s,
        whole_16 h.battery_mv f.battery_mv,
      )
      refl

pub length-encode : (h : Heartbeat) → length (encode_heartbeat h) ≡ heartbeat_size
unfolding encode_heartbeat
length-encode h = refl

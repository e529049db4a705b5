-- ===== src/Ignition/Remote.antt =====
-- The loop of ignition_remote/main/main.c: one heartbeat a round, on one channel or on all of them.
-- Whether the radio takes a channel and a frame is a parameter.
use van_child_safety.Base.{
  ℕ, zero, suc, ◌+◌, ◌≤◌, ◌<◌, ◌≡◌, refl, sym, subst, ◌∙◌, Bool, true, false, ◌&&◌, List, [], ◌∷◌,
  ◌++◌, inl, inr, arith, Bool-cases, ==_iff, ◌==◌, if◌then◌else◌,
}
use van_child_safety.Ignition.Wire.{Heartbeat, encode_heartbeat, next_heartbeat}

-- `esp_wifi_set_channel(c)` and `esp_now_send` on that channel succeed.
pub record Radio : Type 0 where
  pub sets : ℕ → Bool
  pub sends : ℕ → Bool

-- A frame on the air, and its channel.
pub record Frame : Type 0 where
  pub channel : ℕ
  pub bytes : List ℕ

-- `ESPNOW_MIN_CHANNEL` and `ESPNOW_MAX_CHANNEL`.
abbrev pub min_channel : ℕ
min_channel = 1

abbrev pub max_channel : ℕ
max_channel = 13

module _ (radio : Radio) where
  unfoldable pub send_heartbeat_on_channel : ℕ → Heartbeat → List Frame
  unfolding encode_heartbeat
  send_heartbeat_on_channel channel hb =
      if radio.sets channel && radio.sends channel
      then record { channel = channel; bytes = encode_heartbeat hb } ∷ []
      else []

  -- The loop over the channels, with the number of those that are left.
  unfoldable pub sweep : ℕ → ℕ → Heartbeat → List Frame
  unfolding send_heartbeat_on_channel
  sweep channel zero hb = []
  sweep channel (suc left) hb = send_heartbeat_on_channel channel hb ++ sweep (suc channel) left hb

  -- A round of the loop of `app_main`: what is on the air, and `s_seq` after it. The configured
  -- channel 0 stands for all of them.
  unfoldable pub remote_round : ℕ → ℕ → ℕ → ℕ → List Frame × ℕ
  unfolding sweep next_heartbeat
  remote_round configured now magic seq =
      let (hb, seq') = next_heartbeat now magic seq in
      (
        if configured == 0
            then sweep min_channel max_channel hb
            else send_heartbeat_on_channel configured hb,
        seq',
      )

  -- What a receiver on a channel hears.
  abbrev pub heard : ℕ → List Frame → List (List ℕ)
  heard channel [] = []
  heard channel (f ∷ fs) =
      if f.channel == channel then f.bytes ∷ heard channel fs else heard channel fs

  -- What it hears of one attempt on its own channel.
  abbrev pub own : ℕ → Heartbeat → List (List ℕ)
  own channel hb =
      if radio.sets channel && radio.sends channel then encode_heartbeat hb ∷ [] else []

  heard-own :
      (channel : ℕ) (hb : Heartbeat) (fs : List Frame)
      → heard channel fs ≡ []
      → heard channel (send_heartbeat_on_channel channel hb ++ fs) ≡ own channel hb
  unfolding send_heartbeat_on_channel
  heard-own channel hb fs h = elim (Bool-cases (radio.sets channel && radio.sends channel)) [
    | inl e ↦ rw (e, same channel, h) refl
    | inr e ↦ rw (e, h) refl
  ]
    where
      same : (n : ℕ) → (n == n) ≡ true
      same n = ground arith

  heard_other :
      (c channel : ℕ) (hb : Heartbeat) (fs : List Frame)
      → (c == channel) ≡ false
      → heard channel (send_heartbeat_on_channel c hb ++ fs) ≡ heard channel fs
  unfolding send_heartbeat_on_channel
  heard_other c channel hb fs h = elim (Bool-cases (radio.sets c && radio.sends c)) [
    | inl e ↦ rw (e, h) refl
    | inr e ↦ rw e refl
  ]

  passed :
      (first left channel : ℕ) (hb : Heartbeat)
      → channel < first
      → heard channel (sweep first left hb) ≡ []
  unfolding sweep
  passed first zero channel hb h = refl
  passed first (suc left) channel hb h =
      heard_other first channel hb (sweep (suc first) left hb) (ground (arith, h))
      ∙ passed (suc first) left channel hb (omega (arith, h))

  swept :
      (first left channel : ℕ) (hb : Heartbeat)
      → first ≤ channel
      → channel < first + left
      → heard channel (sweep first left hb) ≡ own channel hb
  unfolding sweep
  swept first zero channel hb h l = absurd (omega (arith, h, l))
  swept first (suc left) channel hb h l = elim (Bool-cases (first == channel)) [
    | inl e ↦
        subst (λ c. heard channel (sweep c (suc left) hb) ≡ own channel hb)
          (sym ((==_iff first channel).0 e))
          (heard-own channel hb (sweep (suc channel) left hb)
            (passed (suc channel) left channel hb (omega arith)))
    | inr e ↦
        heard_other first channel hb (sweep (suc first) left hb) e
        ∙ swept (suc first) left channel hb (ground (arith, h, e)) (omega (arith, l))
  ]

  -- Without a configured channel a receiver on any of the channels 1 to 13 hears the round's
  -- heartbeat exactly once, if the radio takes that channel and the frame on it, whatever it does
  -- with the others.
  pub every_channel_hears_once :
      (now magic seq channel : ℕ)
      → 1 ≤ channel
      → channel ≤ 13
      → heard channel (remote_round 0 now magic seq).0
        ≡ own channel (next_heartbeat now magic seq).0
  unfolding remote_round
  every_channel_hears_once now magic seq channel h l =
      swept 1 13 channel (next_heartbeat now magic seq).0 h (omega (arith, l))

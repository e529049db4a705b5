-- ===== src/Gps/Receiver.antt =====
-- `gps_task` of main/sensor_gps.c: lines out of bytes, and a fix that grows old.
use van_child_safety.Base.{
  ℕ, suc, ◌+◌, ◌*◌, ◌&&◌, ◌||◌, List, [], ◌∷◌, ◌++◌, ltb, leb, ◌==◌, if◌then◌else◌, length,
}
use van_child_safety.Gps.Text.{c_string}
use van_child_safety.Gps.Checksum.{nmea_checksum_valid}
use van_child_safety.Gps.Sentences.{Floats, Moment, Gps, take_sentence, mark_gps_invalid}

-- `GPS_FIX_STALE_S`.
abbrev pub gps_fix_stale_s : ℕ
gps_fix_stale_s = 90

-- The variables of the task. `line` is the part of the buffer before `line_pos`.
pub record Receiver (F : Floats) : Type 0 where
  pub gps : Gps F
  pub line : List ℕ

-- `line` once the byte is in it.
abbrev pub put_byte : ℕ → List ℕ → List ℕ
put_byte b line =
    let kept = if b == b'$' then [] else line in
    if ltb (length kept) 127 then kept ++ b ∷ [] else kept

module _ (F : Floats) where
  -- A finished line.
  unfoldable pub take_line : Moment → List ℕ → Gps F → Gps F
  unfolding take_sentence nmea_checksum_valid c_string
  take_line m line g =
      if ltb 6 (length line) && nmea_checksum_valid (c_string line)
      then take_sentence F m (c_string line) g
      else g

  unfoldable pub read_byte : Moment → ℕ → Receiver F → Receiver F
  unfolding take_line
  read_byte m b r =
      let line = put_byte b r.line in
      if (b == 10) || leb 127 (length line)
      then record { gps = take_line m line r.gps; line = [] }
      else record r { line = line }

  -- The bytes that one read returns; the moments are those of the bytes.
  unfoldable pub read_bytes : (ℕ → Moment) → List ℕ → Receiver F → Receiver F
  unfolding read_byte
  read_bytes moments [] r = r
  read_bytes moments (b ∷ bs) r = read_bytes (λ i. moments (suc i)) bs (read_byte (moments 0) b r)

  unfoldable pub check_stale : Moment → Gps F → Gps F
  unfolding mark_gps_invalid
  check_stale m g =
      if g.gps_valid_reported
        && (ltb 0 g.last_valid_fix_us
            && ltb (g.last_valid_fix_us + gps_fix_stale_s * 1000000) m.now)
      then mark_gps_invalid F m g
      else g

  -- One round of the task.
  unfoldable pub gps_round : (ℕ → Moment) → List ℕ → Moment → Receiver F → Receiver F
  unfolding read_bytes check_stale
  gps_round moments bytes m r =
      let r' = read_bytes moments bytes r in record r' { gps = check_stale m r'.gps }

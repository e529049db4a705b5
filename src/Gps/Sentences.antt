-- ===== src/Gps/Sentences.antt =====
-- The sentences RMC and GGA of main/sensor_gps.c. What the processor computes with floats, and
-- `atof`, is a parameter.
use van_child_safety.Base.{
  ℕ, Bool, true, false, ◌||◌, List, [], ◌∷◌, ltb, ◌==◌, if◌then◌else◌, take, length, get_or,
}
use van_child_safety.Base.Int.{ℤ, pos, negsuc}
use van_child_safety.Base.Text.{Text, codes}
use van_child_safety.Gps.Text.{strtok, strstr_at, atoi, low_byte}

-- The floats, and what the file computes with them.
pub record Floats : Type 1 where
  pub float : Type 0
  pub atof : Text → float
  pub of_int : ℤ → float
  pub to_int : float → ℤ
  pub ◌/F◌ : float → float → float
  pub ◌*F◌ : float → float → float
  pub ◌+F◌ : float → float → float
  pub ◌-F◌ : float → float → float
  pub negate : float → float
  -- `x * 1.852f`.
  pub knots_to_kmh : float → float

-- Whether the wait for the mutex succeeds, and what `esp_timer_get_time` returns.
pub record Moment : Type 0 where
  pub taken : Bool
  pub now : ℕ

-- The fields of `g_telemetry` that the file writes, and its own variables but for those that only
-- a log line reads.
pub record Gps (F : Floats) : Type 0 where
  pub latitude : F.float
  pub longitude : F.float
  pub speed : F.float
  pub course : F.float
  pub altitude : F.float
  pub satellites : ℕ
  pub gps_valid : Bool
  pub last_valid_fix_us : ℕ
  pub gps_valid_reported : Bool

-- `fields[i]`, and its first character.
abbrev pub field : List Text → ℕ → Text
field fields i = get_or fields i []

abbrev pub first_char : Text → ℕ
first_char s = get_or s 0 0

module _ (F : Floats) where
  unfoldable pub nmea_to_decimal : Text → ℕ → F.float
  nmea_to_decimal [] dir = F.of_int (pos 0)
  nmea_to_decimal (c ∷ s) dir =
      let val = F.atof (c ∷ s) in
      let hundred = F.of_int (pos 100) in
      let degrees = F.of_int (F.to_int (F.◌/F◌ val hundred)) in
      let minutes = F.◌-F◌ val (F.◌*F◌ degrees hundred) in
      let decimal = F.◌+F◌ degrees (F.◌/F◌ minutes (F.of_int (pos 60))) in
      if (dir == b'S') || (dir == b'W') then F.negate decimal else decimal

  unfoldable pub mark_gps_invalid : Moment → Gps F → Gps F
  mark_gps_invalid m g = record g {
    gps_valid = if m.taken then false else g.gps_valid;
    gps_valid_reported = false;
  }

  -- `field[0] ? convert : 0.0f`.
  abbrev pub float_field : (Text → F.float) → Text → F.float
  float_field convert s = if first_char s == 0 then F.of_int (pos 0) else convert s

  unfoldable pub write_position : List Text → Gps F → Gps F
  unfolding nmea_to_decimal
  write_position f g = record g {
    latitude = nmea_to_decimal (field f 3) (first_char (field f 4));
    longitude = nmea_to_decimal (field f 5) (first_char (field f 6));
    speed = float_field (λ s. F.knots_to_kmh (F.atof s)) (field f 7);
    course = float_field F.atof (field f 8);
    gps_valid = true;
  }

  abbrev pub see_fix : Moment → Gps F → Gps F
  see_fix m g = record g { last_valid_fix_us = m.now; gps_valid_reported = true }

  -- `parse_gprmc`, its fields given.
  unfoldable pub take_gprmc : Moment → List Text → Gps F → Gps F
  unfolding mark_gps_invalid write_position
  take_gprmc m f g =
      if ltb (length f) 10
      then g
      else if first_char (field f 2) == b'A'
      then see_fix m (if m.taken then write_position f g else g)
      else mark_gps_invalid m g

  unfoldable pub parse_gprmc : Moment → Text → Gps F → Gps F
  unfolding take_gprmc strtok
  parse_gprmc m line g = take_gprmc m (take 12 (strtok b',' line)) g

  abbrev pub int_field : Text → ℤ
  unfolding atoi
  int_field s = if first_char s == 0 then pos 0 else atoi s

  abbrev pub is_zero : ℤ → Bool
  is_zero (pos n) = n == 0
  is_zero (negsuc n) = false

  abbrev pub write_altitude : List Text → Gps F → Gps F
  unfolding low_byte
  write_altitude f g = record g {
    satellites = low_byte (int_field (field f 7));
    altitude = float_field F.atof (field f 9);
  }

  -- `parse_gpgga`, its fields given.
  unfoldable pub take_gpgga : Moment → List Text → Gps F → Gps F
  unfolding mark_gps_invalid
  take_gpgga m f g =
      if ltb (length f) 10
      then g
      else if is_zero (int_field (field f 6))
      then mark_gps_invalid m g
      else if m.taken
      then write_altitude f g
      else g

  unfoldable pub parse_gpgga : Moment → Text → Gps F → Gps F
  unfolding take_gpgga strtok
  parse_gpgga m line g = take_gpgga m (take 15 (strtok b',' line)) g

  -- By the type of sentence, which stands behind the dollar and two letters.
  unfoldable pub take_sentence : Moment → Text → Gps F → Gps F
  unfolding parse_gprmc parse_gpgga strstr_at
  take_sentence m tmp g =
      if strstr_at 3 (codes "RMC") tmp
      then parse_gprmc m tmp g
      else if strstr_at 3 (codes "GGA") tmp
      then parse_gpgga m tmp g
      else g

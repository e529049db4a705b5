-- ===== src/Sensors/Scd4x.antt =====
-- The reading of main/sensor_scd4x.c. What the bus answers is a parameter; the temperature and the
-- humidity, which the file reads and throws away, are left out.
use van_child_safety.Base.{
  ℕ, ◌+◌, ◌*◌, ◌/◌, ◌%◌, ◌≡◌, refl, ap, Bool, true, not, ◌||◌, Option, none, some, List, [], ◌∷◌,
  arith, ◌==◌, if◌then◌else◌, get_or,
}
use van_child_safety.Types.{SensorStatus}
use van_child_safety.World.{World, Env, TakeSite}
use van_child_safety.Sensors.Crc.{crc8_sensirion}

-- Whether the bus takes the command, and the nine bytes that it answers with, if it does.
pub record I2cAnswer : Type 0 where
  pub command_ok : Bool
  pub bytes : Option (List ℕ)

-- The two bytes at an offset do not fit the third.
abbrev pub word_fails : List ℕ → ℕ → Bool
unfolding crc8_sensirion
word_fails bytes i =
    not (crc8_sensirion (get_or bytes i 0 ∷ get_or bytes (i + 1) 0 ∷ []) == get_or bytes (i + 2) 0)

unfoldable pub take_bytes : Option (List ℕ) → Option ℕ
unfolding word_fails
take_bytes none = none
take_bytes (some bytes) =
    if word_fails bytes 0 || (word_fails bytes 3 || word_fails bytes 6)
    then none
    else some (get_or bytes 0 0 * 256 + get_or bytes 1 0)

-- `scd4x_read_measurement`; `none` is an error.
unfoldable pub scd4x_read_measurement : I2cAnswer → Option ℕ
unfolding take_bytes
scd4x_read_measurement answer = if answer.command_ok then take_bytes answer.bytes else none

abbrev pub update_co2 : Env → Option ℕ → World → World
update_co2 env none w =
    if env.taken TakeSite.co2_failed
    then record w { telemetry = record w.telemetry { co2_status = SensorStatus.error } }
    else w
update_co2 env (some co2) w =
    if env.taken TakeSite.co2_measured
    then record w {
      telemetry = record w.telemetry {
        co2 = co2;
        co2_last_update_us = env.now;
        co2_status = SensorStatus.ok;
      };
    }
    else w

-- `sensor_scd4x_read_and_update`, and what it leaves in the queue of the CO2 tracker.
unfoldable pub sensor_scd4x_read_and_update : Env → I2cAnswer → World → World × Option ℕ
unfolding scd4x_read_measurement
sensor_scd4x_read_and_update env answer w =
    let m = scd4x_read_measurement answer in (update_co2 env m w, m)

-- A word as the sensor sends it.
abbrev pub send_word : ℕ → List ℕ → List ℕ
send_word n rest = n / 256 ∷ n % 256 ∷ crc8_sensirion (n / 256 ∷ n % 256 ∷ []) ∷ rest

==_refl : (n : ℕ) → (n == n) ≡ true
==_refl n = ground arith

-- Three words with their checksums are read as the first of them.
pub measurement_roundtrip :
    (co2 temperature humidity : ℕ)
    → scd4x_read_measurement record {
      command_ok = true;
      bytes = some (send_word co2 (send_word temperature (send_word humidity [])));
    }
      ≡ some co2
unfolding scd4x_read_measurement take_bytes word_fails
measurement_roundtrip co2 temperature humidity =
    rw
      (
        ==_refl (crc8_sensirion (co2 / 256 ∷ co2 % 256 ∷ [])),
        ==_refl (crc8_sensirion (temperature / 256 ∷ temperature % 256 ∷ [])),
        ==_refl (crc8_sensirion (humidity / 256 ∷ humidity % 256 ∷ [])),
      )
      (ap some (omega arith))

-- A word whose checksum byte does not fit is an error, whatever the other words are: telemetry keeps
-- its reading, and the tracker gets none.
pub bad_word_is_error :
    (env : Env) (bytes : List ℕ) (w : World)
    → (word_fails bytes 0 || (word_fails bytes 3 || word_fails bytes 6)) ≡ true
    → let (w', queued) =
        sensor_scd4x_read_and_update env (record { command_ok = true; bytes = some bytes }) w in
      (queued ≡ none)
      × (w'.telemetry.co2 ≡ w.telemetry.co2)
      × (w'.telemetry.co2_last_update_us ≡ w.telemetry.co2_last_update_us)
unfolding sensor_scd4x_read_and_update scd4x_read_measurement take_bytes
bad_word_is_error env bytes w h = rw h (refl, ground arith, ground arith)

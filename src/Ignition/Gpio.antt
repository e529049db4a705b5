-- ===== src/Ignition/Gpio.antt =====
-- The GPIO source, main/ignition_gpio.c. A level is the Boolean of `level != 0`.
use van_child_safety.Base.{ℕ, ◌+◌, ◌*◌, Bool, true, false, not, leb, eqb, if◌then◌else◌}
use van_child_safety.Types.{IgnitionStatus}
use van_child_safety.World.{Config}

-- `s_raw` to `s_initialized`.
pub record Gpio : Type 0 where
  pub raw : Bool
  pub stable : Bool
  pub changed_at : ℕ
  pub initialized : Bool

abbrev pub power_on_gpio : Gpio
power_on_gpio = record { raw = false; stable = false; changed_at = 0; initialized = false }

module _ (cfg : Config) where
  -- `read_ignition_gpio`.
  unfoldable pub read_ignition_gpio : Bool → Bool
  read_ignition_gpio level = if cfg.ignition_active_level then level else not level

  -- `ignition_init`.
  unfoldable pub gpio_init : ℕ → Bool → Gpio → Gpio
  unfolding read_ignition_gpio
  gpio_init now level s = record {
    raw = read_ignition_gpio level;
    stable = read_ignition_gpio level;
    changed_at = now;
    initialized = true;
  }

  -- `ignition_gpio_poll`.
  unfoldable pub ignition_gpio_poll : ℕ → Bool → Gpio → Gpio
  unfolding read_ignition_gpio
  ignition_gpio_poll now level s =
      if not s.initialized
      then s
      else let s' = record s { raw = read_ignition_gpio level } in
        if not (eqb s'.raw s'.stable)
        then (if leb (s'.changed_at + cfg.ignition_debounce_ms * 1000) now
            then record s' { stable = s'.raw }
            else s')
        else record s' { changed_at = now }

  -- `ignition_get`.
  unfoldable pub gpio_get : ℕ → Bool → Gpio → Bool × Gpio
  unfolding ignition_gpio_poll
  gpio_get now level s = let s' = ignition_gpio_poll now level s in (s'.stable, s')

-- `ignition_source_status`.
unfoldable pub gpio_status : Gpio → IgnitionStatus
gpio_status s = if s.initialized then IgnitionStatus.ok else IgnitionStatus.error

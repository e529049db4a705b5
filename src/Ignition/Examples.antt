-- ===== src/Ignition/Examples.antt =====
-- The theorems on the ignition sources, applied.
use van_child_safety.Base.{◌≡◌, refl, not, ◌==◌, true, false, [], ◌∷◌, arith}
use van_child_safety.Base.Text.{codes}
use van_child_safety.World.{default_config}
use van_child_safety.Ignition.Wire.{Heartbeat, fnv1a32, Fits, next_heartbeat}
use van_child_safety.Ignition.Espnow.{Espnow, power_on_espnow}
use van_child_safety.Ignition.Remote.{Radio, remote_round, heard, own, every_channel_hears_once}
use van_child_safety.Ignition.Gpio.{Gpio, read_ignition_gpio, gpio_get}
use van_child_safety.Ignition.Debounce.{polls_at, level_is_debounced}

abbrev paired : Espnow
paired = record power_on_espnow {
  magic = 77;
  initialized = true;
  synchronized = true;
  last_rx_us = 1000000;
  last_heartbeat = record { magic = 77; seq = 65534; uptime_s = 9; battery_mv = 0 };
}

-- The numbers 65535 and 0 were lost.
abbrev after_gap : Heartbeat
after_gap = record { magic = 77; seq = 1; uptime_s = 15; battery_mv = 0 }

after_gap-Fits : Fits after_gap
after_gap-Fits = record {
  magic = omega arith;
  seq = omega arith;
  uptime_s = omega arith;
  battery_mv = omega arith;
}

-- Channel 3 is refused.
abbrev radio : Radio
radio = record { sets = λ c. not (c == 3); sends = λ c. true }

every_channel_hears_once_example :
    heard radio 11 (remote_round radio 0 9000000 77 65535).0
    ≡ own radio 11 (next_heartbeat 9000000 77 65535).0
every_channel_hears_once_example =
    every_channel_hears_once radio 9000000 77 65535 11 (omega arith) (omega arith)

abbrev parked : Gpio
parked = record { raw = false; stable = false; changed_at = 1000000; initialized = true }

level_is_debounced_example :
    let s' = polls_at default_config true (1250000 ∷ []) parked in
    (s'.stable ≡ false)
    × ((gpio_get default_config 1500000 true s').0 ≡ read_ignition_gpio default_config true)
unfolding read_ignition_gpio
level_is_debounced_example =
    level_is_debounced default_config true (1250000 ∷ []) 1500000 parked refl (ground arith)
      (omega arith, record {}) (omega arith)

-- The published parameters of the hash: the empty string gives the offset basis, "a" the product.
hash_of_a : fnv1a32 (codes "a") ≡ 0xe40c292c
unfolding fnv1a32
hash_of_a = refl

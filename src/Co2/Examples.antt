-- ===== src/Co2/Examples.antt =====
-- The theorems on the CO2 tracker, applied.
use van_child_safety.Base.{ℕ, ◌≡◌, ◌≢◌, refl, true, [], ◌∷◌, arith, replicate}
use van_child_safety.Base.Int.{pos}
use van_child_safety.Types.{BusState}
use van_child_safety.World.{World, default_config}
use van_child_safety.Bus.Locked.{is_armed}
use van_child_safety.Mqtt.Report.{is_stale}
use van_child_safety.Samples.{at}
use van_child_safety.System.Outcomes.{power_on}
use van_child_safety.Co2.Tracker.{Co2, power_on_co2, push_reading, co2_event, track_reading}
use van_child_safety.Co2.Window.{Window, window_push, push-Window, power_on-Window}
use van_child_safety.Co2.Rise.{one_alarm_per_arming}
use van_child_safety.Co2.Lost.{emptied, Reading, Silent, full_queue_loses_alarm}

abbrev window : ℕ
window = default_config.co2_window_readings

abbrev empty_ring : Co2
empty_ring = power_on_co2 default_config

push-Window_example : Window window (push_reading window 600 empty_ring) (window_push window 600 [])
push-Window_example =
    push-Window window 600 empty_ring [] (power_on-Window default_config (omega arith))

one_reading : Window window (push_reading window 600 empty_ring) (600 ∷ [])
unfolding window_push
one_reading = push-Window window 600 empty_ring [] (power_on-Window default_config (omega arith))

-- Armed with a baseline of 500 ppm; the last reading was 900 ppm, 400 ppm up, 5 s ago.
abbrev rising_world : World
rising_world = record power_on {
  bus = record power_on.bus {
    state = BusState.armed;
    bus_empty = true;
    armed_generation = 1;
    co2_baseline = 500;
  };
  telemetry = record power_on.telemetry {
    co2 = 900;
    co2_delta_3min = pos 400;
    co2_last_update_us = 195000000;
  };
}

abbrev risen : Co2
risen = record empty_ring { seen_armed_generation = 1; consecutive_rise = 1; count = 5 }

abbrev full_world : World
full_world = record rising_world { distress_queue = replicate 20 (co2_event 1 (pos 9)) }

one_alarm_per_arming_example :
    let (c', w') =
      track_reading default_config
        (at 200)
        1000
        (record risen { alerted_this_armed = true })
        rising_world in
    (w'.distress_queue ≡ [])
    × (c'.alerted_this_armed ≡ true)
    × (c'.seen_armed_generation ≡ w'.bus.armed_generation)
unfolding is_armed
one_alarm_per_arming_example =
    one_alarm_per_arming default_config (at 200) 1000 (record risen { alerted_this_armed = true })
      rising_world refl refl refl

-- With room the event is queued.
due : (track_reading default_config (at 200) 1000 risen (emptied full_world)).1.distress_queue ≢ []
unfolding track_reading is_armed is_stale
due e = ground (arith, e)

-- 5 s later the queue has room.
abbrev next_reading : Reading
next_reading = record { env = at 205; co2 = 1100; world = rising_world }

full_queue_loses_alarm_example :
    let (c', w') = track_reading default_config (at 200) 1000 risen full_world in
    (w'.distress_queue ≡ full_world.distress_queue) × Silent default_config (next_reading ∷ []) c'
unfolding is_armed
full_queue_loses_alarm_example =
    full_queue_loses_alarm default_config (at 200) 1000 risen full_world (next_reading ∷ []) due
      (omega arith) (refl, refl, record {})

-- ===== src/Radar/Stays.antt =====
-- When the presence trigger of main/sensor_ld2412.c sends its event, by the frames since power-on.
use van_child_safety.Base.{ℕ, ◌≤◌, ◌≡◌, ◌⊎◌, true, List, arith, if◌then◌else◌}
use van_child_safety.World.{World, Config}
use van_child_safety.Radar.Presence.{Presence, passes_gates}
use van_child_safety.Radar.History.{Frame, target_at_arm}

-- The dwell that the event needs, by whether the target was there at arming.
abbrev pub dwell : Config → List Frame → ℕ
dwell cfg fs =
    if target_at_arm fs then cfg.presence_sustain_armed_existing_s else cfg.presence_sustain_s

-- The last frame is in both gates.
abbrev pub InGates : Config → Frame → Type 0
InGates cfg f =
    ((f.distance ≤ cfg.presence_still_distance_max_cm)
      ⊎ (9999 ≤ cfg.presence_still_distance_max_cm))
    × (cfg.presence_still_energy_min ≤ f.energy)

pub InGates-passes_gates :
    (cfg : Config) (f : Frame) → InGates cfg f → passes_gates cfg f.distance f.energy ≡ true
unfolding passes_gates
InGates-passes_gates cfg f h = ground arith

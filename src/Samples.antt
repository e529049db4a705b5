-- ===== src/Samples.antt =====
-- What one operation reads from outside, as the examples have it.
use van_child_safety.Base.{ℕ, ◌*◌, true, false}
use van_child_safety.Types.{IgnitionStatus}
use van_child_safety.World.{Env}

-- `s` seconds after boot, with the ignition off and every wait successful.
abbrev pub at : ℕ → Env
at s = record {
  now = s * 1000000;
  utc = record { year = 2026; month = 3; day = 7; hour = 15; minute = 4; second = 59 };
  raw = false;
  source_status = IgnitionStatus.ok;
  taken = λ _. true;
}

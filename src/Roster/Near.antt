-- ===== src/Roster/Near.antt =====
-- Lookups of main/beacon_config.c, and the arm-time scan for beacons that are near.
use van_child_safety.Base.{
  Bool, true, false, ◌&&◌, ◌||◌, Option, none, some, List, [], ◌∷◌, if◌then◌else◌,
}
use van_child_safety.Base.Text.{Text, same_id, copy_string}
use van_child_safety.Types.{Beacon, BeaconState, DistressType, DistressEvent}
use van_child_safety.World.{World, Env, queue_send}

abbrev pub is_near : BeaconState → Bool
is_near BeaconState.near = true
is_near _ = false

-- `beacon_config_find_by_id`, by `strcasecmp`; also `beacon_config_snapshot_by_id`.
unfoldable pub find_by_id : Text → List Beacon → Option Beacon
find_by_id id [] = none
find_by_id id (b ∷ bs) = if same_id b.name id then some b else find_by_id id bs

-- `any_near_locked` and `beacon_config_any_near`.
unfoldable pub any_near : List Beacon → Bool
any_near [] = false
any_near (b ∷ bs) = (b.active && is_near b.state) || any_near bs

-- The event for one beacon that is near.
unfoldable pub near_event : Env → Beacon → DistressEvent
near_event env b = record {
  kind = DistressType.beacon_near;
  beacon_name = copy_string 32 b.name;
  co2_delta = 0;
  timestamp = env.now;
}

-- The loop of `beacon_config_queue_near_distress_events`, from one entry on.
unfoldable pub queue_near_from : Env → List Beacon → World → World
unfolding near_event queue_send
queue_near_from env [] w = w
queue_near_from env (b ∷ bs) w =
    queue_near_from env bs
      (if b.active && is_near b.state then (queue_send (near_event env b) w).0 else w)

-- `beacon_config_queue_near_distress_events`.
unfoldable pub queue_near_distress_events : Env → World → World
unfolding queue_near_from
queue_near_distress_events env w = queue_near_from env w.beacons w

-- ===== src/Alarm/Ack.antt =====
-- `bus_state_ack_distress` of main/bus_state.c.
use van_child_safety.World.{World, Env, TakeSite, Config, BusEvent}
use van_child_safety.Bus.Locked.{AckPath, ack_locked}
use van_child_safety.Bus.Transitions.{publish_event, sync_and_publish}
use van_child_safety.Alarm.Tracker.{handle_ack}

module _ (cfg : Config) where
  -- During the pending window the tracker cancels the alarm; an active distress is silenced.
  unfoldable pub ack_branch : Env → AckPath → World → World
  unfolding handle_ack sync_and_publish publish_event
  ack_branch env AckPath.was_pending w = handle_ack cfg env w
  ack_branch env AckPath.was_active w =
      publish_event BusEvent.distress_ack (sync_and_publish cfg env TakeSite.settle w)
  ack_branch env AckPath.neither w = w

  unfoldable pub ack_distress : Env → World → World
  unfolding ack_locked ack_branch
  ack_distress env w =
      let (b, path) = ack_locked w.bus in ack_branch env path (record w { bus = b })

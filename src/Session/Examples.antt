-- ===== src/Session/Examples.antt =====
-- The theorems on the MQTT session, applied.
use van_child_safety.Base.{◌≡◌, true, false, none, some, [], ◌∷◌, arith}
use van_child_safety.Base.Text.{codes}
use van_child_safety.Types.{DistressType, BusState}
use van_child_safety.World.{World, NotifState, DistressReport, default_config}
use van_child_safety.Samples.{at}
use van_child_safety.Bus.Locked.{is_armed}
use van_child_safety.System.Steps.{Held}
use van_child_safety.System.Outcomes.{power_on}
use van_child_safety.Roster.Samples.{working, add_ben}
use van_child_safety.Roster.Trees.{trees}
use van_child_safety.Session.Handler.{Device, MqttEvent, connect_session, mqtt_event_handler}
use van_child_safety.Session.Reconcile.{retained_distress, reconnect_reconciles}
use van_child_safety.Session.Payloads.{session_run, session_run-Held, stored_payload_is_ignored}

-- A distress that is not acknowledged, and no connection.
abbrev alone : World
alone = record power_on {
  bus = record power_on.bus {
    state = BusState.distress_active;
    bus_empty = true;
    armed_generation = 1;
    distress_active = true;
    distress_id = codes "distress-1";
  };
  tracker = record {
    state = NotifState.active;
    trigger_time = 200000000;
    last_send = 320000000;
    event = record {
      kind = DistressType.presence_detected;
      beacon_name = [];
      co2_delta = 0;
      timestamp = 190000000;
    };
  };
  connected = false;
}

alone-Held : Held alone
unfolding is_armed
alone-Held = record { consistent = ground arith }

reconnect_reconciles_example :
    let after =
      retained_distress (connect_session (trees add_ben) default_config (at 500) alone).published in
    (true ≡ false → after ≡ none)
    × (true ≡ true
        → false ≡ false
        → (r : DistressReport) × (after ≡ some r)
          × (r.id ≡ codes "distress-1")
          × (r.trigger ≡ DistressType.presence_detected)
          × (r.bus_state ≡ BusState.distress_active))
    × (true ≡ true → false ≡ true → after ≡ retained_distress alone.published)
reconnect_reconciles_example =
    reconnect_reconciles (trees add_ben) default_config (at 500) alone alone-Held.consistent

abbrev device : Device
device = record { world = alone; stored = none }

stored_payload_is_ignored_example :
    mqtt_event_handler
      (codes "bus")
      (λ s. none)
      (trees add_ben)
      default_config
      (at 500)
      working
      (MqttEvent.arrived (codes "bus/command") true (codes "distress_clear"))
      device
    ≡ (device, false)
stored_payload_is_ignored_example =
    stored_payload_is_ignored (codes "bus") (λ s. none) (trees add_ben) default_config (at 500)
      working (codes "bus/command") (codes "distress_clear") device

session_run-Held_example :
    Held
      (session_run
        (codes "bus")
        (λ s. none)
        (trees add_ben)
        default_config
        ((at 500, working, MqttEvent.connected)
          ∷ (at 501, working, MqttEvent.arrived (codes "bus/command") false (codes "distress_ack"))
          ∷ [])
        device).world
session_run-Held_example =
    session_run-Held (codes "bus") (λ s. none) (trees add_ben) default_config
      ((at 500, working, MqttEvent.connected)
        ∷ (at 501, working, MqttEvent.arrived (codes "bus/command") false (codes "distress_ack"))
        ∷ [])
      device alone-Held

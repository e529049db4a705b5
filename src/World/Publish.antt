-- ===== src/World/Publish.antt =====
-- Publishing over MQTT (main/mqtt_client.c) and the distress queue of main/main.c.
-- A publish is recorded, newest first, if the client is connected.
use van_child_safety.Base.{ℕ, Bool, true, false, [], ◌∷◌, ◌++◌, ltb, length, if◌then◌else◌}
use van_child_safety.Types.{DistressEvent}
use van_child_safety.World.State.{World, Message}

unfoldable pub publish : Message → World → World
publish m w = if w.connected then record w { published = m ∷ w.published } else w

-- `mqtt_clear_distress`: an empty retained payload.
unfoldable pub mqtt_clear_distress : World → World
unfolding publish
mqtt_clear_distress w = publish Message.clear_distress w

-- `xQueueCreate(20, sizeof(distress_event_t))`.
abbrev pub queue_capacity : ℕ
queue_capacity = 20

-- `xQueueSend(g_distress_queue, &evt, 0)`: to the back, and refused if the queue is full.
unfoldable pub queue_send : DistressEvent → World → World × Bool
queue_send e w =
    if ltb (length w.distress_queue) queue_capacity
    then (record w { distress_queue = w.distress_queue ++ e ∷ [] }, true)
    else (w, false)

-- ===== src/Command/Handler.antt =====
-- `handle_command` and `mqtt_publish_command_result` of main/mqtt_client.c. cJSON is a parameter:
-- what it parses is an object that is asked for its members.
use van_child_safety.Base.{
  ℕ, Bool, true, false, not, ◌&&◌, ◌||◌, Option, none, some, [], ◌∷◌, ltb, ◌==◌, if◌then◌else◌,
  length,
}
use van_child_safety.Base.Text.{Text, codes, is_empty, same_text}
use van_child_safety.Types.{DistressType, DistressEvent, DisarmResult, bus_state_disarm_result_name}
use van_child_safety.World.{World, Env, Config, Message, publish, queue_send}
use van_child_safety.Bus.Commands.{clear_distress, disarm, force_empty}
use van_child_safety.Alarm.Ack.{ack_distress}

-- What `cJSON_GetObjectItemCaseSensitive` followed by `cJSON_IsString` or `cJSON_IsTrue` gives
-- for a key.
pub record JsonObject : Type 0 where
  pub string_at : Text → Option Text
  pub is_true_at : Text → Bool

-- `cJSON_ParseWithLength`.
abbrev pub Parse : Type 0
Parse = Text → Option JsonObject

abbrev pub is_space : ℕ → Bool
is_space c = c == 32 || (c == 9 || (c == 13 || c == 10))

-- The two loops that trim.
unfoldable pub trim_front : Text → Text
trim_front [] = []
trim_front (c ∷ s) = if is_space c then trim_front s else c ∷ s

unfoldable pub trim_back : Text → Text
trim_back [] = []
trim_back (c ∷ s) = let rest = trim_back s in if is_empty rest && is_space c then [] else c ∷ rest

abbrev pub unknown : Text
unknown = codes "unknown"

abbrev pub or_unknown : Option Text → Text
or_unknown none = unknown
or_unknown (some s) = s

-- `mqtt_publish_command_result`.
unfoldable pub publish_command_result : Text → Text → Bool → Text → Text → World → World
unfolding publish
publish_command_result request action ok reason source w =
    publish
      (Message.command_result record {
        request_id = request;
        action = action;
        ok = ok;
        reason = reason;
        source = source;
        state = w.bus.state;
        ignition_on = w.bus.ignition_on;
      })
      w

-- `!cJSON_IsString(item) || valuestring[0] == '\0'`.
abbrev pub is_missing : Option Text → Bool
is_missing none = true
is_missing (some s) = is_empty s

-- `result == BUS_DISARM_OK || result == BUS_DISARM_ALREADY`.
abbrev pub disarm_is_ok : DisarmResult → Bool
disarm_is_ok DisarmResult.ok = true
disarm_is_ok DisarmResult.already = true
disarm_is_ok _ = false

abbrev pub test_event : ℕ → DistressEvent
test_event now = record {
  kind = DistressType.presence_detected;
  beacon_name = [];
  co2_delta = 0;
  timestamp = now;
}

module _ (cfg : Config) where
  -- The disarm that passed every check, and its answer.
  unfoldable pub confirmed_disarm : Env → Text → Text → Text → World → World
  unfolding disarm publish_command_result bus_state_disarm_result_name
  confirmed_disarm env request action source w =
      let (w', r) = disarm cfg env w in
      publish_command_result request action (disarm_is_ok r) (bus_state_disarm_result_name r) source
        w'

  -- The checks of a structured command, in the order of the code.
  unfoldable pub structured_command : Env → Option JsonObject → World → World
  unfolding publish_command_result confirmed_disarm same_text
  structured_command env none w =
      publish_command_result unknown unknown false (codes "invalid_json") unknown w
  structured_command env (some json) w =
      let request = json.string_at (codes "request_id") in
      let source = json.string_at (codes "source") in
      let request_id = or_unknown request in
      let action_name = or_unknown (json.string_at (codes "action")) in
      let source_name = or_unknown source in
      if is_missing request
      then publish_command_result unknown action_name false (codes "request_id_required")
          source_name w
      else if is_missing source
      then publish_command_result request_id action_name false (codes "source_required") unknown w
      else if ltb 63 (length request_id)
          || (ltb 31 (length action_name) || ltb 63 (length source_name))
      then publish_command_result unknown action_name false (codes "metadata_too_long") unknown w
      else if not (same_text action_name (codes "disarm"))
      then publish_command_result request_id action_name false (codes "unsupported_action")
          source_name w
      else if not (json.is_true_at (codes "confirm_cabin_clear"))
      then publish_command_result request_id action_name false
          (codes "cabin_clear_confirmation_required") source_name w
      else confirmed_disarm env request_id action_name source_name w

  -- A bare command; whether it restarts the unit.
  unfoldable pub bare_command : Env → Text → World → World × Bool
  unfolding publish_command_result force_empty ack_distress clear_distress queue_send same_text
  bare_command env s w =
      if same_text s (codes "disarm")
      then (
        publish_command_result unknown (codes "disarm") false
            (codes "structured_confirmation_required") (codes "legacy") w,
        false,
      )
      else if same_text s (codes "restart")
      then (w, true)
      else if same_text s (codes "bus_empty_on")
      then (force_empty cfg env true w, false)
      else if same_text s (codes "bus_empty_off")
      then (force_empty cfg env false w, false)
      else if same_text s (codes "distress_ack")
      then (ack_distress cfg env w, false)
      else if same_text s (codes "distress_clear")
      then (clear_distress cfg env w, false)
      else if same_text s (codes "distress_test")
      then ((queue_send (test_event env.now) w).0, false)
      else (w, false)

  -- A payload that begins with a brace is structured.
  unfoldable pub dispatch_command : Parse → Env → Text → World → World × Bool
  unfolding structured_command bare_command
  dispatch_command parse env [] w = bare_command env [] w
  dispatch_command parse env (c ∷ s) w =
      if c == b'{'
      then (structured_command env (parse (c ∷ s)) w, false)
      else bare_command env (c ∷ s) w

  -- `handle_command`.
  unfoldable pub handle_command : Parse → Env → Text → World → World × Bool
  unfolding trim_front trim_back dispatch_command
  handle_command parse env payload w = dispatch_command parse env (trim_back (trim_front payload)) w

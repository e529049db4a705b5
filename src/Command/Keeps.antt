-- ===== src/Command/Keeps.antt =====
-- Every command on bus/command keeps the invariant of the system.
use van_child_safety.Base.{Bool, true, false, not, Option, none, some, [], ◌∷◌, if◌then◌else◌, ◌==◌}
use van_child_safety.Base.Text.{Text, codes, same_text}
use van_child_safety.World.{World, Env, Config}
use van_child_safety.System.Frame.{Quiet-queue_send}
use van_child_safety.System.Steps.{
  Held, Quiet-Held, if-Held, clear-Held, disarm-Held, force_empty-Held,
}
use van_child_safety.System.AlarmSteps.{ack-Held}
use van_child_safety.Command.Handler.{
  JsonObject, Parse, or_unknown, is_missing, trim_front, trim_back, confirmed_disarm,
  structured_command, bare_command, dispatch_command, handle_command,
}
use van_child_safety.Command.Guard.{Quiet-result}

if-Held_pair : (c : Bool) (u v : World × Bool) → Held u.0 → Held v.0 → Held (if c then u else v).0
if-Held_pair true u v p q = p
if-Held_pair false u v p q = q

module _ (cfg : Config) (env : Env) where
  structured-Held :
      (o : Option JsonObject) (w : World) → Held w → Held (structured_command cfg env o w)
  unfolding structured_command confirmed_disarm
  structured-Held none w h = Quiet-Held (Quiet-result _ _ _ _ _ w) h
  structured-Held (some json) w h =
      if-Held (is_missing (json.string_at (codes "request_id")))
        (Quiet-Held (Quiet-result _ _ _ _ _ w) h)
        (if-Held (is_missing (json.string_at (codes "source")))
          (Quiet-Held (Quiet-result _ _ _ _ _ w) h)
          (if-Held _ (Quiet-Held (Quiet-result _ _ _ _ _ w) h) (
            if-Held
              (not (same_text (or_unknown (json.string_at (codes "action"))) (codes "disarm")))
              (Quiet-Held (Quiet-result _ _ _ _ _ w) h)
              (if-Held (not (json.is_true_at (codes "confirm_cabin_clear")))
                (Quiet-Held (Quiet-result _ _ _ _ _ w) h)
                (Quiet-Held (Quiet-result _ _ _ _ _ _) (disarm-Held cfg env w h))))))

  bare-Held : (s : Text) (w : World) → Held w → Held (bare_command cfg env s w).0
  unfolding bare_command
  bare-Held s w h = if-Held_pair _ _ _ (Quiet-Held (Quiet-result _ _ _ _ _ w) h) (
      if-Held_pair _ _ _ h (
        if-Held_pair _ _ _ (force_empty-Held cfg env true w h) (
          if-Held_pair _ _ _ (force_empty-Held cfg env false w h) (
            if-Held_pair _ _ _ (ack-Held cfg env w h) (
              if-Held_pair _ _ _ (clear-Held cfg env w w.tracker.state h.consistent)
                (if-Held_pair _ _ _ (Quiet-Held (Quiet-queue_send _ w) h) h))))))

  dispatch-Held :
      (parse : Parse) (s : Text) (w : World) → Held w → Held (dispatch_command cfg parse env s w).0
  unfolding dispatch_command
  dispatch-Held parse [] w h = bare-Held [] w h
  dispatch-Held parse (c ∷ s) w h =
      if-Held_pair (c == b'{') _ _ (structured-Held (parse (c ∷ s)) w h) (bare-Held (c ∷ s) w h)

  -- A command, whatever its payload, keeps a consistent system consistent.
  pub handle_command-Held :
      (parse : Parse) (payload : Text) (w : World)
      → Held w
      → Held (handle_command cfg parse env payload w).0
  unfolding handle_command
  handle_command-Held parse payload w h = dispatch-Held parse (trim_back (trim_front payload)) w h

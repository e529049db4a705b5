-- ===== src/Command/Guard.antt =====
-- What a command on bus/command can do (main/mqtt_client.c): only a structured and confirmed one
-- disarms, every command keeps the invariant, and spaces around it do not matter.
use van_child_safety.Base.{
  ◌≡◌, refl, Bool, true, false, not, ◌&&◌, Option, none, some, ◌∷◌, arith, if◌then◌else◌,
}
use van_child_safety.Base.Text.{Text, codes, same_text}
use van_child_safety.World.{World, Env, Config, publish}
use van_child_safety.System.Frame.{Quiet, alarms_in}
use van_child_safety.Command.Handler.{
  JsonObject, Parse, trim_front, trim_back, or_unknown, publish_command_result, is_missing,
  structured_command, dispatch_command, handle_command,
}

pub Quiet-result :
    (request action : Text) (ok : Bool) (reason source : Text) (w : World)
    → Quiet w (publish_command_result request action ok reason source w)
unfolding publish_command_result publish alarms_in
Quiet-result request action ok reason source w = ground arith

if-Quiet : (c : Bool) {w u v : World} → Quiet w u → Quiet w v → Quiet w (if c then u else v)
if-Quiet true p q = p
if-Quiet false p q = q

-- What a parsed object must say for a disarm.
abbrev pub confirmed : Option JsonObject → Bool
confirmed none = false
confirmed (some json) =
    same_text (or_unknown (json.string_at (codes "action"))) (codes "disarm")
    && json.is_true_at (codes "confirm_cabin_clear")

module _ (cfg : Config) (env : Env) where
  last_checks :
      (a c : Bool) (t : World) {w u v : World}
      → (a && c) ≡ false
      → Quiet w u
      → Quiet w v
      → Quiet w (if not a then u else if not c then v else t)
  last_checks true true t e p q = ground (arith, e)
  last_checks true false t e p q = q
  last_checks false c t e p q = p

  pub Quiet-structured :
      (o : Option JsonObject) (w : World)
      → confirmed o ≡ false
      → Quiet w (structured_command cfg env o w)
  unfolding structured_command
  Quiet-structured none w n = Quiet-result _ _ _ _ _ w
  Quiet-structured (some json) w n =
      if-Quiet (is_missing (json.string_at (codes "request_id"))) (Quiet-result _ _ _ _ _ w) (
        if-Quiet (is_missing (json.string_at (codes "source"))) (Quiet-result _ _ _ _ _ w) (
          if-Quiet _ (Quiet-result _ _ _ _ _ w) (
            last_checks (same_text (or_unknown (json.string_at (codes "action"))) (codes "disarm"))
              (json.is_true_at (codes "confirm_cabin_clear")) _ n (Quiet-result _ _ _ _ _ w)
              (Quiet-result _ _ _ _ _ w))))

  -- A structured command without the action disarm and the confirmation that the cabin is clear
  -- changes neither the state machine nor the tracker, publishes no alarm and does not restart.
  pub unconfirmed_changes_nothing :
      (parse : Parse) (payload s : Text) (w : World)
      → trim_back (trim_front payload) ≡ b'{' ∷ s
      → confirmed (parse (b'{' ∷ s)) ≡ false
      → let (w', restart) = handle_command cfg parse env payload w in
        (w'.bus ≡ w.bus)
        × (w'.tracker ≡ w.tracker)
        × (alarms_in w'.published ≡ alarms_in w.published)
        × (restart ≡ false)
  unfolding handle_command dispatch_command
  unconfirmed_changes_nothing parse payload s w t n = rw t (q.bus, q.tracker, q.alarms, refl)
    where
      q : Quiet w (structured_command cfg env (parse (b'{' ∷ s)) w)
      q = Quiet-structured (parse (b'{' ∷ s)) w n

-- ===== src/Command/Examples.antt =====
-- The theorems on commands, applied.
use van_child_safety.Base.{◌≡◌, refl, Bool, true, some, ◌∷◌, arith, if◌then◌else◌}
use van_child_safety.Base.Text.{Text, codes, same_text}
use van_child_safety.Types.{BusState}
use van_child_safety.World.{World, default_config}
use van_child_safety.Bus.Locked.{is_armed}
use van_child_safety.Bus.Commands.{disarm}
use van_child_safety.Samples.{at}
use van_child_safety.System.Steps.{Held}
use van_child_safety.System.Outcomes.{power_on}
use van_child_safety.Command.Handler.{JsonObject, Parse, trim_front, trim_back, handle_command}
use van_child_safety.Command.Guard.{confirmed}
use van_child_safety.Command.Bare.{only_confirmed_disarms}

-- A parser that knows one object: a disarm by an operator, confirmed or not.
abbrev disarm_object : Bool → JsonObject
disarm_object confirm = record {
  string_at =
      λ key. if same_text key (codes "action") then some (codes "disarm") else some (codes "r1");
  is_true_at = λ key. confirm;
}

abbrev parser : Bool → Parse
parser confirm text = some (disarm_object confirm)

abbrev armed_world : World
armed_world = record power_on {
  bus = record power_on.bus { state = BusState.armed; bus_empty = true; armed_generation = 1 };
}

armed_world-Held : Held armed_world
unfolding is_armed
armed_world-Held = record { consistent = ground arith }

only_confirmed_disarms_example :
    (confirmed (parser true (trim_back (trim_front (codes "{}")))) ≡ true)
    × ((t : Text) × (trim_back (trim_front (codes "{}")) ≡ b'{' ∷ t))
unfolding handle_command disarm
only_confirmed_disarms_example =
    only_confirmed_disarms default_config (at 200) (parser true) (codes "{}") armed_world refl
      (ground arith)

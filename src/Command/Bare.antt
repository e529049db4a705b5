-- ===== src/Command/Bare.antt =====
-- Bare commands on bus/command (main/mqtt_client.c) never disarm, and every command keeps the
-- invariant of the system.
use van_child_safety.Base.{
  ℕ, ◌≡◌, ◌≢◌, ap, Bool, true, false, Option, [], ◌∷◌, inl, inr, arith, Bool-cases, ==_iff,
  if◌then◌else◌, ◌==◌,
}
use van_child_safety.Base.Text.{Text}
use van_child_safety.Types.{BusState}
use van_child_safety.World.{World, Bus, NotifState, Env, TakeSite, Config}
use van_child_safety.Bus.Locked.{
  ack_locked, AckPath, enter_armed_locked, enter_state_locked, force_empty_locked, reset_distress,
}
use van_child_safety.Bus.Commands.{should_transition, clear_distress, force_empty}
use van_child_safety.Alarm.Tracker.{same_notif, handle_ack}
use van_child_safety.Alarm.Ack.{ack_branch, ack_distress}
use van_child_safety.System.Frame.{
  Quiet, Quiet-refl, Quiet-queue_send, Quiet-enter_armed, Quiet-enter_state, Quiet-clear_distress,
  Quiet-sync_and_publish, Quiet-publish_event, Quiet-trans, enter_bus, clear_bus,
}
use van_child_safety.Command.Handler.{
  JsonObject, Parse, trim_front, trim_back, structured_command, bare_command, dispatch_command,
  handle_command,
}
use van_child_safety.Command.Guard.{confirmed, Quiet-result, Quiet-structured}

-- The step does not enter `disarmed`.
record Undisarmed (w w' : World) : Type 0 where
  not_entered : w'.bus.state ≡ BusState.disarmed → w.bus.state ≡ BusState.disarmed

Quiet-Undisarmed : {w w' : World} → Quiet w w' → Undisarmed w w'
Quiet-Undisarmed q = record { not_entered = λ e. cc (ap (λ (b : Bus). b.state) q.bus, e) }

Undisarmed-via :
    {w w' : World} (b : Bus)
    → Quiet (record w { bus = b }) w'
    → (b.state ≡ BusState.disarmed → w.bus.state ≡ BusState.disarmed)
    → Undisarmed w w'
Undisarmed-via b q f = record { not_entered = λ e. f (cc (ap (λ (b : Bus). b.state) q.bus, e)) }

if-Undisarmed :
    (c : Bool) (w : World) (u v : World × Bool)
    → Undisarmed w u.0
    → Undisarmed w v.0
    → Undisarmed w (if c then u else v).0
if-Undisarmed true w u v p q = p
if-Undisarmed false w u v p q = q

either-Undisarmed :
    (c : Bool) (w u v : World) → Undisarmed w u → Undisarmed w v → Undisarmed w (if c then u else v)
either-Undisarmed true w u v p q = p
either-Undisarmed false w u v p q = q

forced_on :
    (g now : ℕ) (raw : Bool) (b : Bus)
    → (enter_bus BusState.active (force_empty_locked g raw now false b)).state ≢ BusState.disarmed
unfolding force_empty_locked enter_state_locked
forced_on g now raw b = ground arith

forced_empty :
    (g now co2 : ℕ) (raw : Bool) (b : Bus)
    → (enter_bus BusState.armed
        (enter_armed_locked co2 (force_empty_locked g raw now true b))).state
      ≢ BusState.disarmed
unfolding force_empty_locked enter_state_locked enter_armed_locked
forced_empty g now co2 raw b = ground arith

cleared : (b : Bus) → (clear_bus b).state ≡ BusState.disarmed → b.state ≡ BusState.disarmed
unfolding should_transition reset_distress enter_state_locked
cleared b e = ground arith

acked : (b : Bus) → (ack_locked b).0.state ≡ BusState.disarmed → b.state ≡ BusState.disarmed
unfolding ack_locked
acked b e = ground arith

module _ (cfg : Config) (env : Env) where
  clear-Undisarmed : (w : World) → Undisarmed w (clear_distress cfg env w)
  clear-Undisarmed w =
      Undisarmed-via (clear_bus w.bus) (Quiet-clear_distress cfg env w) (cleared w.bus)

  force_empty-Undisarmed : (empty : Bool) (w : World) → Undisarmed w (force_empty cfg env empty w)
  unfolding force_empty
  force_empty-Undisarmed true w =
      Undisarmed-via _ (Quiet-enter_armed cfg env _)
        (λ e. absurd (forced_empty cfg.exit_grace_seconds env.now _ env.raw w.bus e))
  force_empty-Undisarmed false w =
      Undisarmed-via _ (Quiet-enter_state cfg env BusState.active _)
        (λ e. absurd (forced_on cfg.exit_grace_seconds env.now env.raw w.bus e))

  handle_ack-Undisarmed : (w : World) → Undisarmed w (handle_ack cfg env w)
  unfolding handle_ack
  handle_ack-Undisarmed w =
      either-Undisarmed (same_notif w.tracker.state NotifState.triggered) w
        (clear_distress cfg env idle) idle
        (record { not_entered = (clear-Undisarmed idle).not_entered })
        (record { not_entered = λ e. e })
    where
      idle : World
      idle = record w { tracker = record w.tracker { state = NotifState.idle; last_send = 0 } }

  ack_branch-Undisarmed : (path : AckPath) (w : World) → Undisarmed w (ack_branch cfg env path w)
  unfolding ack_branch
  ack_branch-Undisarmed AckPath.was_pending w = handle_ack-Undisarmed w
  ack_branch-Undisarmed AckPath.was_active w =
      Quiet-Undisarmed
        (Quiet-trans (Quiet-sync_and_publish cfg env TakeSite.settle w) (Quiet-publish_event _ _))
  ack_branch-Undisarmed AckPath.neither w = Quiet-Undisarmed (Quiet-refl w)

  ack-Undisarmed : (w : World) → Undisarmed w (ack_distress cfg env w)
  unfolding ack_distress
  ack-Undisarmed w =
      let h =
        ack_branch-Undisarmed (ack_locked w.bus).1 (record w { bus = (ack_locked w.bus).0 }) in
      record { not_entered = λ e. acked w.bus (h.not_entered e) }

  bare-Undisarmed : (s : Text) (w : World) → Undisarmed w (bare_command cfg env s w).0
  unfolding bare_command
  bare-Undisarmed s w = if-Undisarmed _ w _ _ (Quiet-Undisarmed (Quiet-result _ _ _ _ _ w)) (
      if-Undisarmed _ w _ _ (Quiet-Undisarmed (Quiet-refl w)) (
        if-Undisarmed _ w _ _ (force_empty-Undisarmed true w) (
          if-Undisarmed _ w _ _ (force_empty-Undisarmed false w) (
            if-Undisarmed _ w _ _ (ack-Undisarmed w) (
              if-Undisarmed _ w _ _ (clear-Undisarmed w) (
                if-Undisarmed _ w _ _ (Quiet-Undisarmed (Quiet-queue_send _ w))
                  (Quiet-Undisarmed (Quiet-refl w))))))))

  structured-Undisarmed :
      (o : Option JsonObject) (w : World)
      → (structured_command cfg env o w).bus.state ≡ BusState.disarmed
      → w.bus.state ≢ BusState.disarmed
      → confirmed o ≡ true
  structured-Undisarmed o w e n = elim (Bool-cases (confirmed o)) [
    | inl c ↦ c
    | inr c ↦ absurd (n ((Quiet-Undisarmed (Quiet-structured cfg env o w c)).not_entered e))
  ]

  dispatched :
      (parse : Parse) (s : Text) (w : World)
      → (dispatch_command cfg parse env s w).0.bus.state ≡ BusState.disarmed
      → w.bus.state ≢ BusState.disarmed
      → (confirmed (parse s) ≡ true) × ((t : Text) × (s ≡ b'{' ∷ t))
  unfolding dispatch_command
  dispatched parse [] w e n = absurd (n ((bare-Undisarmed [] w).not_entered e))
  dispatched parse (c ∷ s) w e n = elim (Bool-cases (c == b'{')) [
    | inl y ↦ (
      structured-Undisarmed (parse (c ∷ s)) w (simp y at e) n,
      (s, ap (λ c. c ∷ s) ((==_iff c b'{').0 y)),
    )
    | inr y ↦ absurd (n ((bare-Undisarmed (c ∷ s) w).not_entered (simp y at e)))
  ]

  -- A command that enters the state disarmed is structured, names the action disarm, and confirms
  -- that the cabin is clear.
  pub only_confirmed_disarms :
      (parse : Parse) (payload : Text) (w : World)
      → (handle_command cfg parse env payload w).0.bus.state ≡ BusState.disarmed
      → w.bus.state ≢ BusState.disarmed
      → let s = trim_back (trim_front payload) in
        (confirmed (parse s) ≡ true) × ((t : Text) × (s ≡ b'{' ∷ t))
  unfolding handle_command
  only_confirmed_disarms parse payload w e n =
      dispatched parse (trim_back (trim_front payload)) w e n

-- ===== src/System/Override.antt =====
-- The ignition that a poll of main/bus_state.c works with, and the manual override.
use van_child_safety.Base.{
  ℕ, ◌≡◌, refl, sym, ◌≢◌, ap, ◌∙◌, Bool, true, false, ◌&&◌, List, [], ◌∷◌, inl, inr, arith, eqb,
  Bool-cases,
}
use van_child_safety.Types.{BusState, same_state}
use van_child_safety.World.{World, Bus, Env, TakeSite, Config}
use van_child_safety.Roster.Distinct.{All}
use van_child_safety.Bus.Locked.{enter_armed_locked, enter_state_locked}
use van_child_safety.Bus.Transitions.{armed_baseline}
use van_child_safety.Bus.Poll.{
  effective_ignition, observe_source, grace_over, apply_edge, end_grace, watch_faults, poll,
}
use van_child_safety.System.Frame.{Quiet, Quiet-set_telemetry_state, Quiet-enter_armed, enter_bus}
use van_child_safety.System.Invariant.{edge_bus}
use van_child_safety.System.Watch.{watch_faults-Watched}
use van_child_safety.System.Steps.{Quiet-apply_edge}

-- The ignition, the override with its value, and the last reading of the source.
record Source (on override value raw : Bool) (b : Bus) : Type 0 where
  ignition_on : b.ignition_on ≡ on
  override_active : b.override_active ≡ override
  override_value : b.override_value ≡ value
  last_raw : b.last_raw ≡ raw

edge-Source :
    (now : ℕ) (on override value raw : Bool) (b : Bus)
    → b.override_active ≡ override
    → b.override_value ≡ value
    → b.last_raw ≡ raw
    → Source on override value raw (edge_bus now on b)
unfolding enter_state_locked
edge-Source now on override value raw b o v l = ground arith

armed-Source :
    (co2 : ℕ) (on override value raw : Bool) (b : Bus)
    → Source on override value raw b
    → Source on override value raw (enter_bus BusState.armed (enter_armed_locked co2 b))
unfolding enter_armed_locked enter_state_locked
armed-Source co2 on override value raw b s = ground arith

Source-eq :
    {on override value raw : Bool} {b b' : Bus}
    → b' ≡ b
    → Source on override value raw b
    → Source on override value raw b'
Source-eq {on} {override} {value} {raw} e s = record {
  ignition_on = ap (λ (b : Bus). b.ignition_on) e ∙ s.ignition_on;
  override_active = ap (λ (b : Bus). b.override_active) e ∙ s.override_active;
  override_value = ap (λ (b : Bus). b.override_value) e ∙ s.override_value;
  last_raw = ap (λ (b : Bus). b.last_raw) e ∙ s.last_raw;
}

module _ (cfg : Config) (env : Env) where
  grace-Source :
      (on override value raw : Bool) (w : World)
      → Source on override value raw w.bus
      → Source on override value raw (end_grace cfg env w).bus
  unfolding end_grace
  grace-Source on override value raw w s =
      elim (Bool-cases (same_state w.bus.state BusState.exit_grace && over)) [
        | inl e ↦ rw e (
            Source-eq (Quiet-enter_armed cfg env w).bus
              (armed-Source (armed_baseline env w) on override value raw w.bus s))
        | inr e ↦ rw e s
      ]
    where
      over : Bool
      over = grace_over cfg.exit_grace_seconds env.now w.bus.exit_grace_started

  poll-Source :
      (w : World)
      → Source
          (effective_ignition env.raw w.bus)
          (w.bus.override_active && eqb env.raw w.bus.last_raw)
          w.bus.override_value
          env.raw
          (poll cfg env w).bus
  unfolding poll observe_source
  poll-Source w =
      let s = grace-Source on override w.bus.override_value env.raw w1 (
        Source-eq q.bus
          (edge-Source env.now on override w.bus.override_value env.raw seen refl refl refl)) in
      let r = watch_faults-Watched env w1.bus.state (end_grace cfg env w1) in
      Source-eq quiet record {
        ignition_on = r.ignition_on ∙ s.ignition_on;
        override_active = r.override_active ∙ s.override_active;
        override_value = r.override_value ∙ s.override_value;
        last_raw = r.last_raw ∙ s.last_raw;
      }
    where
      on : Bool
      on = effective_ignition env.raw w.bus

      override : Bool
      override = w.bus.override_active && eqb env.raw w.bus.last_raw

      seen : Bus
      seen = observe_source env.raw w.bus

      w1 : World
      w1 = apply_edge cfg env on (record w { bus = seen })

      w2 : World
      w2 = watch_faults env w1.bus.state (end_grace cfg env w1)

      q : Quiet (record w { bus = edge_bus env.now on seen }) w1
      q = Quiet-apply_edge cfg env on (record w { bus = seen })

      quiet : (poll cfg env w).bus ≡ w2.bus
      quiet = (Quiet-set_telemetry_state env TakeSite.settle w2).bus

changed_source :
    (raw : Bool) (b : Bus)
    → raw ≢ b.last_raw
    → (effective_ignition raw b ≡ raw) × ((b.override_active && eqb raw b.last_raw) ≡ false)
unfolding effective_ignition
changed_source raw b n = ground arith

not_overridden :
    (raw : Bool) (b : Bus)
    → b.override_active ≡ false
    → (effective_ignition raw b ≡ raw) × ((b.override_active && eqb raw b.last_raw) ≡ false)
unfolding effective_ignition
not_overridden raw b o = ground arith

overridden :
    (raw : Bool) (b : Bus)
    → b.override_active ≡ true
    → raw ≡ b.last_raw
    → (effective_ignition raw b ≡ b.override_value)
      × ((b.override_active && eqb raw b.last_raw) ≡ true)
unfolding effective_ignition
overridden raw b o e = ground arith

-- Polls, one after another; what other tasks do in between is left out.
abbrev pub polls : Config → List Env → World → World
polls cfg [] w = w
polls cfg (env ∷ envs) w = polls cfg envs (poll cfg env w)

module _ (cfg : Config) where
  -- An unchanged source leaves the override in force.
  override_stays :
      (env : Env) (w : World)
      → w.bus.override_active ≡ true
      → env.raw ≡ w.bus.last_raw
      → Source w.bus.override_value true w.bus.override_value w.bus.last_raw (poll cfg env w).bus
  override_stays env w o e =
      let s = poll-Source cfg env w in
      let h = overridden env.raw w.bus o e in
      record {
        ignition_on = s.ignition_on ∙ h.0;
        override_active = s.override_active ∙ h.1;
        override_value = s.override_value;
        last_raw = s.last_raw ∙ e;
      }

  override_persists :
      (envs : List Env) (w : World) (value raw : Bool)
      → Source value true value raw w.bus
      → All (λ (env : Env). env.raw ≡ raw) envs
      → Source value true value raw (polls cfg envs w).bus
  override_persists [] w value raw s h = s
  override_persists (env ∷ envs) w value raw s h =
      let t = override_stays env w s.override_active (h.0 ∙ sym s.last_raw) in
      override_persists envs (poll cfg env w) value raw
        record {
          ignition_on = t.ignition_on ∙ s.override_value;
          override_active = t.override_active;
          override_value = t.override_value ∙ s.override_value;
          last_raw = t.last_raw ∙ s.last_raw;
        }
        h.1

  -- Once a poll finds the source changed, the ignition is the source's and the override is over; with
  -- no override in force the ignition is the source's, and none comes into force. While an override
  -- is in force, any further polls that find the source unchanged work with the override's value,
  -- whatever the source says, and leave the override in force. The poll keeps what it read.
  pub poll_follows_ignition :
      (env : Env) (w : World)
      → let b' = (poll cfg env w).bus in
        (env.raw ≢ w.bus.last_raw → (b'.ignition_on ≡ env.raw) × (b'.override_active ≡ false))
        × (w.bus.override_active ≡ false
            → (b'.ignition_on ≡ env.raw) × (b'.override_active ≡ false))
        × (w.bus.override_active ≡ true
            → env.raw ≡ w.bus.last_raw
            → (envs : List Env) → All (λ (later : Env). later.raw ≡ env.raw) envs
            → let b'' = (polls cfg envs (poll cfg env w)).bus in
              (b''.ignition_on ≡ w.bus.override_value) × (b''.override_active ≡ true))
        × (b'.last_raw ≡ env.raw)
  poll_follows_ignition env w =
      let s = poll-Source cfg env w in
      (
        λ n.
            let c = changed_source env.raw w.bus n in
            (s.ignition_on ∙ c.0, s.override_active ∙ c.1),
        λ o.
            let c = not_overridden env.raw w.bus o in
            (s.ignition_on ∙ c.0, s.override_active ∙ c.1),
        λ o e envs h.
            let t = override_stays env w o e in
            let u =
              override_persists envs (poll cfg env w) w.bus.override_value env.raw
                record {
                  ignition_on = t.ignition_on;
                  override_active = t.override_active;
                  override_value = t.override_value;
                  last_raw = s.last_raw;
                }
                h in
            (u.ignition_on, u.override_active),
        s.last_raw,
      )

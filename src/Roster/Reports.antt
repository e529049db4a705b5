-- ===== src/Roster/Reports.antt =====
-- What the answer to a request says holds of memory and of the NVS partition
-- (main/beacon_config.c).
use van_child_safety.Base.{◌≡◌, ◌⊎◌, refl, sym, ap, ◌∙◌, Bool, true, false, Option, some, inl, inr}
use van_child_safety.Base.Text.{Text}
use van_child_safety.World.{World, Env, Config, ConfigError}
use van_child_safety.Roster.Json.{Cjson}
use van_child_safety.Roster.Document.{Nvs, build_roster_json}
use van_child_safety.Roster.Entry.{Roster, Outcome}
use van_child_safety.Roster.Add.{add_beacon}
use van_child_safety.Roster.Change.{remove_beacon, update_beacon}
use van_child_safety.Roster.Config.{
  Action, Changed, roster_of, write_back, listed_if, change_roster,
}
use van_child_safety.Roster.Requests.{Quiet-listed_if}
use van_child_safety.Roster.Saving.{Saved, all_Saved}
use van_child_safety.Roster.Undo.{all_Undone}

abbrev pub is_list : Action → Bool
is_list Action.list = true
is_list _ = false

abbrev pub is_update : Action → Bool
is_update Action.update = true
is_update _ = false

module _ (cj : Cjson) (cfg : Config) (env : Env) (nvs : Nvs) where
  listed-beacons :
      (t : Bool) (w : World) (x : Roster × Outcome)
      → (listed_if cj cfg t env (write_back w x)).world.beacons ≡ x.0.beacons
  listed-beacons t w x = (Quiet-listed_if cj cfg env t (write_back w x)).beacons

  listed-stored : (t : Bool) (c : Changed) → (listed_if cj cfg t env c).stored ≡ c.stored
  listed-stored true c = refl
  listed-stored false c = refl

  listed-outcome : (t : Bool) (c : Changed) → (listed_if cj cfg t env c).outcome ≡ c.outcome
  listed-outcome true c = refl
  listed-outcome false c = refl

  stored_listed :
      (t : Bool) (w : World) (x : Roster × Outcome)
      → Saved cj cfg nvs env.utc x
      → (listed_if cj cfg t env (write_back w x)).outcome.ok ≡ true
      → let c = listed_if cj cfg t env (write_back w x) in
        c.stored ≡ cj.print (build_roster_json cj cfg env.utc c.world.beacons)
  stored_listed t w x s h =
      listed-stored t (write_back w x)
      ∙ s (sym (ap (λ (o : Outcome). o.ok) (listed-outcome t (write_back w x))) ∙ h)
      ∙ ap (λ bs. cj.print (build_roster_json cj cfg env.utc bs)) (sym (listed-beacons t w x))

  -- An add, a removal or an update that is reported as done has been saved: the key "json" of the
  -- NVS partition holds the printed document of the roster that is then in memory.
  pub done_is_saved :
      (json : cj.Item) (action : Action) (w : World) (stored : Option Text)
      → is_list action ≡ false
      → (change_roster cj cfg env nvs json action w stored).outcome.ok ≡ true
      → let c = change_roster cj cfg env nvs json action w stored in
        c.stored ≡ cj.print (build_roster_json cj cfg env.utc c.world.beacons)
  unfolding change_roster
  done_is_saved json Action.add w stored n h =
      stored_listed true w (add_beacon cj cfg nvs env.utc json (roster_of w stored))
        (all_Saved cj cfg nvs env.utc json (roster_of w stored)).0 h
  done_is_saved json Action.remove w stored n h =
      stored_listed true w (remove_beacon cj cfg nvs env.utc json (roster_of w stored))
        (all_Saved cj cfg nvs env.utc json (roster_of w stored)).1 h
  done_is_saved json Action.update w stored n h =
      stored_listed _ w (update_beacon cj cfg nvs env.utc json (roster_of w stored))
        (all_Saved cj cfg nvs env.utc json (roster_of w stored)).2 h
  done_is_saved json Action.list w stored n h = absurd (cc)
  done_is_saved json Action.unknown w stored n h = absurd (cc)

  -- After an add or a removal that fails, for whatever reason, and after an update that cannot be
  -- saved, the roster in memory is what it was.
  pub failed_change_is_undone :
      (json : cj.Item) (action : Action) (w : World) (stored : Option Text)
      → (change_roster cj cfg env nvs json action w stored).outcome.ok ≡ false
      → (is_update action ≡ false)
        ⊎ ((change_roster cj cfg env nvs json action w stored).outcome.error
            ≡ some ConfigError.nvs_save_failed)
      → (change_roster cj cfg env nvs json action w stored).world.beacons ≡ w.beacons
  unfolding change_roster
  failed_change_is_undone json Action.add w stored h e =
      listed-beacons true w (add_beacon cj cfg nvs env.utc json (roster_of w stored))
      ∙ (all_Undone cj cfg nvs env.utc json (roster_of w stored)).0 h
  failed_change_is_undone json Action.remove w stored h e =
      listed-beacons true w (remove_beacon cj cfg nvs env.utc json (roster_of w stored))
      ∙ (all_Undone cj cfg nvs env.utc json (roster_of w stored)).1 h
  failed_change_is_undone json Action.update w stored h (inl n) = absurd (cc)
  failed_change_is_undone json Action.update w stored h (inr e) =
      let x = update_beacon cj cfg nvs env.utc json (roster_of w stored) in
      listed-beacons _ w x
      ∙ (all_Undone cj cfg nvs env.utc json (roster_of w stored)).2
          (sym (ap (λ (o : Outcome). o.error) (listed-outcome x.1.ok (write_back w x))) ∙ e)
  failed_change_is_undone json Action.list w stored h e = absurd (cc)
  failed_change_is_undone json Action.unknown w stored h e = refl

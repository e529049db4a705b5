-- ===== src/Roster/Faults.antt =====
-- Where updates of main/beacon_config.c go past what its comments promise.
use van_child_safety.Base.{
  ℕ, zero, suc, ◌≡◌, refl, Bool, true, false, Option, none, some, List, [], ◌∷◌, inl, inr, arith,
  Bool-cases, set,
}
use van_child_safety.Base.Int.{ℤ}
use van_child_safety.Base.Text.{Text, codes}
use van_child_safety.Types.{Beacon}
use van_child_safety.World.{World, Env, Config, ConfigError}
use van_child_safety.Roster.Json.{Cjson}
use van_child_safety.Roster.Document.{Nvs, beacon_config_save}
use van_child_safety.Roster.Entry.{Roster, Outcome}
use van_child_safety.Roster.Add.{requested_id}
use van_child_safety.Roster.Change.{
  find_entry, Edited, ◌>>=◌, set_person, set_zone, set_notes, set_channel, set_threshold,
  set_active, restart_if_moved, edit_by, edit, save_edit, update_checked, update_beacon,
}
use van_child_safety.Roster.Config.{Action, is_destructive, blocked}
use van_child_safety.Roster.Found.{At, find_entry-At}

pub At-set : (bs : List Beacon) (i : ℕ) (b e : Beacon) → At bs i b → At (set bs i e) i e
At-set [] i b e a = absurd a
At-set (c ∷ bs) zero b e a = refl
At-set (c ∷ bs) (suc i) b e a = At-set bs i b e a

-- A property of the entry that every completed change has.
bind-final :
    (P : Beacon → Type 0) (m : Edited) (f : Beacon → Edited)
    → ((b : Beacon) → (f b).1 ≡ none → P (f b).0)
    → (m >>= f).1 ≡ none
    → P (m >>= f).0
bind-final P (b, none) f k h = k b h
bind-final P (b, some e) f k h = absurd (cc)

restart_if_moved-active : (snapshot b : Beacon) → (restart_if_moved snapshot b).active ≡ b.active
unfolding restart_if_moved
restart_if_moved-active snapshot b = ground arith

-- Once a change with "active" other than true is complete, the entry is not active.
edit_by-inactive :
    (person channel home_zone notes : Option Text) (rssi : Option (Option ℤ)) (bs : List Beacon)
    (i : ℕ) (b : Beacon)
    → (edit_by person channel home_zone notes rssi (some false) bs i b).1 ≡ none
    → (edit_by person channel home_zone notes rssi (some false) bs i b).0.active ≡ false
unfolding edit_by set_active
edit_by-inactive person channel home_zone notes rssi bs i b h =
    bind-final (λ e. e.active ≡ false) (set_channel channel (set_person person b)) _
      (λ e1 h1.
        bind-final (λ e. e.active ≡ false)
          (set_threshold rssi (set_notes notes (set_zone home_zone e1))) _
          (λ e2 h2. restart_if_moved-active b _) h1)
      h

module _ (cj : Cjson) (cfg : Config) (nvs : Nvs) (env : Env) where
  -- The entry at the position, and what holds of it.
  abbrev Holds : Roster × Outcome → ℕ → (Beacon → Type 0) → Type 0
  Holds x i P = (e : Beacon) × At x.0.beacons i e × P e

  save_edit-ok :
      (alias : Bool) (r : Roster) (i : ℕ) (b : Beacon) (e : Edited) (P : Beacon → Type 0)
      → At r.beacons i b
      → (e.1 ≡ none → P e.0)
      → (save_edit cj cfg nvs env.utc alias r i b e).1.ok ≡ true
      → Holds (save_edit cj cfg nvs env.utc alias r i b e) i P
  unfolding save_edit
  save_edit-ok alias r i b (e, some x) P a p h = absurd (cc)
  save_edit-ok alias r i b (e, none) P a p h =
      elim (Bool-cases (beacon_config_save cj cfg nvs env.utc (set r.beacons i e) r.stored).1) [
        | inl s ↦ rw s (e, At-set r.beacons i b e a, p refl)
        | inr s ↦ absurd (ground (arith, h, s))
      ]

  edit-inactive :
      (json a : cj.Item) (bs : List Beacon) (i : ℕ) (b : Beacon)
      → cj.get_item json (codes "active") ≡ some a
      → cj.is_true a ≡ false
      → (edit cj json bs i b).1 ≡ none
      → (edit cj json bs i b).0.active ≡ false
  unfolding edit
  edit-inactive json a bs i b g t = rw (g, t) (edit_by-inactive _ _ _ _ _ bs i b)

  checked-ok :
      (json : cj.Item) (alias : Bool) (r : Roster) (i : ℕ) (b : Beacon) (o : Option ConfigError)
      (P : Beacon → Type 0)
      → At r.beacons i b
      → ((edit cj json r.beacons i b).1 ≡ none → P (edit cj json r.beacons i b).0)
      → (update_checked cj cfg nvs env.utc json alias r i b o).1.ok ≡ true
      → Holds (update_checked cj cfg nvs env.utc json alias r i b o) i P
  checked-ok json alias r i b (some x) P a p h = absurd (cc)
  checked-ok json alias r i b none P a p h = save_edit-ok alias r i b _ P a p h

  -- An update whose "active" member is neither true nor false, such as 0 or null, is let through
  -- in any state of the unit; when it is reported as done, the entry that it names is inactive.
  pub unguarded_update_deactivates :
      (json a : cj.Item) (w : World) (r : Roster) (id : Text) (i : ℕ) (b : Beacon)
      → cj.get_item json (codes "active") ≡ some a
      → cj.is_true a ≡ false
      → cj.is_false a ≡ false
      → (requested_id cj json).0 ≡ some id
      → find_entry id r.beacons ≡ some (i, b)
      → (update_beacon cj cfg nvs env.utc json r).1.ok ≡ true
      → (blocked cj cfg json Action.update w ≡ none)
        × ((e : Beacon) × At (update_beacon cj cfg nvs env.utc json r).0.beacons i e
            × (e.active ≡ false))
  unfolding blocked is_destructive update_beacon
  unguarded_update_deactivates json a w r id i b g t f q found h = (
    rw (g, f) refl,
    rw (q, found)
        (checked-ok json _ r i b _ (λ e. e.active ≡ false) (find_entry-At id r.beacons i b found)
          (edit-inactive json a r.beacons i b g t) (rw (q, found) at h)),
  )

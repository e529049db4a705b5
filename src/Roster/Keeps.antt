-- ===== src/Roster/Keeps.antt =====
-- Every change keeps the roster well-formed, whether it is refused, saved, or taken back
-- (main/beacon_config.c).
use van_child_safety.Base.{
  ℕ, ◌≡◌, refl, Bool, true, false, Option, none, some, [], ◌∷◌, ◌++◌, inl, inr, Option-cases, set,
  if◌then◌else◌,
}
use van_child_safety.Base.Text.{Text}
use van_child_safety.Types.{Beacon}
use van_child_safety.World.{Tm, Config, ConfigError}
use van_child_safety.Roster.Json.{Cjson}
use van_child_safety.Roster.Document.{Nvs, beacon_config_save}
use van_child_safety.Roster.Entry.{Roster, Outcome, Checked, accept, reject}
use van_child_safety.Roster.Add.{requested_id, new_entry, add_checked, add_beacon}
use van_child_safety.Roster.Change.{
  remove_at, find_entry, Edited, edit, text_error, remove_found, remove_beacon, save_edit,
  update_checked, update_found, find_requested, update_beacon,
}
use van_child_safety.Roster.Found.{
  At, find_entry-At, insert_at-remove_at, set-set, Apart-others, All-At,
}
use van_child_safety.Roster.Valid.{
  IsEntry, IsRoster, IsRoster-snoc, IsRoster-remove_at, IsRoster-set,
}
use van_child_safety.Roster.Editing.{IsGood, edit-IsGood}
use van_child_safety.Roster.Adding.{Fits, new_entry-Fits}

-- A test decides between two rosters.
either-IsRoster :
    (t : Bool) (a b : Roster × Outcome)
    → IsRoster a.0.beacons
    → IsRoster b.0.beacons
    → IsRoster (if t then a else b).0.beacons
either-IsRoster true a b p q = p
either-IsRoster false a b p q = q

module _ (cj : Cjson) (cfg : Config) (nvs : Nvs) (utc : Tm) where
  add_checked-IsRoster :
      (alias : Bool) (r : Roster) (c : Checked Beacon)
      → ((b : Beacon) → c ≡ accept b → Fits r.beacons b)
      → IsRoster r.beacons
      → IsRoster (add_checked cj cfg nvs utc alias r c).0.beacons
  add_checked-IsRoster alias r (reject e) fits h = h
  add_checked-IsRoster alias r (accept b) fits h =
      let f = fits b refl in
      either-IsRoster (beacon_config_save cj cfg nvs utc (r.beacons ++ b ∷ []) r.stored).1 _ _
        (IsRoster-snoc r.beacons b h f.0 f.1 f.2) h

  pub add_beacon-IsRoster :
      (json : cj.Item) (r : Roster)
      → IsRoster r.beacons
      → IsRoster (add_beacon cj cfg nvs utc json r).0.beacons
  unfolding add_beacon
  add_beacon-IsRoster json r h =
      let id = (requested_id cj json).0 in
      add_checked-IsRoster (requested_id cj json).1 r (new_entry cj json id r.beacons)
        (new_entry-Fits cj json id r.beacons) h

  remove_found-IsRoster :
      (alias : Bool) (r : Roster) (found : Option (ℕ × Beacon))
      → ((i : ℕ) (b : Beacon) → found ≡ some (i, b) → At r.beacons i b)
      → IsRoster r.beacons
      → IsRoster (remove_found cj cfg nvs utc alias r found).0.beacons
  remove_found-IsRoster alias r none at h = h
  remove_found-IsRoster alias r (some (i, b)) at h =
      either-IsRoster (beacon_config_save cj cfg nvs utc (remove_at i r.beacons) r.stored).1 _ _
        (IsRoster-remove_at r.beacons i b (at i b refl) h)
        (rw (insert_at-remove_at r.beacons i b (at i b refl)) h)

  pub remove_beacon-IsRoster :
      (json : cj.Item) (r : Roster)
      → IsRoster r.beacons
      → IsRoster (remove_beacon cj cfg nvs utc json r).0.beacons
  unfolding remove_beacon
  remove_beacon-IsRoster json r h =
      either-IsRoster _ _ _
        (remove_found-IsRoster (requested_id cj json).1 r (find_entry _ r.beacons)
          (λ i b. find_entry-At _ r.beacons i b) h)
        h

  save_edit-IsRoster :
      (alias : Bool) (r : Roster) (i : ℕ) (b : Beacon) (e : Edited)
      → At r.beacons i b
      → IsGood (remove_at i r.beacons) e.0
      → IsRoster r.beacons
      → IsRoster (save_edit cj cfg nvs utc alias r i b e).0.beacons
  unfolding save_edit
  save_edit-IsRoster alias r i b (e, some x) a g h = IsRoster-set r.beacons i e h g.0 g.1
  save_edit-IsRoster alias r i b (e, none) a g h =
      either-IsRoster (beacon_config_save cj cfg nvs utc (set r.beacons i e) r.stored).1 _ _
        (IsRoster-set r.beacons i e h g.0 g.1) (rw (set-set r.beacons i b e a) h)

  update_checked-IsRoster :
      (json : cj.Item) (alias : Bool) (r : Roster) (i : ℕ) (b : Beacon) (o : Option ConfigError)
      → At r.beacons i b
      → IsRoster r.beacons
      → IsRoster (update_checked cj cfg nvs utc json alias r i b o).0.beacons
  update_checked-IsRoster json alias r i b (some x) a h = h
  update_checked-IsRoster json alias r i b none a h =
      save_edit-IsRoster alias r i b (edit cj json r.beacons i b) a
        (edit-IsGood cj json r.beacons i b
          (All-At IsEntry r.beacons i b h.entries a, Apart-others r.beacons i b a h.distinct))
        h

  update_found-IsRoster :
      (json : cj.Item) (alias : Bool) (r : Roster) (id : Option Text)
      → IsRoster r.beacons
      → IsRoster
          (update_found cj cfg nvs utc json alias r (find_requested cj cfg id r.beacons)).0.beacons
  update_found-IsRoster json alias r none h = h
  update_found-IsRoster json alias r (some id) h = elim (Option-cases (find_entry id r.beacons)) [
    | inl e ↦ rw e h
    | inr ((i, b), e) ↦ rw e (
        update_checked-IsRoster json alias r i b (text_error cj json)
          (find_entry-At id r.beacons i b e) h)
  ]

  pub update_beacon-IsRoster :
      (json : cj.Item) (r : Roster)
      → IsRoster r.beacons
      → IsRoster (update_beacon cj cfg nvs utc json r).0.beacons
  unfolding update_beacon
  update_beacon-IsRoster json r h = update_found-IsRoster json _ r _ h

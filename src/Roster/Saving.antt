-- ===== src/Roster/Saving.antt =====
-- What a change that is reported as done, or as failed, leaves in memory and in the NVS partition
-- (main/beacon_config.c).
use van_child_safety.Base.{
  ℕ, ◌≡◌, refl, Bool, true, false, Option, none, some, List, [], ◌∷◌, ◌++◌, inl, inr, arith,
  Bool-cases, set, if◌then◌else◌,
}
use van_child_safety.Base.Text.{Text}
use van_child_safety.Types.{Beacon}
use van_child_safety.World.{Tm, Config, ConfigError}
use van_child_safety.Roster.Fields.{valid_id}
use van_child_safety.Roster.Json.{Cjson}
use van_child_safety.Roster.Document.{Nvs, write_text, build_roster_json, beacon_config_save}
use van_child_safety.Roster.Entry.{Roster, Outcome, Checked, accept, reject}
use van_child_safety.Roster.Add.{requested_id, new_entry, add_checked, add_beacon}
use van_child_safety.Roster.Change.{
  remove_at, Edited, edit, text_error, remove_found, remove_beacon, save_edit, update_checked,
  update_found, update_beacon,
}

write_text-stored :
    (nvs : Nvs) (json stored : Option Text)
    → (write_text nvs json stored).1 ≡ true
    → (write_text nvs json stored).0 ≡ json
write_text-stored nvs none stored h = absurd (cc)
write_text-stored nvs (some json) stored h = ground (arith, h)

module _ (cj : Cjson) (cfg : Config) (nvs : Nvs) (utc : Tm) where
  pub save-stored :
      (bs : List Beacon) (stored : Option Text)
      → (beacon_config_save cj cfg nvs utc bs stored).1 ≡ true
      → (beacon_config_save cj cfg nvs utc bs stored).0 ≡ cj.print (build_roster_json cj cfg utc bs)
  unfolding beacon_config_save
  save-stored bs stored h = elim (Bool-cases nvs.opens) [
    | inl e ↦ rw e (write_text-stored nvs _ stored (rw e at h))
    | inr e ↦ absurd (ground (arith, h, e))
  ]

  -- Done means saved: the key "json" holds the document of the roster in memory.
  abbrev pub Saved : Roster × Outcome → Type 0
  Saved (r, o) = o.ok ≡ true → r.stored ≡ cj.print (build_roster_json cj cfg utc r.beacons)

  save_branch :
      (bs : List Beacon) (stored : Option Text) (o : Outcome) (x : Roster × Outcome)
      → x.1.ok ≡ false
      → let s = beacon_config_save cj cfg nvs utc bs stored in
        Saved (if s.1 then (record { beacons = bs; stored = s.0 }, o) else x)
  save_branch bs stored o (r, p) n =
      elim (Bool-cases (beacon_config_save cj cfg nvs utc bs stored).1) [
        | inl e ↦ rw e (λ _. save-stored bs stored e)
        | inr e ↦ rw e (λ h. absurd (ground (arith, h, n)))
      ]

  add_checked-Saved :
      (alias : Bool) (r : Roster) (c : Checked Beacon)
      → Saved (add_checked cj cfg nvs utc alias r c)
  add_checked-Saved alias r (reject e) = λ h. absurd (cc)
  add_checked-Saved alias r (accept b) = save_branch (r.beacons ++ b ∷ []) r.stored _ _ refl

  remove_found-Saved :
      (alias : Bool) (r : Roster) (found : Option (ℕ × Beacon))
      → Saved (remove_found cj cfg nvs utc alias r found)
  remove_found-Saved alias r none = λ h. absurd (cc)
  remove_found-Saved alias r (some (i, b)) = save_branch (remove_at i r.beacons) r.stored _ _ refl

  save_edit-Saved :
      (alias : Bool) (r : Roster) (i : ℕ) (b : Beacon) (e : Edited)
      → Saved (save_edit cj cfg nvs utc alias r i b e)
  unfolding save_edit
  save_edit-Saved alias r i b (e, some x) = λ h. absurd (cc)
  save_edit-Saved alias r i b (e, none) = save_branch (set r.beacons i e) r.stored _ _ refl

  update_checked-Saved :
      (json : cj.Item) (alias : Bool) (r : Roster) (i : ℕ) (b : Beacon) (o : Option ConfigError)
      → Saved (update_checked cj cfg nvs utc json alias r i b o)
  update_checked-Saved json alias r i b (some x) = λ h. absurd (cc)
  update_checked-Saved json alias r i b none =
      save_edit-Saved alias r i b (edit cj json r.beacons i b)

  update_found-Saved :
      (json : cj.Item) (alias : Bool) (r : Roster) (found : Option (ℕ × Beacon))
      → Saved (update_found cj cfg nvs utc json alias r found)
  update_found-Saved json alias r none = λ h. absurd (cc)
  update_found-Saved json alias r (some (i, b)) =
      update_checked-Saved json alias r i b (text_error cj json)

  pub all_Saved :
      (json : cj.Item) (r : Roster)
      → Saved (add_beacon cj cfg nvs utc json r)
        × Saved (remove_beacon cj cfg nvs utc json r)
        × Saved (update_beacon cj cfg nvs utc json r)
  unfolding add_beacon remove_beacon update_beacon
  all_Saved json r = (
    add_checked-Saved _ r (new_entry cj json _ r.beacons),
    remove_Saved,
    update_found-Saved json _ r _,
  )
    where
      remove_Saved : Saved (remove_beacon cj cfg nvs utc json r)
      remove_Saved = elim (Bool-cases (valid_id (requested_id cj json).0)) [
        | inl e ↦ rw e (remove_found-Saved (requested_id cj json).1 r _)
        | inr e ↦ rw e (λ h. absurd (cc))
      ]

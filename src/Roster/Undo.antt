-- ===== src/Roster/Undo.antt =====
-- What a change that failed leaves of the roster in memory (main/beacon_config.c): an add or a
-- removal is taken back, and so is an update that cannot be saved; another refused update is not.
use van_child_safety.Base.{
  ℕ, ◌≡◌, ◌≢◌, refl, Bool, false, Option, none, some, List, inl, inr, arith, Bool-cases, set,
}
use van_child_safety.Base.Int.{ℤ}
use van_child_safety.Base.Text.{Text}
use van_child_safety.Types.{Beacon}
use van_child_safety.World.{Tm, Config, ConfigError}
use van_child_safety.Roster.Fields.{valid_id}
use van_child_safety.Roster.Json.{Cjson}
use van_child_safety.Roster.Document.{Nvs}
use van_child_safety.Roster.Entry.{Roster, Outcome, Checked, accept, reject}
use van_child_safety.Roster.Add.{requested_id, new_entry, add_checked, add_beacon}
use van_child_safety.Roster.Change.{
  Edited, ◌>>=◌, set_person, set_zone, set_notes, set_channel, set_threshold, set_active, edit_by,
  edit, text_error, remove_found, remove_beacon, save_edit, update_checked, update_found,
  find_requested, update_beacon,
}
use van_child_safety.Roster.Found.{At, find_entry-At, insert_at-remove_at, set-set}

-- Only the save fails with "nvs_save_failed".
abbrev NotSaveError : Edited → Type 0
NotSaveError e = e.1 ≢ some ConfigError.nvs_save_failed

bind-NotSaveError :
    (m : Edited) (f : Beacon → Edited)
    → NotSaveError m
    → ((b : Beacon) → NotSaveError (f b))
    → NotSaveError (m >>= f)
bind-NotSaveError (b, none) f n k = k b
bind-NotSaveError (b, some e) f n k = n

set_channel-NotSaveError : (s : Option Text) (b : Beacon) → NotSaveError (set_channel s b)
unfolding set_channel
set_channel-NotSaveError none b h = cc
set_channel-NotSaveError (some s) b h = ground (arith, h)

set_threshold-NotSaveError : (n : Option (Option ℤ)) (b : Beacon) → NotSaveError (set_threshold n b)
unfolding set_threshold
set_threshold-NotSaveError none b h = cc
set_threshold-NotSaveError (some none) b h = cc
set_threshold-NotSaveError (some (some n)) b h = ground (arith, h)

set_active-NotSaveError :
    (on : Option Bool) (bs : List Beacon) (b : Beacon) → NotSaveError (set_active on bs b)
unfolding set_active
set_active-NotSaveError none bs b h = cc
set_active-NotSaveError (some on) bs b h = ground (arith, h)

edit_by-NotSaveError :
    (person channel home_zone notes : Option Text) (rssi : Option (Option ℤ)) (on : Option Bool)
    (bs : List Beacon) (i : ℕ) (b : Beacon)
    → NotSaveError (edit_by person channel home_zone notes rssi on bs i b)
unfolding edit_by
edit_by-NotSaveError person channel home_zone notes rssi on bs i b =
    bind-NotSaveError (set_channel channel (set_person person b)) _
      (set_channel-NotSaveError channel _)
      λ e1.
        bind-NotSaveError (set_threshold rssi (set_notes notes (set_zone home_zone e1))) _
          (set_threshold-NotSaveError rssi _)
          λ e2.
            bind-NotSaveError (set_active on (set bs i e2) e2) _ (set_active-NotSaveError on _ e2)
              λ e3 h. absurd (cc)

module _ (cj : Cjson) (cfg : Config) (nvs : Nvs) (utc : Tm) where
  -- The roster in memory is as before.
  abbrev pub Undone : Roster → Roster × Outcome → Type 0
  Undone r (r', o) = o.ok ≡ false → r'.beacons ≡ r.beacons

  add_checked-Undone :
      (alias : Bool) (r : Roster) (c : Checked Beacon)
      → Undone r (add_checked cj cfg nvs utc alias r c)
  add_checked-Undone alias r (reject e) = λ h. refl
  add_checked-Undone alias r (accept b) = λ h. ground (arith, h)

  remove_found-Undone :
      (alias : Bool) (r : Roster) (found : Option (ℕ × Beacon))
      → ((i : ℕ) (b : Beacon) → found ≡ some (i, b) → At r.beacons i b)
      → Undone r (remove_found cj cfg nvs utc alias r found)
  remove_found-Undone alias r none at = λ h. refl
  remove_found-Undone alias r (some (i, b)) at =
      λ h. ground (arith, h, insert_at-remove_at r.beacons i b (at i b refl))

  save_edit-Undone :
      (alias : Bool) (r : Roster) (i : ℕ) (b : Beacon) (e : Edited)
      → At r.beacons i b
      → e.1 ≢ some ConfigError.nvs_save_failed
      → (save_edit cj cfg nvs utc alias r i b e).1.error ≡ some ConfigError.nvs_save_failed
      → (save_edit cj cfg nvs utc alias r i b e).0.beacons ≡ r.beacons
  unfolding save_edit
  save_edit-Undone alias r i b (e, some x) a n h = absurd (n h)
  save_edit-Undone alias r i b (e, none) a n h = ground (arith, h, set-set r.beacons i b e a)

  update_checked-Undone :
      (json : cj.Item) (alias : Bool) (r : Roster) (i : ℕ) (b : Beacon) (o : Option ConfigError)
      → At r.beacons i b
      → (update_checked cj cfg nvs utc json alias r i b o).1.error
        ≡ some ConfigError.nvs_save_failed
      → (update_checked cj cfg nvs utc json alias r i b o).0.beacons ≡ r.beacons
  unfolding edit
  update_checked-Undone json alias r i b (some x) a h = refl
  update_checked-Undone json alias r i b none a h =
      save_edit-Undone alias r i b (edit cj json r.beacons i b) a
        (edit_by-NotSaveError _ _ _ _ _ _ r.beacons i b) h

  update_found-Undone :
      (json : cj.Item) (alias : Bool) (r : Roster) (found : Option (ℕ × Beacon))
      → ((i : ℕ) (b : Beacon) → found ≡ some (i, b) → At r.beacons i b)
      → (update_found cj cfg nvs utc json alias r found).1.error ≡ some ConfigError.nvs_save_failed
      → (update_found cj cfg nvs utc json alias r found).0.beacons ≡ r.beacons
  update_found-Undone json alias r none at h = refl
  update_found-Undone json alias r (some (i, b)) at h =
      update_checked-Undone json alias r i b (text_error cj json) (at i b refl) h

  requested-At :
      (id : Option Text) (bs : List Beacon) (i : ℕ) (b : Beacon)
      → find_requested cj cfg id bs ≡ some (i, b)
      → At bs i b
  requested-At none bs i b h = absurd (cc)
  requested-At (some id) bs i b h = find_entry-At id bs i b h

  pub all_Undone :
      (json : cj.Item) (r : Roster)
      → Undone r (add_beacon cj cfg nvs utc json r)
        × Undone r (remove_beacon cj cfg nvs utc json r)
        × ((update_beacon cj cfg nvs utc json r).1.error ≡ some ConfigError.nvs_save_failed
            → (update_beacon cj cfg nvs utc json r).0.beacons ≡ r.beacons)
  unfolding add_beacon remove_beacon update_beacon
  all_Undone json r = (
    add_checked-Undone _ r (new_entry cj json _ r.beacons),
    remove_Undone,
    update_found-Undone json _ r _ (requested-At _ r.beacons),
  )
    where
      remove_Undone : Undone r (remove_beacon cj cfg nvs utc json r)
      remove_Undone = elim (Bool-cases (valid_id (requested_id cj json).0)) [
        | inl e ↦ rw e (
            remove_found-Undone (requested_id cj json).1 r _ (λ i b. find_entry-At _ r.beacons i b))
        | inr e ↦ rw e (λ h. refl)
      ]

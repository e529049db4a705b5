-- ===== src/Roster/Rejected.antt =====
-- An update of main/beacon_config.c that is refused half-way keeps what it changed before.
use van_child_safety.Base.{
  ℕ, ◌≡◌, ◌≢◌, refl, Bool, false, Option, none, some, List, inl, inr, arith, Bool-cases, set,
}
use van_child_safety.Base.Int.{ℤ}
use van_child_safety.Base.Text.{Text, codes, is_empty, copy_string}
use van_child_safety.Types.{Beacon}
use van_child_safety.World.{Env, Config, ConfigError}
use van_child_safety.Roster.Json.{Cjson, json_string_or_null}
use van_child_safety.Roster.Document.{Nvs, beacon_config_save}
use van_child_safety.Roster.Entry.{Roster, Outcome}
use van_child_safety.Roster.Add.{requested_id}
use van_child_safety.Roster.Change.{
  find_entry, Edited, ◌>>=◌, set_person, set_zone, set_notes, set_channel, set_threshold,
  set_active, restart_if_moved, edit_by, edit, text_error, save_edit, update_beacon,
}
use van_child_safety.Roster.Found.{At, find_entry-At}
use van_child_safety.Roster.Faults.{At-set}

bind-keeps :
    (P : Beacon → Type 0) (m : Edited) (f : Beacon → Edited)
    → P m.0
    → ((b : Beacon) → P b → P (f b).0)
    → P (m >>= f).0
bind-keeps P (b, none) f p k = k b p
bind-keeps P (b, some e) f p k = p

-- The steps after the person's name leave it alone.
module _ (name : Text) where
  abbrev Named : Beacon → Type 0
  Named b = b.person_name ≡ name

  set_channel-Named : (s : Option Text) (b : Beacon) → Named b → Named (set_channel s b).0
  unfolding set_channel
  set_channel-Named none b h = h
  set_channel-Named (some s) b h = ground (arith, h)

  set_zone-Named : (s : Option Text) (b : Beacon) → Named b → Named (set_zone s b)
  set_zone-Named none b h = h
  set_zone-Named (some s) b h = h

  set_notes-Named : (s : Option Text) (b : Beacon) → Named b → Named (set_notes s b)
  set_notes-Named none b h = h
  set_notes-Named (some s) b h = h

  set_threshold-Named : (n : Option (Option ℤ)) (b : Beacon) → Named b → Named (set_threshold n b).0
  unfolding set_threshold
  set_threshold-Named none b h = h
  set_threshold-Named (some none) b h = h
  set_threshold-Named (some (some n)) b h = ground (arith, h)

  set_active-Named :
      (on : Option Bool) (bs : List Beacon) (b : Beacon) → Named b → Named (set_active on bs b).0
  unfolding set_active
  set_active-Named none bs b h = h
  set_active-Named (some on) bs b h = ground (arith, h)

  restart-Named : (snapshot b : Beacon) → Named b → Named (restart_if_moved snapshot b)
  unfolding restart_if_moved
  restart-Named snapshot b h = ground (arith, h)

edit_by-person :
    (p : Text) (channel home_zone notes : Option Text) (rssi : Option (Option ℤ)) (on : Option Bool)
    (bs : List Beacon) (i : ℕ) (b : Beacon)
    → (edit_by (some p) channel home_zone notes rssi on bs i b).0.person_name ≡ copy_string 49 p
unfolding edit_by
edit_by-person p channel home_zone notes rssi on bs i b =
    let name = copy_string 49 p in
    bind-keeps (Named name) (set_channel channel (set_person (some p) b)) _
      (set_channel-Named name channel _ refl)
      λ e1 h1.
        bind-keeps (Named name) (set_threshold rssi (set_notes notes (set_zone home_zone e1))) _
          (set_threshold-Named name rssi _
            (set_notes-Named name notes _ (set_zone-Named name home_zone e1 h1)))
          λ e2 h2.
            bind-keeps (Named name) (set_active on (set bs i e2) e2) _
              (set_active-Named name on _ e2 h2) λ e3 h3. restart-Named name b e3 h3

module _ (cj : Cjson) (cfg : Config) (nvs : Nvs) (env : Env) where
  edit-person :
      (json : cj.Item) (p : Text) (bs : List Beacon) (i : ℕ) (b : Beacon)
      → json_string_or_null cj (some json) (codes "person_name") ≡ some p
      → is_empty p ≡ false
      → (edit cj json bs i b).0.person_name ≡ copy_string 49 p
  unfolding edit
  edit-person json p bs i b n e = rw (n, e) (edit_by-person p _ _ _ _ _ bs i b)

  -- What a refused update leaves: the entry with the new name, and the stored roster as it was.
  abbrev Left : Roster → ℕ → Text → Roster × Outcome → Type 0
  Left r i p x =
      (e : Beacon) × At x.0.beacons i e
      × (e.person_name ≡ copy_string 49 p)
      × (x.0.stored ≡ r.stored)

  save_edit-Left :
      (alias : Bool) (r : Roster) (i : ℕ) (b : Beacon) (e : Edited) (p : Text) (x : ConfigError)
      → At r.beacons i b
      → e.0.person_name ≡ copy_string 49 p
      → (save_edit cj cfg nvs env.utc alias r i b e).1.error ≡ some x
      → x ≢ ConfigError.nvs_save_failed
      → Left r i p (save_edit cj cfg nvs env.utc alias r i b e)
  unfolding save_edit
  save_edit-Left alias r i b (e, some y) p x a n h s = (e, At-set r.beacons i b e a, n, refl)
  save_edit-Left alias r i b (e, none) p x a n h s =
      elim (Bool-cases (beacon_config_save cj cfg nvs env.utc (set r.beacons i e) r.stored).1) [
        | inl t ↦ absurd (ground (arith, h, t))
        | inr t ↦ absurd (s (ground (arith, h, t)))
      ]

  -- An update that passes the first checks and names a person, and then is refused for its
  -- channel, its threshold or its identity, has renamed the entry in memory all the same, while
  -- the stored roster is as before.
  pub refused_update_renames :
      (json : cj.Item) (r : Roster) (id p : Text) (i : ℕ) (b : Beacon) (x : ConfigError)
      → (requested_id cj json).0 ≡ some id
      → find_entry id r.beacons ≡ some (i, b)
      → text_error cj json ≡ none
      → json_string_or_null cj (some json) (codes "person_name") ≡ some p
      → is_empty p ≡ false
      → (update_beacon cj cfg nvs env.utc json r).1.error ≡ some x
      → x ≢ ConfigError.nvs_save_failed
      → (e : Beacon) × At (update_beacon cj cfg nvs env.utc json r).0.beacons i e
        × (e.person_name ≡ copy_string 49 p)
        × ((update_beacon cj cfg nvs env.utc json r).0.stored ≡ r.stored)
  unfolding update_beacon
  refused_update_renames json r id p i b x q found t n e h s =
      rw (q, found, t)
        (save_edit-Left _ r i b _ p x (find_entry-At id r.beacons i b found)
          (edit-person json p r.beacons i b n e) (rw (q, found, t) at h) s)

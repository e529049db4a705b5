-- ===== src/Roster/Distinct.antt =====
-- Rosters in which no two entries clash: ids differ, in any case of their letters, and so do the
-- identities of active iBeacons (main/beacon_config.c).
use van_child_safety.Base.{
  ℕ, zero, suc, ◌≡◌, refl, ◌∙◌, Bool, true, false, ◌&&◌, List, [], ◌∷◌, ◌++◌, arith, ◌==◌, set,
}
use van_child_safety.Base.Text.{Text, same_id, same_text, to_lower}
use van_child_safety.Types.{Beacon}
use van_child_safety.Ble.Advert.{is_ibeacon}
use van_child_safety.Roster.Entry.{has_identity, duplicate_id, duplicate_identity}
use van_child_safety.Roster.Change.{remove_at}

abbrev pub All {ℓ κ} : {A : Type ℓ} → (A → Type κ) → List A → Type κ
All P [] = Unit
All P (x ∷ xs) = P x × All P xs

-- Both are active iBeacons, and of one identity.
abbrev pub shares : Beacon → Beacon → Bool
shares a b = (a.active && is_ibeacon a.kind) && has_identity a.uuid a.major a.minor b

-- Another id, and another identity if both are active iBeacons.
abbrev pub Apart : Beacon → Beacon → Type 0
Apart a b = (same_id a.name b.name ≡ false) × (shares a b ≡ false)

abbrev pub Distinct : List Beacon → Type 0
Distinct [] = Unit
Distinct (b ∷ bs) = All (Apart b) bs × Distinct bs

==_comm : (a b : ℕ) → (a == b) ≡ (b == a)
==_comm a b = ground arith

pub same_id_comm : (s t : Text) → same_id s t ≡ same_id t s
unfolding same_id
same_id_comm [] [] = refl
same_id_comm [] (_ ∷ _) = refl
same_id_comm (_ ∷ _) [] = refl
same_id_comm (a ∷ s) (b ∷ t) = rw (==_comm (to_lower a) (to_lower b), same_id_comm s t) refl

same_text_comm : (s t : Text) → same_text s t ≡ same_text t s
unfolding same_text
same_text_comm [] [] = refl
same_text_comm [] (_ ∷ _) = refl
same_text_comm (_ ∷ _) [] = refl
same_text_comm (a ∷ s) (b ∷ t) = rw (==_comm a b, same_text_comm s t) refl

&&_swap : (p q r : Bool) → (p && (q && r)) ≡ (q && (p && r))
&&_swap true q r = refl
&&_swap false true r = refl
&&_swap false false r = refl

shares_comm : (a b : Beacon) → shares a b ≡ shares b a
shares_comm a b =
    rw (same_text_comm b.uuid a.uuid, ==_comm b.major a.major, ==_comm b.minor a.minor)
      (&&_swap (a.active && is_ibeacon a.kind) (b.active && is_ibeacon b.kind) _)

pub Apart-comm : (a b : Beacon) → Apart a b → Apart b a
Apart-comm a b h = (same_id_comm b.name a.name ∙ h.0, shares_comm b a ∙ h.1)

module _ {ℓ} (P : Beacon → Type ℓ) where
  pub All-snoc : (bs : List Beacon) (b : Beacon) → All P bs → P b → All P (bs ++ b ∷ [])
  All-snoc [] b h p = (p, tt)
  All-snoc (c ∷ bs) b h p = (h.0, All-snoc bs b h.1 p)

  pub All-map {κ} :
      (Q : Beacon → Type κ) (bs : List Beacon) → ((b : Beacon) → P b → Q b) → All P bs → All Q bs
  All-map Q [] f h = tt
  All-map Q (b ∷ bs) f h = (f b h.0, All-map Q bs f h.1)

  pub All-zip {κ} :
      (Q : Beacon → Type κ) (bs : List Beacon)
      → All P bs
      → All Q bs
      → All (λ (b : Beacon). P b × Q b) bs
  All-zip Q [] g h = tt
  All-zip Q (b ∷ bs) g h = ((g.0, h.0), All-zip Q bs g.1 h.1)

  pub All-remove_at : (i : ℕ) (bs : List Beacon) → All P bs → All P (remove_at i bs)
  unfolding remove_at
  All-remove_at i [] h = tt
  All-remove_at zero (b ∷ bs) h = h.1
  All-remove_at (suc i) (b ∷ bs) h = (h.0, All-remove_at i bs h.1)

  pub All-set : (bs : List Beacon) (i : ℕ) (e : Beacon) → All P bs → P e → All P (set bs i e)
  All-set [] i e h p = tt
  All-set (b ∷ bs) zero e h p = (p, h.1)
  All-set (b ∷ bs) (suc i) e h p = (h.0, All-set bs i e h.1 p)

pub Distinct-snoc :
    (bs : List Beacon) (b : Beacon) → Distinct bs → All (Apart b) bs → Distinct (bs ++ b ∷ [])
Distinct-snoc [] b d h = (tt, tt)
Distinct-snoc (c ∷ bs) b d h =
    (All-snoc (Apart c) bs b d.0 (Apart-comm b c h.0), Distinct-snoc bs b d.1 h.1)

pub Distinct-remove_at : (i : ℕ) (bs : List Beacon) → Distinct bs → Distinct (remove_at i bs)
unfolding remove_at
Distinct-remove_at i [] d = tt
Distinct-remove_at zero (b ∷ bs) d = d.1
Distinct-remove_at (suc i) (b ∷ bs) d =
    (All-remove_at (Apart b) i bs d.0, Distinct-remove_at i bs d.1)

pub Distinct-set :
    (bs : List Beacon) (i : ℕ) (e : Beacon)
    → Distinct bs
    → All (Apart e) (remove_at i bs)
    → Distinct (set bs i e)
unfolding remove_at
Distinct-set [] i e d h = tt
Distinct-set (b ∷ bs) zero e d h = (h, d.1)
Distinct-set (b ∷ bs) (suc i) e d h =
    (All-set (Apart b) bs i e d.0 (Apart-comm e b h.0), Distinct-set bs i e d.1 h.1)

-- An entry that passes both tests is apart from all.
pub Apart-tests :
    (b : Beacon) (bs : List Beacon)
    → duplicate_id b.name bs ≡ false
    → ((b.active && is_ibeacon b.kind) && duplicate_identity b.uuid b.major b.minor bs) ≡ false
    → All (Apart b) bs
unfolding duplicate_id duplicate_identity
Apart-tests b [] n s = tt
Apart-tests b (c ∷ bs) n s = (
  (same_id_comm b.name c.name ∙ ground (arith, n), ground (arith, s)),
  Apart-tests b bs (ground (arith, n)) (ground (arith, s)),
)

-- ===== src/Roster/Found.antt =====
-- The entry that a lookup by id finds, and its position (main/beacon_config.c).
use van_child_safety.Base.{
  ℕ, zero, suc, ◌≡◌, refl, sym, ap, subst, Option, none, some, List, [], ◌∷◌, inl, inr, arith,
  Bool-cases, length, set,
}
use van_child_safety.Base.Text.{Text, same_id}
use van_child_safety.Types.{Beacon}
use van_child_safety.Roster.Change.{remove_at, insert_at, find_entry, later}
use van_child_safety.Roster.Distinct.{All, Apart, Apart-comm, Distinct}

-- The entry at a position.
abbrev pub At : List Beacon → ℕ → Beacon → Type 0
At [] i b = ⊥
At (c ∷ bs) zero b = c ≡ b
At (c ∷ bs) (suc i) b = At bs i b

later-At :
    (c : Beacon) (bs : List Beacon) (o : Option (ℕ × Beacon)) (i : ℕ) (b : Beacon)
    → ((j : ℕ) → o ≡ some (j, b) → At bs j b)
    → later o ≡ some (i, b)
    → At (c ∷ bs) i b
later-At c bs none i b ih h = absurd (cc)
later-At c bs (some (j, d)) zero b ih h = absurd (ground (arith, h))
later-At c bs (some (j, d)) (suc i) b ih h = ih i (ground (arith, h))

head-At :
    (c b : Beacon) (bs : List Beacon) (i : ℕ)
    → ◌≡◌ {A = Option (ℕ × Beacon)} (some (0, c)) (some (i, b))
    → At (c ∷ bs) i b
head-At c b bs zero h = ground (arith, h)
head-At c b bs (suc i) h = absurd (ground (arith, h))

pub find_entry-At :
    (id : Text) (bs : List Beacon) (i : ℕ) (b : Beacon) → find_entry id bs ≡ some (i, b) → At bs i b
unfolding find_entry
find_entry-At id [] i b h = absurd (cc)
find_entry-At id (c ∷ bs) i b h = elim (Bool-cases (same_id c.name id)) [
  | inl e ↦ head-At c b bs i (simp e at h)
  | inr e ↦ later-At c bs (find_entry id bs) i b (λ j. find_entry-At id bs j b) (simp e at h)
]

pub All-At {ℓ} :
    (P : Beacon → Type ℓ) (bs : List Beacon) (i : ℕ) (b : Beacon) → All P bs → At bs i b → P b
All-At P [] i b h a = absurd a
All-At P (c ∷ bs) zero b h a = subst P a h.0
All-At P (c ∷ bs) (suc i) b h a = All-At P bs i b h.1 a

-- The entry at a position is apart from the others.
pub Apart-others :
    (bs : List Beacon) (i : ℕ) (b : Beacon)
    → At bs i b
    → Distinct bs
    → All (Apart b) (remove_at i bs)
unfolding remove_at
Apart-others [] i b a d = tt
Apart-others (c ∷ bs) zero b a d = subst (λ x. All (Apart x) bs) a d.0
Apart-others (c ∷ bs) (suc i) b a d =
    (Apart-comm c b (All-At (Apart c) bs i b d.0 a), Apart-others bs i b a d.1)

-- What `memmove` took out is put back.
pub insert_at-remove_at :
    (bs : List Beacon) (i : ℕ) (b : Beacon) → At bs i b → insert_at i b (remove_at i bs) ≡ bs
unfolding insert_at remove_at
insert_at-remove_at [] i b a = absurd a
insert_at-remove_at (c ∷ bs) zero b a = ap (λ x. x ∷ bs) (sym a)
insert_at-remove_at (c ∷ bs) (suc i) b a = ap (◌∷◌ c) (insert_at-remove_at bs i b a)

-- The snapshot is put back.
pub set-set : (bs : List Beacon) (i : ℕ) (b e : Beacon) → At bs i b → set (set bs i e) i b ≡ bs
set-set [] i b e a = refl
set-set (c ∷ bs) zero b e a = ap (λ x. x ∷ bs) (sym a)
set-set (c ∷ bs) (suc i) b e a = ap (◌∷◌ c) (set-set bs i b e a)

pub length-remove_at :
    (bs : List Beacon) (i : ℕ) (b : Beacon) → At bs i b → suc (length (remove_at i bs)) ≡ length bs
unfolding remove_at
length-remove_at [] i b a = absurd a
length-remove_at (c ∷ bs) zero b a = refl
length-remove_at (c ∷ bs) (suc i) b a = ap suc (length-remove_at bs i b a)

-- ===== src/Gps/Tokens.antt =====
-- What `strtok` makes of a sentence: empty fields are not there (main/sensor_gps.c).
use van_child_safety.Base.{
  ℕ, zero, suc, ◌≤◌, ◌<◌, ◌≡◌, refl, sym, ap, ◌∙◌, false, List, [], ◌∷◌, ◌++◌, arith, ◌==◌, length,
  get_or, take, append_assoc, append_nil,
}
use van_child_safety.Base.Text.{Text, is_empty}
use van_child_safety.Roster.Distinct.{All}
use van_child_safety.Gps.Text.{strtok, tokens_from, token_then}

-- Fields with a comma between any two.
unfoldable pub join : List Text → Text
join [] = []
join (f ∷ []) = f
join (f ∷ g ∷ fs) = f ++ b',' ∷ join (g ∷ fs)

abbrev pub nonempty : List Text → List Text
nonempty [] = []
nonempty (f ∷ fs) = token_then f (nonempty fs)

abbrev pub Commaless : Text → Type 0
Commaless = All (λ (c : ℕ). (c == b',') ≡ false)

abbrev pub Filled : Text → Type 0
Filled f = is_empty f ≡ false

tokens_from-field :
    (run f s : Text) → Commaless f → tokens_from b',' run (f ++ s) ≡ tokens_from b',' (run ++ f) s
unfolding tokens_from
tokens_from-field run [] s h = ap (λ r. tokens_from b',' r s) (sym (append_nil run))
tokens_from-field run (c ∷ f) s h = rw (h.0) (
    tokens_from-field (run ++ c ∷ []) f s h.1
    ∙ ap (λ r. tokens_from b',' r s) (append_assoc run (c ∷ []) f))

tokens_from-last : (f : Text) → Commaless f → tokens_from b',' [] f ≡ token_then f []
unfolding tokens_from
tokens_from-last f h = ap (tokens_from b',' []) (sym (append_nil f)) ∙ tokens_from-field [] f [] h

pub strtok-join : (fs : List Text) → All Commaless fs → strtok b',' (join fs) ≡ nonempty fs
unfolding strtok tokens_from join
strtok-join [] h = refl
strtok-join (f ∷ []) h = tokens_from-last f h.0
strtok-join (f ∷ g ∷ fs) h =
    tokens_from-field [] f (b',' ∷ join (g ∷ fs)) h.0 ∙ ap (token_then f) (strtok-join (g ∷ fs) h.1)

pub token_then-Filled : (f : Text) (ts : List Text) → Filled f → token_then f ts ≡ f ∷ ts
token_then-Filled [] ts h = absurd (ground (arith, h))
token_then-Filled (c ∷ f) ts h = refl

pub nonempty-append :
    (before fs : List Text) → All Filled before → nonempty (before ++ fs) ≡ before ++ nonempty fs
nonempty-append [] fs h = refl
nonempty-append (f ∷ before) fs h =
    token_then-Filled f _ h.0 ∙ ap (◌∷◌ f) (nonempty-append before fs h.1)

pub get_or-append :
    (xs ys : List Text) (i : ℕ) (d : Text) → i < length xs → get_or (xs ++ ys) i d ≡ get_or xs i d
get_or-append [] ys i d h = absurd (omega (arith, h))
get_or-append (x ∷ xs) ys zero d h = refl
get_or-append (x ∷ xs) ys (suc i) d h = get_or-append xs ys i d (omega (arith, h))

pub get_or-middle : (xs ys : List Text) (y d : Text) → get_or (xs ++ y ∷ ys) (length xs) d ≡ y
get_or-middle [] ys y d = refl
get_or-middle (x ∷ xs) ys y d = get_or-middle xs ys y d

pub take-long : (n k : ℕ) (xs : List Text) → k ≤ n → k ≤ length xs → k ≤ length (take n xs)
take-long zero k xs h l = h
take-long (suc n) k [] h l = l
take-long (suc n) zero (x ∷ xs) h l = omega arith
take-long (suc n) (suc k) (x ∷ xs) h l =
    omega (arith, take-long n k xs (omega (arith, h)) (omega (arith, l)))

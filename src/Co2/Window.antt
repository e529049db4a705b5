-- ===== src/Co2/Window.antt =====
-- The ring of main/co2_tracker.c is a window: the last readings in order, the oldest first.
use native.Mathlib.Nat.{mod-eq_of_lt, mod_self}
use van_child_safety.Base.{
  ℕ, suc, ◌+◌, ◌-◌, ◌%◌, ◌<◌, ◌≡◌, ◌⊎◌, inl, inr, ap, ◌∙◌, sym, subst, List, [], ◌∷◌, ◌++◌, arith,
  ltb, Bool-cases, ltb-true, ltb-false, get_or-take, append_nil, length-append, append_assoc,
  take-set, drop-set, drop-cons, take-all, drop-all, length-take, length-drop, if◌then◌else◌,
  length, length-set, length-replicate, refl, get_or, set, take, drop,
}
use van_child_safety.World.{Config}
use van_child_safety.Co2.Tracker.{Co2, power_on_co2, push_reading, oldest_reading}

-- The abstract window: one more reading, and the oldest goes once it is full.
unfoldable pub window_push : ℕ → ℕ → List ℕ → List ℕ
window_push window co2 xs = (if ltb (length xs) window then xs else drop 1 xs) ++ co2 ∷ []

-- The ring as a window: it fills from the start, and then turns.
pub data Window (window : ℕ) (c : Co2) (xs : List ℕ) : Type 0 where
  filling :
      length c.buffer ≡ window
      → c.idx ≡ c.count
      → c.count < window
      → xs ≡ take c.count c.buffer
      → Window window c xs
  full :
      length c.buffer ≡ window
      → c.idx < window
      → c.count ≡ window
      → xs ≡ drop c.idx c.buffer ++ take c.idx c.buffer
      → Window window c xs

last_idx : (window i : ℕ) → suc i ≡ window → suc i % window ≡ 0
last_idx window i e = ap (λ n. n % window) e ∙ mod_self window

step_idx :
    (window i : ℕ)
    → i < window
    → ((suc i < window) × (suc i % window ≡ suc i)) ⊎ ((suc i ≡ window) × (suc i % window ≡ 0))
step_idx window i h = elim (Bool-cases (ltb (suc i) window)) [
  | inl e ↦ inl (ground (arith, e), mod-eq_of_lt (ground (arith, e)))
  | inr e ↦ inr (ground (arith, h, e), last_idx window i (ground (arith, h, e)))
]

-- The turn of a full ring: the oldest reading makes room.
turned :
    (xs : List ℕ) (i co2 : ℕ)
    → i < length xs
    → drop 1 (drop i xs ++ take i xs) ++ co2 ∷ []
      ≡ drop (suc i) (set xs i co2) ++ take (suc i) (set xs i co2)
turned xs i co2 h =
    ap (λ ys. drop 1 (ys ++ take i xs) ++ co2 ∷ []) (drop-cons xs i 0 h)
    ∙ (append_assoc (drop (suc i) xs) (take i xs) (co2 ∷ [])
        ∙ (ap (λ ys. ys ++ (take i xs ++ co2 ∷ [])) (sym (drop-set xs i co2))
            ∙ ap (λ ys. drop (suc i) (set xs i co2) ++ ys) (sym (take-set xs i co2 h))))

whole : (ys : List ℕ) (n : ℕ) → length ys ≡ n → drop n ys ++ take n ys ≡ ys
whole ys n h = ap (λ zs. zs ++ take n ys) (drop-all ys n (omega (arith, h))) ∙ take-all ys n (sym h)

more : (window n : ℕ) → n < window → (if ltb n window then suc n else n) ≡ suc n
more window n h = ground (arith, h)

no_more : (window n : ℕ) → n ≡ window → (if ltb n window then suc n else n) ≡ n
no_more window n h = ground (arith, h)

appended :
    (xs : List ℕ) (i n co2 : ℕ)
    → i ≡ n
    → n < length xs
    → take n xs ++ co2 ∷ [] ≡ take (suc n) (set xs i co2)
appended xs i n co2 e h = rw e (sym (take-set xs n co2 h))

pushed_filling :
    (window co2 : ℕ) (c : Co2)
    → length c.buffer ≡ window
    → c.idx ≡ c.count
    → c.count < window
    → Window window (push_reading window co2 c) (take c.count c.buffer ++ co2 ∷ [])
unfolding push_reading
pushed_filling window co2 c s i l = elim (step_idx window c.idx (omega (arith, i, l))) [
  | inl (room, e) ↦
      Window.filling size (e ∙ (ap suc i ∙ sym n)) (omega (arith, n, room, i))
        (content ∙ ap (λ k. take k (set c.buffer c.idx co2)) (sym n))
  | inr (last, e) ↦
      Window.full size (subst (λ k. k < window) (sym e) (omega (arith, l)))
        (n ∙ (sym (ap suc i) ∙ last))
        (content
          ∙ (take-all _ (suc c.count) (omega (arith, last, i, size))
              ∙ (sym (append_nil (set c.buffer c.idx co2))
                  ∙ ap (λ k. drop k (set c.buffer c.idx co2) ++ take k (set c.buffer c.idx co2))
                      (sym e))))
]
  where
    n : (if ltb c.count window then suc c.count else c.count) ≡ suc c.count
    n = more window c.count l

    size : length (set c.buffer c.idx co2) ≡ window
    size = length-set c.buffer c.idx co2 ∙ s

    content : take c.count c.buffer ++ co2 ∷ [] ≡ take (suc c.count) (set c.buffer c.idx co2)
    content = appended c.buffer c.idx c.count co2 i (omega (arith, s, l))

pushed_full :
    (window co2 : ℕ) (c : Co2)
    → length c.buffer ≡ window
    → c.idx < window
    → c.count ≡ window
    → Window window
        (push_reading window co2 c)
        (drop 1 (drop c.idx c.buffer ++ take c.idx c.buffer) ++ co2 ∷ [])
unfolding push_reading
pushed_full window co2 c s i n = elim (step_idx window c.idx i) [
  | inl (room, e) ↦
      Window.full size (omega (arith, e, room)) count
        (content ∙ ap (λ k. drop k buffer ++ take k buffer) (sym e))
  | inr (last, e) ↦ Window.full size (subst (λ k. k < window) (sym e) (omega (arith, i))) count (
      content
      ∙ (whole buffer (suc c.idx) (size ∙ sym last)
          ∙ (sym (append_nil buffer) ∙ ap (λ k. drop k buffer ++ take k buffer) (sym e))))
]
  where
    buffer : List ℕ
    buffer = set c.buffer c.idx co2

    count : (if ltb c.count window then suc c.count else c.count) ≡ window
    count = no_more window c.count n ∙ n

    size : length (set c.buffer c.idx co2) ≡ window
    size = length-set c.buffer c.idx co2 ∙ s

    content :
        drop 1 (drop c.idx c.buffer ++ take c.idx c.buffer) ++ co2 ∷ []
        ≡ drop (suc c.idx) buffer ++ take (suc c.idx) buffer
    content = turned c.buffer c.idx co2 (omega (arith, s, i))

pushed_room :
    (window co2 : ℕ) (xs : List ℕ) → length xs < window → window_push window co2 xs ≡ xs ++ co2 ∷ []
unfolding window_push
pushed_room window co2 xs h =
    ap (λ t. (if t then xs else drop 1 xs) ++ co2 ∷ []) (ltb-true (length xs) window h)

pushed_turn :
    (window co2 : ℕ) (xs : List ℕ)
    → length xs ≡ window
    → window_push window co2 xs ≡ drop 1 xs ++ co2 ∷ []
unfolding window_push
pushed_turn window co2 xs h =
    ap (λ t. (if t then xs else drop 1 xs) ++ co2 ∷ [])
      (ltb-false (length xs) window (omega (arith, h)))

-- The ring is a window: a reading that is pushed into the ring is pushed into the window, which
-- keeps the last readings, in order.
pub push-Window :
    (window co2 : ℕ) (c : Co2) (xs : List ℕ)
    → Window window c xs
    → Window window (push_reading window co2 c) (window_push window co2 xs)
push-Window window co2 c xs (Window.filling s i l e) =
    subst (Window window (push_reading window co2 c))
      (ap (λ ys. ys ++ co2 ∷ []) (sym e) ∙ sym (pushed_room window co2 xs (omega (arith, n, l))))
      (pushed_filling window co2 c s i l)
  where
    n : length xs ≡ c.count
    n = ap length e ∙ length-take c.buffer c.count (omega (arith, s, l))
push-Window window co2 c xs (Window.full s i n e) =
    subst (Window window (push_reading window co2 c))
      (ap (λ ys. drop 1 ys ++ co2 ∷ []) (sym e) ∙ sym (pushed_turn window co2 xs m))
      (pushed_full window co2 c s i n)
  where
    m : length xs ≡ window
    m =
        ap length e
        ∙ (length-append (drop c.idx c.buffer) (take c.idx c.buffer)
            ∙ omega (
              arith,
              s,
              i,
              length-drop c.buffer c.idx,
              length-take c.buffer c.idx (omega (arith, s, i)),
            ))

-- The reading that the code compares with is the oldest of the window.
pub oldest-Window :
    (window : ℕ) (c : Co2) (x : ℕ) (xs : List ℕ)
    → Window window c (x ∷ xs)
    → oldest_reading window c ≡ x
unfolding oldest_reading
oldest-Window window c x xs (Window.filling s i l e) =
    ap (λ k. get_or c.buffer k 0) start
    ∙ (sym (get_or-take c.buffer c.count 0 0 some_read) ∙ sym (ap (λ ys. get_or ys 0 0) e))
  where
    back : c.idx + window - c.count ≡ window
    back = omega (arith, i)

    start : (c.idx + window - c.count) % window ≡ 0
    start = ap (λ k. k % window) back ∙ mod_self window

    some_read : 0 < c.count
    some_read = omega (arith, ap length e, length-take c.buffer c.count (omega (arith, s, l)))
oldest-Window window c x xs (Window.full s i n e) =
    ap (λ k. get_or c.buffer k 0) start
    ∙ sym (
        ap (λ ys. get_or ys 0 0) e
        ∙ ap (λ ys. get_or (ys ++ take c.idx c.buffer) 0 0)
            (drop-cons c.buffer c.idx 0 (omega (arith, s, i))))
  where
    back : c.idx + window - c.count ≡ c.idx
    back = omega (arith, n)

    start : (c.idx + window - c.count) % window ≡ c.idx
    start = ap (λ k. k % window) back ∙ mod-eq_of_lt i

pub power_on-Window :
    (cfg : Config)
    → 0 < cfg.co2_window_readings
    → Window cfg.co2_window_readings (power_on_co2 cfg) []
power_on-Window cfg h = Window.filling (length-replicate cfg.co2_window_readings 0) refl h refl

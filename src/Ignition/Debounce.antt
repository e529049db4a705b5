-- ===== src/Ignition/Debounce.antt =====
-- The debounce of main/ignition_gpio.c over many polls.
use Prim.{Unit}
use van_child_safety.Base.{
  ℕ, ◌+◌, ◌*◌, ◌≤◌, ◌<◌, ◌≡◌, ◌≢◌, refl, ap, ◌∙◌, Bool, true, List, [], ◌∷◌, arith,
}
use van_child_safety.World.{Config}
use van_child_safety.Ignition.Gpio.{Gpio, read_ignition_gpio, ignition_gpio_poll, gpio_get}

-- Polls of one level at the times of a list.
unfoldable pub polls_at : Config → Bool → List ℕ → Gpio → Gpio
unfolding gpio_get
polls_at cfg level [] s = s
polls_at cfg level (t ∷ ts) s = polls_at cfg level ts (gpio_get cfg t level s).1

abbrev pub AllBefore : ℕ → List ℕ → Type 0
AllBefore limit [] = Unit
AllBefore limit (t ∷ ts) = (t < limit) × AllBefore limit ts

-- The time at which a level that differs is taken.
abbrev pub deadline : Config → Gpio → ℕ
deadline cfg s = s.changed_at + cfg.ignition_debounce_ms * 1000

with_raw : Bool → Gpio → Gpio
with_raw raw s = record s { raw = raw }

poll_early :
    (cfg : Config) (t : ℕ) (level : Bool) (s : Gpio)
    → s.initialized ≡ true
    → read_ignition_gpio cfg level ≢ s.stable
    → t < deadline cfg s
    → (gpio_get cfg t level s).1 ≡ with_raw (read_ignition_gpio cfg level) s
unfolding gpio_get ignition_gpio_poll with_raw
poll_early cfg t level s i d l = ground arith

poll_late :
    (cfg : Config) (t : ℕ) (level : Bool) (s : Gpio)
    → s.initialized ≡ true
    → read_ignition_gpio cfg level ≢ s.stable
    → deadline cfg s ≤ t
    → (gpio_get cfg t level s).0 ≡ read_ignition_gpio cfg level
unfolding gpio_get ignition_gpio_poll
poll_late cfg t level s i d l = ground arith

polls_early :
    (cfg : Config) (level : Bool) (ts : List ℕ) (raw : Bool) (s : Gpio)
    → s.initialized ≡ true
    → read_ignition_gpio cfg level ≢ s.stable
    → AllBefore (deadline cfg s) ts
    → (raw' : Bool) × (polls_at cfg level ts (with_raw raw s) ≡ with_raw raw' s)
unfolding polls_at with_raw
polls_early cfg level [] raw s i d a = (raw, refl)
polls_early cfg level (t ∷ ts) raw s i d (l, a) =
    let (raw', e) = polls_early cfg level ts (read_ignition_gpio cfg level) s i d a in
    (raw', ap (polls_at cfg level ts) (poll_early cfg t level (with_raw raw s) i d l) ∙ e)

-- A level other than the stable one, read at every poll of an initialised source, is ignored at all
-- polls before the deadline and taken at the first poll from it on.
pub level_is_debounced :
    (cfg : Config) (level : Bool) (ts : List ℕ) (t : ℕ) (s : Gpio)
    → s.initialized ≡ true
    → read_ignition_gpio cfg level ≢ s.stable
    → AllBefore (deadline cfg s) ts
    → deadline cfg s ≤ t
    → let s' = polls_at cfg level ts s in
      (s'.stable ≡ s.stable) × ((gpio_get cfg t level s').0 ≡ read_ignition_gpio cfg level)
unfolding with_raw
level_is_debounced cfg level ts t s i d a l =
    let (raw, e) = polls_early cfg level ts s.raw s i d a in
    rw e (refl, poll_late cfg t level (with_raw raw s) i d l)

-- A poll that reads the stable level starts the debounce anew, and keeps the level.
pub agreeing_poll_restarts :
    (cfg : Config) (t : ℕ) (level : Bool) (s : Gpio)
    → s.initialized ≡ true
    → read_ignition_gpio cfg level ≡ s.stable
    → let (on, s') = gpio_get cfg t level s in
      (on ≡ s.stable)
      × (s'.stable ≡ s.stable)
      × (deadline cfg s' ≡ t + cfg.ignition_debounce_ms * 1000)
unfolding gpio_get ignition_gpio_poll
agreeing_poll_restarts cfg t level s i e = ground arith

-- ===== src/Command/Trim.antt =====
-- Spaces around a command (main/mqtt_client.c).
use van_child_safety.Base.{
  ◌≡◌, refl, ap, Bool, true, ◌&&◌, [], ◌∷◌, ◌++◌, inl, inr, arith, Bool-cases,
}
use van_child_safety.Base.Text.{Text}
use van_child_safety.World.{World, Env, Config}
use van_child_safety.Command.Handler.{Parse, is_space, trim_front, trim_back, handle_command}

abbrev pub all_spaces : Text → Bool
all_spaces [] = true
all_spaces (c ∷ s) = is_space c && all_spaces s

trim_front-spaces : (s t : Text) → all_spaces s ≡ true → trim_front (s ++ t) ≡ trim_front t
unfolding trim_front
trim_front-spaces [] t h = refl
trim_front-spaces (c ∷ s) t h = elim (Bool-cases (is_space c)) [
  | inl e ↦ rw e (trim_front-spaces s t (simp e at h))
  | inr e ↦ absurd (ground (arith, h, e))
]

trim_front-none : (s : Text) → all_spaces s ≡ true → trim_front s ≡ []
unfolding trim_front
trim_front-none [] h = refl
trim_front-none (c ∷ s) h = elim (Bool-cases (is_space c)) [
  | inl e ↦ rw e (trim_front-none s (simp e at h))
  | inr e ↦ absurd (ground (arith, h, e))
]

trim_back-spaces : (s : Text) → all_spaces s ≡ true → trim_back s ≡ []
unfolding trim_back
trim_back-spaces [] h = refl
trim_back-spaces (c ∷ s) h = elim (Bool-cases (is_space c)) [
  | inl e ↦ rw (trim_back-spaces s (simp e at h), e) refl
  | inr e ↦ absurd (ground (arith, h, e))
]

trim_back-append : (s t : Text) → all_spaces t ≡ true → trim_back (s ++ t) ≡ trim_back s
unfolding trim_back
trim_back-append [] t h = trim_back-spaces t h
trim_back-append (c ∷ s) t h = rw (trim_back-append s t h) refl

trim-append :
    (s t : Text) → all_spaces t ≡ true → trim_back (trim_front (s ++ t)) ≡ trim_back (trim_front s)
unfolding trim_front
trim-append [] t h = ap trim_back (trim_front-none t h)
trim-append (c ∷ s) t h = elim (Bool-cases (is_space c)) [
  | inl e ↦ rw e (trim-append s t h)
  | inr e ↦ rw e (trim_back-append (c ∷ s) t h)
]

-- Spaces, tabs and line ends before and after a command make no difference.
pub spaces_are_ignored :
    (cfg : Config) (parse : Parse) (env : Env) (before s after : Text) (w : World)
    → all_spaces before ≡ true
    → all_spaces after ≡ true
    → handle_command cfg parse env (before ++ (s ++ after)) w ≡ handle_command cfg parse env s w
unfolding handle_command
spaces_are_ignored cfg parse env before s after w b a =
    rw (trim_front-spaces before (s ++ after) b, trim-append s after a) refl

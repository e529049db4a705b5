-- ===== src/Gps/Text.antt =====
-- The C library's functions on strings that main/sensor_gps.c calls. The numbers that `strtol` and
-- `atoi` read here have few digits, so their limits are not reached.
use van_child_safety.Base.{
  ℕ, zero, suc, ◌+◌, ◌-◌, ◌*◌, ◌%◌, Bool, true, false, ◌&&◌, ◌||◌, Option, none, some, List, [],
  ◌∷◌, ◌++◌, leb, ◌==◌, if◌then◌else◌,
}
use van_child_safety.Base.Int.{ℤ, pos, negsuc, sub_ℕ}
use van_child_safety.Base.Text.{Text}

-- The C string at the start of a buffer.
unfoldable pub c_string : List ℕ → Text
c_string [] = []
c_string (c ∷ s) = if c == 0 then [] else c ∷ c_string s

abbrev pub before_more : ℕ → Option (Text × Text) → Option (Text × Text)
before_more d none = none
before_more d (some (before, after)) = some (d ∷ before, after)

-- `strchr(s, c)`: what stands before the character, and what stands behind it.
unfoldable pub strchr : ℕ → Text → Option (Text × Text)
strchr c [] = none
strchr c (d ∷ s) = if d == c then some ([], s) else before_more d (strchr c s)

unfoldable pub starts_with : Text → Text → Bool
starts_with [] s = true
starts_with (c ∷ cs) [] = false
starts_with (c ∷ cs) (d ∷ s) = (c == d) && starts_with cs s

-- `strstr(s, needle) == s + at`: it is there, and nowhere before.
unfoldable pub strstr_at : ℕ → Text → Text → Bool
strstr_at zero needle s = starts_with needle s
strstr_at (suc at) needle [] = false
strstr_at (suc at) needle (d ∷ s) =
    if starts_with needle (d ∷ s) then false else strstr_at at needle s

abbrev pub token_then : Text → List Text → List Text
token_then [] ts = ts
token_then (c ∷ cs) ts = (c ∷ cs) ∷ ts

-- `strtok` by one delimiter: the runs between delimiters, the empty ones left out. `run` is
-- what was read of the run before `s`.
unfoldable pub tokens_from : ℕ → Text → Text → List Text
tokens_from delimiter run [] = token_then run []
tokens_from delimiter run (c ∷ s) =
    if c == delimiter
    then token_then run (tokens_from delimiter [] s)
    else tokens_from delimiter (run ++ c ∷ []) s

unfoldable pub strtok : ℕ → Text → List Text
unfolding tokens_from
strtok delimiter s = tokens_from delimiter [] s

-- `isspace` of the C locale.
abbrev pub is_space : ℕ → Bool
is_space c = (c == 32) || (leb 9 c && leb c 13)

abbrev pub decimal_char : ℕ → Option ℕ
decimal_char c = if leb b'0' c && leb c b'9' then some (c - b'0') else none

module _ (digit : ℕ → Option ℕ) (base : ℕ) where
  unfoldable pub digits : ℕ → Text → ℕ
  digits n [] = n
  digits n (c ∷ s) = elim (digit c) [ none ↦ n | some d ↦ digits (n * base + d) s ]

  abbrev pub signed : Text → ℤ
  unfolding digits
  signed [] = pos 0
  signed (c ∷ s) =
      if c == b'-'
      then sub_ℕ 0 (digits 0 s)
      else if c == b'+'
      then pos (digits 0 s)
      else pos (digits 0 (c ∷ s))

  -- `strtol`, but for the prefix 0x.
  unfoldable pub strtol : Text → ℤ
  unfolding digits
  strtol [] = pos 0
  strtol (c ∷ s) = if is_space c then strtol s else signed (c ∷ s)

unfoldable pub atoi : Text → ℤ
unfolding strtol
atoi s = strtol decimal_char 10 s

-- The conversion to `uint8_t`.
unfoldable pub low_byte : ℤ → ℕ
low_byte (pos n) = n % 256
low_byte (negsuc n) = 255 - n % 256

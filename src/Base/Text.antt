-- ===== src/Base/Text.antt =====
-- C strings: the bytes before the terminating zero.
use Prim.Native.Nat.{ℕ, zero, suc, ◌+◌, ◌-◌, ◌/◌, ◌%◌}
use Prim.Native.Char.{code}
use Prim.Native.String.{String}
use mathlib.Core.Bool.{Bool, true, false, ◌&&◌}
use mathlib.Core.List.{List, [], ◌∷◌, ◌++◌}
use van_child_safety.Base.Tests.{leb, ◌==◌, if◌then◌else◌}
use van_child_safety.Base.Lists.{take}

abbrev pub Text : Type 0
Text = List ℕ

-- The bytes of an ASCII literal.
abbrev pub codes : String → Text
codes String.[] = []
codes (String.◌∷◌ c s) = code c ∷ codes s

-- `s[0] == '\0'`.
abbrev pub is_empty : Text → Bool
is_empty [] = true
is_empty (_ ∷ _) = false

-- `tolower` of the C locale.
abbrev pub to_lower : ℕ → ℕ
to_lower c = if leb b'A' c && leb c b'Z' then c + 32 else c

-- `strcasecmp(s, t) == 0`.
unfoldable pub same_id : Text → Text → Bool
same_id [] [] = true
same_id [] (_ ∷ _) = false
same_id (_ ∷ _) [] = false
same_id (a ∷ s) (b ∷ t) = (to_lower a == to_lower b) && same_id s t

-- `strncpy(dst, src, size - 1)` with the terminator written after it.
unfoldable pub copy_string : ℕ → Text → Text
copy_string size s = take (size - 1) s

-- The last `k` decimal digits, as `%02d` and `%04d` print them.
unfoldable pub decimal : ℕ → ℕ → Text
decimal zero n = []
decimal (suc k) n = decimal k (n / 10) ++ (b'0' + n % 10) ∷ []

-- `strcmp(s, t) == 0`, and `memcmp` of equal lengths.
unfoldable pub same_text : Text → Text → Bool
same_text [] [] = true
same_text [] (_ ∷ _) = false
same_text (_ ∷ _) [] = false
same_text (a ∷ s) (b ∷ t) = (a == b) && same_text s t

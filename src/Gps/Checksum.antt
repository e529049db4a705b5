-- ===== src/Gps/Checksum.antt =====
-- `nmea_checksum_valid` of main/sensor_gps.c.
use Prim.Native.Nat.{bit_xor}
use van_child_safety.Base.{ℕ, ◌%◌, Bool, false, Option, none, some, [], ◌∷◌, ◌==◌}
use van_child_safety.Base.Text.{Text}
use van_child_safety.Roster.Fields.{hex_char}
use van_child_safety.Gps.Text.{strchr, strtol, low_byte}

-- `checksum` after the characters that follow.
unfoldable pub xor_from : ℕ → Text → ℕ
xor_from checksum [] = checksum
xor_from checksum (c ∷ s) = xor_from (bit_xor checksum c % 256) s

-- `received` is of two characters, and 0x alone is 0.
unfoldable pub received : ℕ → ℕ → ℕ
unfolding strtol low_byte hex_char
received a b = low_byte (strtol hex_char 16 (a ∷ b ∷ []))

-- The characters from the dollar to the star, and those behind it.
unfoldable pub body_valid : Option (Text × Text) → Bool
unfolding xor_from received
body_valid none = false
body_valid (some ([], after)) = false
body_valid (some (c ∷ body, [])) = false
body_valid (some (c ∷ body, a ∷ [])) = false
body_valid (some (c ∷ body, a ∷ b ∷ after)) = xor_from 0 (c ∷ body) == received a b

unfoldable pub start_valid : Option (Text × Text) → Bool
unfolding strchr body_valid
start_valid none = false
start_valid (some (before, start)) = body_valid (strchr b'*' start)

unfoldable pub nmea_checksum_valid : Text → Bool
unfolding strchr start_valid
nmea_checksum_valid line = start_valid (strchr b'$' line)

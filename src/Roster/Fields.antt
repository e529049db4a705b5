-- ===== src/Roster/Fields.antt =====
-- The text fields of a record of main/beacon_config.c: ids, channels, addresses and UUIDs.
use van_child_safety.Base.{
  ℕ, zero, suc, ◌+◌, ◌-◌, ◌*◌, ◌/◌, ◌%◌, Bool, true, false, not, ◌&&◌, ◌||◌, Option, none, some,
  List, [], ◌∷◌, ◌++◌, leb, ltb, ◌==◌, if◌then◌else◌, length, get_or, take, drop,
}
use van_child_safety.Base.Text.{Text, is_empty}

-- `isdigit` and `isalnum` of the C locale.
abbrev pub is_digit : ℕ → Bool
is_digit c = leb b'0' c && leb c b'9'

abbrev pub is_alnum : ℕ → Bool
is_alnum c = is_digit c || ((leb b'a' c && leb c b'z') || (leb b'A' c && leb c b'Z'))

-- `hex_char`; `none` is its -1.
unfoldable pub hex_char : ℕ → Option ℕ
hex_char c =
    if is_digit c
    then some (c - b'0')
    else if leb b'a' c && leb c b'f'
    then some (c - b'a' + 10)
    else if leb b'A' c && leb c b'F'
    then some (c - b'A' + 10)
    else none

abbrev pub every : (ℕ → Bool) → Text → Bool
every p [] = true
every p (c ∷ s) = p c && every p s

abbrev pub is_id_char : ℕ → Bool
is_id_char c = is_alnum c || (c == b'_' || c == b'-')

-- `valid_id`; `none` is a null pointer.
unfoldable pub valid_id : Option Text → Bool
valid_id none = false
valid_id (some []) = false
valid_id (some (c ∷ s)) = not (ltb 31 (length (c ∷ s))) && every is_id_char (c ∷ s)

-- `valid_discord_channel`.
unfoldable pub valid_discord_channel : Option Text → Bool
valid_discord_channel none = true
valid_discord_channel (some s) = is_empty s || (not (ltb 32 (length s)) && every is_digit s)

abbrev pub cons_octet : Option ℕ → Option (List ℕ) → Option (List ℕ)
cons_octet (some o) (some os) = some (o ∷ os)
cons_octet (some o) none = none
cons_octet none _ = none

abbrev pub join_digits : Option ℕ → Option ℕ → Option ℕ
join_digits none _ = none
join_digits (some hi) none = none
join_digits (some hi) (some lo) = some (hi * 16 + lo)

-- `(hi << 4) | lo` of two hexadecimal digits.
unfoldable pub octet : ℕ → ℕ → Option ℕ
octet a b = join_digits (hex_char a) (hex_char b)

-- The loop of `parse_mac`, with so many octets to go.
unfoldable pub mac_from : ℕ → Text → Option (List ℕ)
mac_from zero s = some []
mac_from (suc k) (a ∷ b ∷ []) = cons_octet (octet a b) (if k == 0 then some [] else none)
mac_from (suc k) (a ∷ b ∷ c ∷ s) =
    let rest = mac_from k s in
    cons_octet (octet a b) (if k == 0 then some [] else if c == b':' then rest else none)
mac_from (suc k) _ = none

-- `parse_mac`.
unfoldable pub parse_mac : Option Text → Option (List ℕ)
parse_mac none = none
parse_mac (some s) = if length s == 17 then mac_from 6 s else none

-- The loop of `parse_uuid`, with so many octets to go.
unfoldable pub uuid_from : ℕ → Text → Option (List ℕ)
uuid_from zero s = some []
uuid_from (suc k) (a ∷ b ∷ s) =
    let skip = uuid_from (suc k) (b ∷ s) in
    let rest = cons_octet (octet a b) (uuid_from k s) in
    if a == b'-' then skip else if b == b'-' then none else rest
uuid_from (suc k) _ = none

abbrev is_dash : ℕ → Text → Bool
is_dash i s = get_or s i 0 == b'-'

-- `parse_uuid`.
unfoldable pub parse_uuid : Option Text → Option (List ℕ)
parse_uuid none = none
parse_uuid (some s) =
    if length s == 36 && (is_dash 8 s && (is_dash 13 s && (is_dash 18 s && is_dash 23 s)))
    then uuid_from 16 s
    else none

-- One upper-case hexadecimal digit, and an octet as `%02X` prints it.
unfoldable pub hex_digit : ℕ → ℕ
hex_digit d = if ltb d 10 then b'0' + d else b'A' + (d - 10)

unfoldable pub print_octet : ℕ → Text
print_octet o = hex_digit (o / 16) ∷ hex_digit (o % 16) ∷ []

abbrev pub print_octets : List ℕ → Text
print_octets [] = []
print_octets (o ∷ os) = print_octet o ++ print_octets os

-- `%02X:%02X:%02X:%02X:%02X:%02X` in `add_entry_json`.
unfoldable pub format_mac : List ℕ → Text
format_mac [] = []
format_mac (o ∷ []) = print_octet o
format_mac (o ∷ p ∷ os) = print_octet o ++ (b':' ∷ format_mac (p ∷ os))

-- `format_uuid`.
unfoldable pub format_uuid : List ℕ → Text
format_uuid u =
    print_octets (take 4 u)
    ++ (b'-'
        ∷ (print_octets (take 2 (drop 4 u))
            ++ (b'-'
                ∷ (print_octets (take 2 (drop 6 u))
                    ++ (b'-'
                        ∷ (print_octets (take 2 (drop 8 u))
                            ++ (b'-' ∷ print_octets (drop 10 u))))))))

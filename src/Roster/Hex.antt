-- ===== src/Roster/Hex.antt =====
-- Addresses and UUIDs are read back as they were printed (main/beacon_config.c).
use van_child_safety.Base.{
  ℕ, zero, suc, ◌+◌, ◌/◌, ◌%◌, ◌<◌, ◌≡◌, refl, sym, ap, ◌∙◌, false, Option, none, some, List, [],
  ◌∷◌, ◌++◌, arith, ◌==◌, length, append_nil,
}
use van_child_safety.Base.Text.{Text}
use van_child_safety.Roster.Fields.{
  hex_char, octet, cons_octet, mac_from, parse_mac, uuid_from, parse_uuid, hex_digit, print_octet,
  print_octets, format_mac, format_uuid,
}
use van_child_safety.Roster.Distinct.{All}

abbrev pub Octets : List ℕ → Type 0
Octets = All (λ (o : ℕ). o < 256)

pub hex_char-hex_digit : (d : ℕ) → d < 16 → hex_char (hex_digit d) ≡ some d
unfolding hex_char hex_digit
hex_char-hex_digit d h = ground (arith, h)

hex_digit-ne-dash : (d : ℕ) → (hex_digit d == b'-') ≡ false
unfolding hex_digit
hex_digit-ne-dash d = ground arith

octet-hex_digit : (o : ℕ) → o < 256 → octet (hex_digit (o / 16)) (hex_digit (o % 16)) ≡ some o
unfolding octet
octet-hex_digit o h =
    rw (hex_char-hex_digit (o / 16) (omega arith), hex_char-hex_digit (o % 16) (omega arith))
      (ap some (omega arith))

suc-ne-zero : (n : ℕ) → (suc n == 0) ≡ false
suc-ne-zero n = ground arith

mac_from-format :
    (o : ℕ) (os : List ℕ)
    → Octets (o ∷ os)
    → mac_from (length (o ∷ os)) (format_mac (o ∷ os)) ≡ some (o ∷ os)
unfolding mac_from format_mac print_octet
mac_from-format o [] h = rw (octet-hex_digit o h.0) refl
mac_from-format o (p ∷ os) h =
    rw (octet-hex_digit o h.0, mac_from-format p os h.1, suc-ne-zero (length os)) refl

-- The octets of one group, and what follows them.
abbrev prepend : List ℕ → Option (List ℕ) → Option (List ℕ)
prepend os none = none
prepend os (some rest) = some (os ++ rest)

prepend-cons :
    (o : ℕ) (os : List ℕ) (rest : Option (List ℕ))
    → cons_octet (some o) (prepend os rest) ≡ prepend (o ∷ os) rest
prepend-cons o os none = refl
prepend-cons o os (some rest) = refl

none_prepended : (rest : Option (List ℕ)) → rest ≡ prepend [] rest
none_prepended none = refl
none_prepended (some rest) = refl

uuid_from-group :
    (os : List ℕ) (n k : ℕ) (s : Text)
    → Octets os
    → n ≡ length os + k
    → uuid_from n (print_octets os ++ s) ≡ prepend os (uuid_from k s)
unfolding uuid_from print_octet
uuid_from-group [] n k s h e =
    let e' : n ≡ k = omega (arith, e) in rw e' (none_prepended (uuid_from k s))
uuid_from-group (o ∷ os) zero k s h e = absurd (omega (arith, e))
uuid_from-group (o ∷ os) (suc n) k s h e =
    rw
      (
        hex_digit-ne-dash (o / 16),
        hex_digit-ne-dash (o % 16),
        octet-hex_digit o h.0,
        uuid_from-group os n k s h.1 (omega (arith, e)),
      )
      (prepend-cons o os (uuid_from k s))

-- A dash is skipped.
uuid_from-dash : (n c : ℕ) (s : Text) → uuid_from (suc n) (b'-' ∷ c ∷ s) ≡ uuid_from (suc n) (c ∷ s)
unfolding uuid_from
uuid_from-dash n c s = refl

pub parse_mac-format :
    (m : List ℕ) → length m ≡ 6 → Octets m → parse_mac (some (format_mac m)) ≡ some m
unfolding parse_mac format_mac print_octet
parse_mac-format (a ∷ b ∷ c ∷ d ∷ e ∷ f ∷ []) size h = mac_from-format a (b ∷ c ∷ d ∷ e ∷ f ∷ []) h
parse_mac-format _ size h = absurd (omega (arith, size))

last_group : (os : List ℕ) → Octets os → length os ≡ 6 → uuid_from 6 (print_octets os) ≡ some os
unfolding uuid_from
last_group os h e =
    ap (uuid_from 6) (sym (append_nil (print_octets os)))
    ∙ uuid_from-group os 6 0 [] h (omega (arith, e))
    ∙ ap some (append_nil os)

pub parse_uuid-format :
    (u : List ℕ) → length u ≡ 16 → Octets u → parse_uuid (some (format_uuid u)) ≡ some u
unfolding parse_uuid format_uuid print_octet
parse_uuid-format (a ∷ b ∷ c ∷ d ∷ e ∷ f ∷ g ∷ i ∷ j ∷ k ∷ l ∷ m ∷ n ∷ o ∷ p ∷ q ∷ []) size h =
    let g1 : List ℕ = a ∷ b ∷ c ∷ d ∷ [] in
    let g2 : List ℕ = e ∷ f ∷ [] in
    let g3 : List ℕ = g ∷ i ∷ [] in
    let g4 : List ℕ = j ∷ k ∷ [] in
    let g5 : List ℕ = l ∷ m ∷ n ∷ o ∷ p ∷ q ∷ [] in
    let s4 = print_octets g4 ++ (b'-' ∷ print_octets g5) in
    let s3 = print_octets g3 ++ (b'-' ∷ s4) in
    let s2 = print_octets g2 ++ (b'-' ∷ s3) in
    uuid_from-group g1 16 12 (b'-' ∷ s2) (h.0, (h.1.0, (h.1.1.0, (h.1.1.1.0, tt)))) refl
    ∙ ap (prepend g1) (
        uuid_from-dash 11 _ _
        ∙ uuid_from-group g2 12 10 (b'-' ∷ s3) (h.1.1.1.1.0, (h.1.1.1.1.1.0, tt)) refl
        ∙ ap (prepend g2) (
            uuid_from-dash 9 _ _
            ∙ uuid_from-group g3 10 8 (b'-' ∷ s4) (h.1.1.1.1.1.1.0, (h.1.1.1.1.1.1.1.0, tt)) refl
            ∙ ap (prepend g3) (
                uuid_from-dash 7 _ _
                ∙ uuid_from-group g4 8 6 (b'-' ∷ print_octets g5)
                    (h.1.1.1.1.1.1.1.1.0, (h.1.1.1.1.1.1.1.1.1.0, tt)) refl
                ∙ ap (prepend g4)
                    (uuid_from-dash 5 _ _ ∙ last_group g5 (h.1.1.1.1.1.1.1.1.1.1) refl))))
parse_uuid-format _ size h = absurd (omega (arith, size))

-- ===== src/Gps/Checked.antt =====
-- A sentence is taken if its checksum is right (main/sensor_gps.c).
use van_child_safety.Base.{
  ℕ, suc, ◌+◌, ◌*◌, ◌/◌, ◌%◌, ◌≤◌, ◌<◌, ◌≡◌, refl, sym, ap, ◌∙◌, Bool, false, some, [], ◌∷◌, ◌++◌,
  arith, ◌==◌, if◌then◌else◌, length, length-append, length-snoc, ltb-true, append_assoc,
}
use van_child_safety.Base.Int.{pos}
use van_child_safety.Base.Text.{Text}
use van_child_safety.Roster.Fields.{hex_char, hex_digit, print_octet}
use van_child_safety.Roster.Hex.{hex_char-hex_digit}
use van_child_safety.Roster.Distinct.{All}
use van_child_safety.Gps.Text.{strchr, strtol, low_byte, c_string, is_space, digits}
use van_child_safety.Gps.Checksum.{nmea_checksum_valid, xor_from, received, body_valid, start_valid}
use van_child_safety.Gps.Sentences.{Floats, Moment, Gps, take_sentence}
use van_child_safety.Gps.Receiver.{Receiver, take_line, read_bytes}
use van_child_safety.Gps.Framing.{Plain, sentence_is_framed}

-- A character of a sentence's body: none of those that end something.
abbrev pub Inner : ℕ → Type 0
Inner c = ((c == b'$') ≡ false) × ((c == 10) ≡ false) × ((c == b'*') ≡ false) × ((c == 0) ≡ false)

-- `$body*hh`, with a carriage return and an end of line.
abbrev pub tail : ℕ → Text
tail v = b'*' ∷ print_octet v ++ 13 ∷ []

abbrev pub sentence : Text → ℕ → Text
sentence body v = b'$' ∷ (body ++ tail v) ++ 10 ∷ []

digit_starts :
    (d : ℕ)
    → d < 16
    → (is_space (hex_digit d) ≡ false)
      × ((hex_digit d == b'-') ≡ false)
      × ((hex_digit d == b'+') ≡ false)
unfolding hex_digit
digit_starts d h = (ground arith, ground arith, ground arith)

strtol-digits :
    (d e : ℕ)
    → d < 16
    → e < 16
    → strtol hex_char 16 (hex_digit d ∷ hex_digit e ∷ []) ≡ pos (d * 16 + e)
unfolding strtol digits
strtol-digits d e h k =
    let p = digit_starts d h in
    rw (p.0, p.1, p.2, digits, hex_char-hex_digit d h, hex_char-hex_digit e k)
      (ap pos (omega arith))

received-print_octet : (v : ℕ) → v < 256 → received (hex_digit (v / 16)) (hex_digit (v % 16)) ≡ v
unfolding received low_byte
received-print_octet v h =
    rw (strtol-digits (v / 16) (v % 16) (omega arith) (omega arith)) (omega arith)

strchr-body : (body s : Text) → All Inner body → strchr b'*' (body ++ b'*' ∷ s) ≡ some (body, s)
unfolding strchr
strchr-body [] s h = refl
strchr-body (c ∷ body) s h = rw (h.0.2, strchr-body body s h.1) refl

c_string-body : (body s : Text) → All Inner body → c_string (body ++ s) ≡ body ++ c_string s
unfolding c_string
c_string-body [] s h = refl
c_string-body (c ∷ body) s h = rw (h.0.3) (ap (◌∷◌ c) (c_string-body body s h.1))

Plain-body : (body s : Text) → All Inner body → Plain s → Plain (body ++ s)
Plain-body [] s h p = p
Plain-body (c ∷ body) s h p = (h.0.0, h.0.1, Plain-body body s h.1 p)

digit-Inner : (d : ℕ) → d < 16 → Inner (hex_digit d)
unfolding hex_digit
digit-Inner d h = (ground arith, ground arith, ground arith, ground arith)

-- The decision, in a sentence with any number as its checksum.
checksum_decides :
    (c : ℕ) (body : Text) (v : ℕ)
    → All Inner (c ∷ body)
    → v < 256
    → nmea_checksum_valid (sentence (c ∷ body) v) ≡ (xor_from 0 (c ∷ body) == v)
unfolding nmea_checksum_valid start_valid body_valid strchr print_octet
checksum_decides c body v h k =
    ap (λ s. body_valid (strchr b'*' s)) (append_assoc (c ∷ body) (tail v) (10 ∷ []))
    ∙ ap body_valid (strchr-body (c ∷ body) _ h)
    ∙ ap (λ n. xor_from 0 (c ∷ body) == n) (received-print_octet v k)

c_string-sentence :
    (body : Text) (v : ℕ) → All Inner body → v < 256 → c_string (sentence body v) ≡ sentence body v
unfolding c_string print_octet
c_string-sentence body v h k =
    ap (λ s. b'$' ∷ c_string s) (append_assoc body (tail v) (10 ∷ []))
    ∙ ap (◌∷◌ b'$') (c_string-body body (tail v ++ 10 ∷ []) h)
    ∙ ap (λ s. b'$' ∷ body ++ s)
        (rw ((digit-Inner (v / 16) (omega arith)).3, (digit-Inner (v % 16) (omega arith)).3) refl)
    ∙ ap (◌∷◌ b'$') (sym (append_assoc body (tail v) (10 ∷ [])))

Plain-sentence : (body : Text) (v : ℕ) → All Inner body → v < 256 → Plain (body ++ tail v)
unfolding print_octet
Plain-sentence body v h k =
    let d = digit-Inner (v / 16) (omega arith) in
    let e = digit-Inner (v % 16) (omega arith) in
    Plain-body body (tail v) h (refl, refl, (d.0, d.1, (e.0, e.1, (refl, refl, tt))))

length-inside : (c : ℕ) (body : Text) (v : ℕ) → suc (length (c ∷ body ++ tail v)) ≡ length body + 6
unfolding print_octet
length-inside c body v = omega (arith, length-append body (tail v))

module _ (F : Floats) where
  whole_line :
      (m : Moment) (line : Text) (g : Gps F) (valid : Bool)
      → 6 < length line
      → c_string line ≡ line
      → nmea_checksum_valid line ≡ valid
      → take_line F m line g ≡ (if valid then take_sentence F m line g else g)
  unfolding take_line
  whole_line m line g valid h e d = rw (e, d, ltb-true 6 (length line) h) refl

  sentence_line :
      (m : Moment) (c : ℕ) (body : Text) (v : ℕ) (g : Gps F)
      → All Inner (c ∷ body)
      → v < 256
      → take_line F m (sentence (c ∷ body) v) g
        ≡ (if xor_from 0 (c ∷ body) == v then take_sentence F m (sentence (c ∷ body) v) g else g)
  sentence_line m c body v g h k =
      whole_line m (sentence (c ∷ body) v) g _
        (omega (arith, length-inside c body v, length-snoc (c ∷ body ++ tail v) 10))
        (c_string-sentence (c ∷ body) v h k) (checksum_decides c body v h k)

  -- A sentence of the form `$body*hh`, at most 126 bytes long with its end of line, is taken if hh
  -- is the exclusive or of its body, and changes nothing if it is not; what the receiver read
  -- before does not matter, and the line buffer is empty again.
  pub sentence_is_checked :
      (moments : ℕ → Moment) (c : ℕ) (body : Text) (v : ℕ) (r : Receiver F)
      → All Inner (c ∷ body)
      → v < 256
      → length body ≤ 119
      → read_bytes F moments (sentence (c ∷ body) v) r ≡ record {
        gps =
            if xor_from 0 (c ∷ body) == v
            then take_sentence F (moments (length body + 6)) (sentence (c ∷ body) v) r.gps
            else r.gps;
        line = [];
      }
  unfolding take_line print_octet
  sentence_is_checked moments c body v r h k l =
      sentence_is_framed F moments (c ∷ body ++ tail v) r (Plain-sentence (c ∷ body) v h k)
        (omega (arith, l, length-inside c body v))
      ∙ ap (λ g. record { gps = g; line = [] })
          (ap (λ n. take_line F (moments n) (sentence (c ∷ body) v) r.gps) (length-inside c body v)
            ∙ sentence_line (moments (length body + 6)) c body v r.gps h k)

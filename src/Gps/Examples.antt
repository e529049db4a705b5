-- ===== src/Gps/Examples.antt =====
-- The theorems on the GPS receiver, applied. The floats of the examples are the texts they were
-- read from.
use van_child_safety.Base.{
  ℕ, ◌<◌, ◌≡◌, refl, Bool, true, false, not, ◌&&◌, List, [], ◌∷◌, ◌++◌, arith, ◌==◌, length,
  if◌then◌else◌, replicate,
}
use van_child_safety.Base.Int.{pos}
use van_child_safety.Base.Text.{Text, codes}
use van_child_safety.Roster.Distinct.{All}
use van_child_safety.Gps.Sentences.{Floats, Moment, Gps, take_sentence, parse_gprmc, parse_gpgga}
use van_child_safety.Gps.Receiver.{Receiver, read_bytes}
use van_child_safety.Gps.Checksum.{xor_from}
use van_child_safety.Gps.Checked.{Inner, sentence, sentence_is_checked}
use van_child_safety.Gps.Framing.{line_stays_inside}
use van_child_safety.Gps.Fixes.{quiet_rounds, stale_fix_is_dropped, missed_wait_keeps_fix}
use van_child_safety.Gps.Tokens.{join, Commaless}
use van_child_safety.Gps.Empty.{sparse_sentence_is_ignored, empty_course_reads_date}

abbrev every {ℓ} : {A : Type ℓ} → (A → Bool) → List A → Bool
every test [] = true
every test (x ∷ xs) = test x && every test xs

All-every {ℓ κ} :
    {A : Type ℓ} (P : A → Type κ) (test : A → Bool) (right : (x : A) → test x ≡ true → P x)
    (xs : List A)
    → every test xs ≡ true
    → All P xs
All-every P test right [] h = tt
All-every P test right (x ∷ xs) h =
    (right x (ground (arith, h)), All-every P test right xs (ground (arith, h)))

abbrev is_inner : ℕ → Bool
is_inner c = not (c == b'$') && (not (c == 10) && (not (c == b'*') && not (c == 0)))

abbrev no_comma : Text → Bool
no_comma = every (λ c. not (c == b','))

Inner-is_inner : (c : ℕ) → is_inner c ≡ true → Inner c
Inner-is_inner c h = (ground arith, ground arith, ground arith, ground arith)

Commaless-no_comma : (s : Text) → no_comma s ≡ true → Commaless s
Commaless-no_comma = All-every _ (λ c. not (c == b',')) (λ c h. ground arith)

abbrev texts : Floats
texts = record {
  float = Text;
  atof = λ s. s;
  of_int = λ n. [];
  to_int = λ s. pos 0;
  ◌/F◌ = λ s t. s;
  ◌*F◌ = λ s t. [];
  ◌+F◌ = λ s t. s ++ t;
  ◌-F◌ = λ s t. s ++ t;
  negate = λ s. b'-' ∷ s;
  knots_to_kmh = λ s. s;
}

abbrev a_fix : Gps texts
a_fix = record {
  latitude = codes "48";
  longitude = codes "11";
  speed = [];
  course = codes "90";
  altitude = [];
  satellites = 7;
  gps_valid = true;
  last_valid_fix_us = 5000000;
  gps_valid_reported = true;
}

-- In the middle of a line.
abbrev receiver : Receiver texts
receiver = record { gps = a_fix; line = codes "1,N,00" }

abbrev got : Moment
got = record { taken = true; now = 100000000 }

abbrev missed : Moment
missed = record { taken = false; now = 100000000 }

sentence_is_checked_example :
    read_bytes texts (λ _. got) (sentence (codes "GPGGA,1,,,,,0") 0) receiver ≡ record {
      gps =
          if xor_from 0 (codes "GPGGA,1,,,,,0") == 0
          then take_sentence texts got (sentence (codes "GPGGA,1,,,,,0") 0) a_fix
          else a_fix;
      line = [];
    }
sentence_is_checked_example =
    sentence_is_checked texts (λ _. got) b'G' (codes "PGGA,1,,,,,0") 0 receiver
      (All-every Inner is_inner Inner-is_inner (codes "GPGGA,1,,,,,0") refl) (omega arith)
      (omega arith)

line_stays_inside_example :
    length (read_bytes texts (λ _. got) (replicate 300 b',') receiver).line < 127
line_stays_inside_example =
    line_stays_inside texts (λ _. got) (replicate 300 b',') receiver (omega arith)

stale_fix_is_dropped_example : (quiet_rounds texts (got ∷ got ∷ []) receiver).gps.gps_valid ≡ false
stale_fix_is_dropped_example =
    stale_fix_is_dropped texts got (got ∷ []) receiver (refl, omega arith, omega arith) refl

missed_wait_keeps_fix_example :
    (quiet_rounds texts (missed ∷ got ∷ []) receiver).gps.gps_valid ≡ true
missed_wait_keeps_fix_example =
    missed_wait_keeps_fix texts missed (got ∷ []) receiver (refl, omega arith, omega arith) refl

-- No position, with the status V and empty fields.
abbrev void_fields : List Text
void_fields =
    codes "$GPRMC"
    ∷ codes "101500"
    ∷ codes "V"
    ∷ []
    ∷ []
    ∷ []
    ∷ []
    ∷ []
    ∷ []
    ∷ codes "261125"
    ∷ []
    ∷ []
    ∷ codes "N*49"
    ∷ []

sparse_sentence_is_ignored_example :
    (parse_gprmc texts got (join void_fields) a_fix ≡ a_fix)
    × (parse_gpgga texts got (join void_fields) a_fix ≡ a_fix)
sparse_sentence_is_ignored_example =
    sparse_sentence_is_ignored texts got void_fields a_fix
      (All-every Commaless no_comma Commaless-no_comma void_fields refl) (omega arith)

abbrev at_rest : List Text
at_rest =
    codes "$GPRMC"
    ∷ codes "101500"
    ∷ codes "A"
    ∷ codes "4807.0"
    ∷ codes "N"
    ∷ codes "01131.0"
    ∷ codes "E"
    ∷ codes "0.0"
    ∷ []

empty_course_reads_date_example :
    (parse_gprmc texts got
      (join (at_rest ++ [] ∷ codes "261125" ∷ [] ∷ [] ∷ codes "A*52" ∷ []))
      a_fix).course
    ≡ codes "261125"
empty_course_reads_date_example =
    empty_course_reads_date texts got at_rest (codes "261125") ([] ∷ [] ∷ codes "A*52" ∷ []) a_fix
      (All-every Commaless no_comma Commaless-no_comma
        (at_rest ++ [] ∷ codes "261125" ∷ [] ∷ [] ∷ codes "A*52" ∷ []) refl)
      (refl, (refl, (refl, (refl, (refl, (refl, (refl, (refl, tt)))))))) refl refl refl refl
      (omega arith) refl

-- ===== src/Gps/Empty.antt =====
-- What empty fields do to a sentence (main/sensor_gps.c): a receiver leaves fields empty that it
-- cannot fill, and `strtok` passes over them.
use van_child_safety.Base.{
  ◌≤◌, ◌<◌, ◌≡◌, refl, sym, ap, ◌∙◌, true, false, List, [], ◌∷◌, ◌++◌, arith, ◌==◌, take, length,
  get_or, get_or-take, take-le, length-append, ltb-true, ltb-false,
}
use van_child_safety.Base.Text.{Text}
use van_child_safety.Roster.Distinct.{All}
use van_child_safety.Gps.Sentences.{
  Floats, Moment, Gps, field, first_char, take_gprmc, take_gpgga, parse_gprmc, parse_gpgga,
  write_position,
}
use van_child_safety.Gps.Tokens.{
  join, nonempty, Commaless, Filled, strtok-join, nonempty-append, get_or-append, get_or-middle,
  token_then-Filled, take-long,
}

module _ (F : Floats) where
  few_fields :
      (m : Moment) (f : List Text) (g : Gps F)
      → length f < 10
      → (take_gprmc F m f g ≡ g) × (take_gpgga F m f g ≡ g)
  unfolding take_gprmc take_gpgga
  few_fields m f g h = (rw (ltb-true (length f) 10 h) refl, rw (ltb-true (length f) 10 h) refl)

  -- A sentence with fewer than ten fields that are not empty changes nothing, whatever its status
  -- is: a receiver without a position, which leaves its fields empty, does not take back the
  -- validity of the fix before.
  pub sparse_sentence_is_ignored :
      (m : Moment) (fs : List Text) (g : Gps F)
      → All Commaless fs
      → length (nonempty fs) < 10
      → (parse_gprmc F m (join fs) g ≡ g) × (parse_gpgga F m (join fs) g ≡ g)
  unfolding parse_gprmc parse_gpgga
  sparse_sentence_is_ignored m fs g c h =
      rw
        (
          strtok-join fs c,
          take-le 12 (nonempty fs) (omega (arith, h)),
          take-le 15 (nonempty fs) (omega (arith, h)),
        )
        (few_fields m (nonempty fs) g h)

  -- The eighth field of a sentence is the course, as far as the code can see.
  course_taken :
      (m : Moment) (f : List Text) (g : Gps F)
      → 10 ≤ length f
      → (first_char (field f 2) == b'A') ≡ true
      → m.taken ≡ true
      → (first_char (field f 8) == 0) ≡ false
      → (take_gprmc F m f g).course ≡ F.atof (field f 8)
  unfolding take_gprmc write_position
  course_taken m f g h a t z = rw (ltb-false (length f) 10 h, a, t, z) refl

  module _ (before rest : List Text) (date : Text) (n : length before ≡ 8) where
    abbrev shifted : List Text
    shifted = take 12 (before ++ date ∷ rest)

    field_8 : field shifted 8 ≡ date
    field_8 =
        get_or-take (before ++ date ∷ rest) 12 8 [] (omega arith)
        ∙ ap (λ i. get_or (before ++ date ∷ rest) i []) (sym n)
        ∙ get_or-middle before rest date []

    field_2 : field shifted 2 ≡ field before 2
    field_2 =
        get_or-take (before ++ date ∷ rest) 12 2 [] (omega arith)
        ∙ get_or-append before (date ∷ rest) 2 [] (omega (arith, n))

    enough_fields : 0 < length rest → 10 ≤ length shifted
    enough_fields l =
        take-long 12 10 (before ++ date ∷ rest) (omega arith)
          (omega (arith, length-append before (date ∷ rest), n, l))

  -- In a valid position sentence whose course is empty, as it is of a vehicle at rest, and whose
  -- other first nine fields are not, the date is stored as the course.
  pub empty_course_reads_date :
      (m : Moment) (before : List Text) (date : Text) (after : List Text) (g : Gps F)
      → All Commaless (before ++ [] ∷ date ∷ after)
      → All Filled before
      → length before ≡ 8
      → (first_char (field before 2) == b'A') ≡ true
      → (first_char date == 0) ≡ false
      → Filled date
      → 0 < length (nonempty after)
      → m.taken ≡ true
      → (parse_gprmc F m (join (before ++ [] ∷ date ∷ after)) g).course ≡ F.atof date
  unfolding parse_gprmc
  empty_course_reads_date m before date after g c b n a z d l t =
      ap (λ ts. (take_gprmc F m (take 12 ts) g).course)
        (strtok-join _ c
          ∙ nonempty-append before ([] ∷ date ∷ after) b
          ∙ ap (λ ts. before ++ ts) (token_then-Filled date (nonempty after) d))
      ∙ course_taken m (shifted before (nonempty after) date n) g
          (enough_fields before (nonempty after) date n l)
          (rw (field_2 before (nonempty after) date n) a) t
          (rw (field_8 before (nonempty after) date n) z)
      ∙ ap F.atof (field_8 before (nonempty after) date n)

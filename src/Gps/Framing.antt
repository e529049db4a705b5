-- ===== src/Gps/Framing.antt =====
-- Lines out of the bytes of the GPS receiver (main/sensor_gps.c).
use van_child_safety.Base.{
  ℕ, suc, ◌+◌, ◌≤◌, ◌<◌, ◌≡◌, refl, ap, ◌∙◌, false, List, [], ◌∷◌, ◌++◌, arith, ◌==◌, length,
  length-snoc, append_assoc, ltb-true, leb,
}
use van_child_safety.Gps.Sentences.{Floats, Moment, Gps}
use van_child_safety.Gps.Receiver.{Receiver, take_line, put_byte, read_byte, read_bytes}

-- Neither a dollar nor the end of a line.
abbrev pub Plain : List ℕ → Type 0
Plain [] = Unit
Plain (b ∷ bs) = ((b == b'$') ≡ false) × ((b == 10) ≡ false) × Plain bs

module _ (F : Floats) where
  -- A plain byte is kept, while there is room.
  plain_byte :
      (m : Moment) (b : ℕ) (g : Gps F) (line : List ℕ)
      → (b == b'$') ≡ false
      → (b == 10) ≡ false
      → length line < 126
      → read_byte F m b (record { gps = g; line = line })
        ≡ record { gps = g; line = line ++ b ∷ [] }
  unfolding read_byte
  plain_byte m b g line p q h =
      rw
        (
          p,
          q,
          ltb-true (length line) 127 (omega (arith, h)),
          length-snoc line b,
          short (length line) h,
        )
        refl
    where
      short : (n : ℕ) → n < 126 → leb 127 (suc n) ≡ false
      short n h = ground (arith, h)

  -- The end of the line.
  end_byte :
      (m : Moment) (g : Gps F) (line : List ℕ)
      → length line < 127
      → read_byte F m 10 (record { gps = g; line = line })
        ≡ record { gps = take_line F m (line ++ 10 ∷ []) g; line = [] }
  unfolding read_byte
  end_byte m g line h = rw (ltb-true (length line) 127 h) refl

  rest_of_line :
      (moments : ℕ → Moment) (s line : List ℕ) (g : Gps F)
      → Plain s
      → length line + length s < 127
      → read_bytes F moments (s ++ 10 ∷ []) (record { gps = g; line = line })
        ≡ record { gps = take_line F (moments (length s)) (line ++ (s ++ 10 ∷ [])) g; line = [] }
  unfolding read_bytes
  rest_of_line moments [] line g p h = end_byte (moments 0) g line (omega (arith, h))
  rest_of_line moments (b ∷ s) line g p h =
      ap (read_bytes F (λ i. moments (suc i)) (s ++ 10 ∷ []))
        (plain_byte (moments 0) b g line p.0 p.1 (omega (arith, h)))
      ∙ rest_of_line (λ i. moments (suc i)) s (line ++ b ∷ []) g p.2
          (omega (arith, h, length-snoc line b))
      ∙ rw (append_assoc line (b ∷ []) (s ++ 10 ∷ [])) refl

  -- A sentence of a dollar, at most 125 bytes without a dollar or an end of line, and an end of
  -- line is taken as one line, whatever the receiver read before, and the buffer is empty again.
  pub sentence_is_framed :
      (moments : ℕ → Moment) (s : List ℕ) (r : Receiver F)
      → Plain s
      → length s ≤ 125
      → read_bytes F moments (b'$' ∷ s ++ 10 ∷ []) r ≡ record {
        gps = take_line F (moments (suc (length s))) (b'$' ∷ s ++ 10 ∷ []) r.gps;
        line = [];
      }
  unfolding read_bytes read_byte
  sentence_is_framed moments s r p h =
      rest_of_line (λ i. moments (suc i)) s (b'$' ∷ []) r.gps p (omega (arith, h))

  room-put_byte : (b : ℕ) (line : List ℕ) → length line < 127 → length (put_byte b line) ≤ 127
  room-put_byte b line h = ground (arith, h, length-snoc line b)

  room-read_byte :
      (m : Moment) (b : ℕ) (r : Receiver F)
      → length r.line < 127
      → length (read_byte F m b r).line < 127
  unfolding read_byte
  room-read_byte m b r h = ground arith

  -- The line never fills its buffer: after any bytes there is room for one more and for the
  -- terminator.
  pub line_stays_inside :
      (moments : ℕ → Moment) (bytes : List ℕ) (r : Receiver F)
      → length r.line < 127
      → length (read_bytes F moments bytes r).line < 127
  unfolding read_bytes
  line_stays_inside moments [] r h = h
  line_stays_inside moments (b ∷ bs) r h =
      line_stays_inside (λ i. moments (suc i)) bs (read_byte F (moments 0) b r)
        (room-read_byte (moments 0) b r h)

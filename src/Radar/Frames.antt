-- ===== src/Radar/Frames.antt =====
-- Frames as the radar sends them (the layouts in the comments of main/sensor_ld2412.c), and what
-- the parser makes of them.
use van_child_safety.Base.{
  ℕ, ◌+◌, ◌*◌, ◌/◌, ◌%◌, ◌≤◌, ◌<◌, ◌≡◌, refl, ap, ◌∙◌, List, [], ◌∷◌, ◌++◌, arith, ltb-true,
  ltb-false, length, take,
}
use van_child_safety.Radar.Parser.{Phase, Parser, FrameEnd, data_size, parse_in, parse_byte, parse}
use van_child_safety.Radar.Bounds.{InBuffer}
use van_child_safety.Radar.Payload.{Storing, Stored, parse-append, store_all}

-- A number of 16 bits, low byte first.
abbrev pub word : ℕ → List ℕ
word n = n % 256 ∷ n / 256 ∷ []

-- An engineering frame but for its last byte 0x01.
abbrev pub engineering_frame : ℕ → List ℕ → List ℕ
engineering_frame cmd bs =
    0xFD
    ∷ 0xFC
    ∷ 0xFB
    ∷ 0xFA
    ∷ (word (length bs + 2) ++ (word cmd ++ (bs ++ 0x04 ∷ 0x03 ∷ 0x02 ∷ [])))

-- A standard frame but for its last byte 0xF5; the payload `bs` ends with 0x55 0x00.
abbrev pub standard_frame : ℕ → List ℕ → List ℕ
standard_frame kind bs =
    0xF4
    ∷ 0xF3
    ∷ 0xF2
    ∷ 0xF1
    ∷ (word (length bs + 2) ++ (kind ∷ 0xAA ∷ (bs ++ 0xF8 ∷ 0xF7 ∷ 0xF6 ∷ [])))

whole : (n : ℕ) → n % 256 + n / 256 * 256 ≡ n
whole n = omega arith

length_engineering :
    (lo hi n : ℕ) (p : Parser)
    → lo + hi * 256 ≡ n
    → 2 ≤ n
    → n ≤ 66
    → (parse_in Phase.len2 hi (record p { data_len = lo })).0
      ≡ record p { state = Phase.cmd1; data_idx = 0; data_len = n }
unfolding parse_in
length_engineering lo hi n p q l h = rw (q, ltb-false n 2 l, ltb-false 66 n h) refl

length_standard :
    (lo hi n : ℕ) (p : Parser)
    → lo + hi * 256 ≡ n
    → 4 ≤ n
    → n ≤ 60
    → (parse_in Phase.sd_lenh hi (record p { data_len = lo })).0
      ≡ record p { state = Phase.sd_type; data_idx = 0; data_len = n }
unfolding parse_in
length_standard lo hi n p q l h = rw (q, ltb-false n 4 l, ltb-false 60 n h) refl

command_bytes :
    (c0 c1 cmd : ℕ) (p : Parser)
    → c0 + c1 * 256 ≡ cmd
    → 2 < p.data_len
    → (parse_in Phase.cmd2 c1 (record p { cmd = c0 })).0
      ≡ record p { state = Phase.payload; cmd = cmd }
unfolding parse_in
command_bytes c0 c1 cmd p q l = rw (q, ltb-true 2 p.data_len l) refl

idle-eta : (p : Parser) → p.state ≡ Phase.idle → p ≡ record p { state = Phase.idle }
idle-eta p e = ap (λ s. record p { state = s }) e

engineering_header :
    (n cmd : ℕ) (p : Parser)
    → p.state ≡ Phase.idle
    → 2 < n
    → n ≤ 66
    → parse (0xFD ∷ 0xFC ∷ 0xFB ∷ 0xFA ∷ (word n ++ word cmd)) p
      ≡ record p { state = Phase.payload; data_idx = 0; data_len = n; cmd = cmd }
unfolding parse parse_byte parse_in
engineering_header n cmd p e l h =
    ap (parse (0xFD ∷ 0xFC ∷ 0xFB ∷ 0xFA ∷ (word n ++ word cmd))) (idle-eta p e)
    ∙ (ap (parse (word cmd))
          (length_engineering (n % 256) (n / 256) n p (whole n) (omega (arith, l)) h)
        ∙ command_bytes (cmd % 256) (cmd / 256) cmd (record p { data_idx = 0; data_len = n })
            (whole cmd) l)

standard_header :
    (n kind : ℕ) (p : Parser)
    → p.state ≡ Phase.idle
    → 4 ≤ n
    → n ≤ 60
    → parse (0xF4 ∷ 0xF3 ∷ 0xF2 ∷ 0xF1 ∷ (word n ++ kind ∷ 0xAA ∷ [])) p
      ≡ record p { state = Phase.sd_data; data_idx = 0; data_len = n; std_type = kind }
unfolding parse parse_byte parse_in
standard_header n kind p e l h =
    ap (parse (0xF4 ∷ 0xF3 ∷ 0xF2 ∷ 0xF1 ∷ (word n ++ kind ∷ 0xAA ∷ []))) (idle-eta p e)
    ∙ ap (parse (kind ∷ 0xAA ∷ [])) (length_standard (n % 256) (n / 256) n p (whole n) l h)

footer_engineering :
    (p : Parser)
    → p.state ≡ Phase.e1
    → parse (0x04 ∷ 0x03 ∷ 0x02 ∷ []) p ≡ record p { state = Phase.e4 }
unfolding parse parse_byte parse_in
footer_engineering p e = ap (λ s. parse (0x04 ∷ 0x03 ∷ 0x02 ∷ []) (record p { state = s })) e

footer_standard :
    (p : Parser)
    → p.state ≡ Phase.sd_f8
    → parse (0xF8 ∷ 0xF7 ∷ 0xF6 ∷ []) p ≡ record p { state = Phase.sd_f5 }
unfolding parse parse_byte parse_in
footer_standard p e = ap (λ s. parse (0xF8 ∷ 0xF7 ∷ 0xF6 ∷ []) (record p { state = s })) e

-- An idle parser with its buffer in order takes an engineering frame of 1 to 64 payload bytes whole:
-- its last byte completes it, command and payload are those that were sent, and the parser is idle
-- again.
pub engineering_roundtrip :
    (cmd b : ℕ) (bs : List ℕ) (p : Parser)
    → InBuffer p
    → p.state ≡ Phase.idle
    → length (b ∷ bs) ≤ data_size
    → let p' = parse (engineering_frame cmd (b ∷ bs)) p in
      ((parse_byte 0x01 p').1 ≡ FrameEnd.engineering)
      × ((parse_byte 0x01 p').0.state ≡ Phase.idle)
      × (p'.cmd ≡ cmd)
      × (take p'.data_idx p'.data_bytes ≡ b ∷ bs)
unfolding parse_byte parse_in
engineering_roundtrip cmd b bs p h e l = rw (received) (refl, refl, s.cmd, s.content)
  where
    n : ℕ
    n = length (b ∷ bs) + 2

    p1 : Parser
    p1 = record p { state = Phase.payload; data_idx = 0; data_len = n; cmd = cmd }

    s : Stored Phase.e1 [] p1 (parse (b ∷ bs) p1) (b ∷ bs)
    s = store_all Storing.engineering b bs p1 [] refl h.size (omega (arith, l)) (omega arith) refl

    received :
        parse (engineering_frame cmd (b ∷ bs)) p ≡ record (parse (b ∷ bs) p1) { state = Phase.e4 }
    received =
        parse-append (0xFD ∷ 0xFC ∷ 0xFB ∷ 0xFA ∷ (word n ++ word cmd)) _ p
        ∙ (ap (parse (b ∷ (bs ++ 0x04 ∷ 0x03 ∷ 0x02 ∷ [])))
              (engineering_header n cmd p e (omega arith) (omega (arith, l)))
            ∙ (parse-append (b ∷ bs) _ p1 ∙ footer_engineering (parse (b ∷ bs) p1) s.state))

-- An idle parser with its buffer in order takes a standard frame of 2 to 58 bytes after the marker
-- whole: its last byte completes it, type and bytes are those that were sent, and the parser is idle
-- again.
pub standard_roundtrip :
    (kind b : ℕ) (bs : List ℕ) (p : Parser)
    → InBuffer p
    → p.state ≡ Phase.idle
    → 2 ≤ length (b ∷ bs)
    → length (b ∷ bs) ≤ 58
    → let p' = parse (standard_frame kind (b ∷ bs)) p in
      ((parse_byte 0xF5 p').1 ≡ FrameEnd.standard)
      × ((parse_byte 0xF5 p').0.state ≡ Phase.idle)
      × (p'.std_type ≡ kind)
      × (take p'.data_idx p'.data_bytes ≡ b ∷ bs)
unfolding parse_byte parse_in
standard_roundtrip kind b bs p h e m l = rw (received) (refl, refl, s.std_type, s.content)
  where
    n : ℕ
    n = length (b ∷ bs) + 2

    p1 : Parser
    p1 = record p { state = Phase.sd_data; data_idx = 0; data_len = n; std_type = kind }

    s : Stored Phase.sd_f8 [] p1 (parse (b ∷ bs) p1) (b ∷ bs)
    s = store_all Storing.standard b bs p1 [] refl h.size (omega (arith, l)) (omega arith) refl

    received :
        parse (standard_frame kind (b ∷ bs)) p ≡ record (parse (b ∷ bs) p1) { state = Phase.sd_f5 }
    received =
        parse-append (0xF4 ∷ 0xF3 ∷ 0xF2 ∷ 0xF1 ∷ (word n ++ kind ∷ 0xAA ∷ [])) _ p
        ∙ (ap (parse (b ∷ (bs ++ 0xF8 ∷ 0xF7 ∷ 0xF6 ∷ [])))
              (standard_header n kind p e (omega (arith, m)) (omega (arith, l)))
            ∙ (parse-append (b ∷ bs) _ p1 ∙ footer_standard (parse (b ∷ bs) p1) s.state))

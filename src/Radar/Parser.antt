-- ===== src/Radar/Parser.antt =====
-- The byte parser of main/sensor_ld2412.c (process_byte). What a finished frame does is in
-- Radar/Presence: the parser reports it, since it goes back to idle whatever that was.
use van_child_safety.Base.{
  ℕ, suc, ◌+◌, ◌*◌, List, [], ◌∷◌, ltb, leb, ◌==◌, if◌then◌else◌, replicate, set,
}

-- The states, those of the standard frame last. Nothing enters `sd_lenl`.
pub data Phase : Type 0 where
  idle h1 h2 h3 len1 len2 cmd1 cmd2 payload e1 e2 e3 e4 : Phase
  f4_hdr f4_f3 f4_f2 f4_f1 sd_lenl sd_lenh sd_type sd_aa sd_data sd_f8 sd_f7 sd_f6 sd_f5 : Phase

-- `s_state` to `s_std_type`.
pub record Parser : Type 0 where
  pub state : Phase
  pub data_bytes : List ℕ
  pub data_idx : ℕ
  pub data_len : ℕ
  pub cmd : ℕ
  pub std_type : ℕ

-- `sizeof(s_data)`.
abbrev pub data_size : ℕ
data_size = 64

abbrev pub power_on_parser : Parser
power_on_parser = record {
  state = Phase.idle;
  data_bytes = replicate data_size 0;
  data_idx = 0;
  data_len = 0;
  cmd = 0;
  std_type = 0;
}

-- What a byte completes.
pub data FrameEnd : Type 0 where
  none engineering standard : FrameEnd

abbrev pub goto : Phase → Parser → Parser × FrameEnd
goto s p = (record p { state = s }, FrameEnd.none)

-- `s_state = (b == want) ? next : ST_IDLE`.
abbrev pub expect : ℕ → ℕ → Phase → Parser → Parser × FrameEnd
expect b want next p = goto (if b == want then next else Phase.idle) p

-- A write past the end is dropped; the index counts it all the same.
unfoldable pub store : ℕ → Parser → Parser
store b p = record p {
  data_bytes = if ltb p.data_idx data_size then set p.data_bytes p.data_idx b else p.data_bytes;
  data_idx = suc p.data_idx;
}

-- `s_data_idx >= (int)(s_data_len - 2)`: the payload is complete.
abbrev pub store_until : ℕ → Phase → Phase → Parser → Parser × FrameEnd
store_until b going done p =
    let p' = store b p in goto (if leb p'.data_len (p'.data_idx + 2) then done else going) p'

-- The high byte of the length: the length is in `[low, high]`, or the frame is dropped.
abbrev pub length_high : ℕ → ℕ → ℕ → Phase → Parser → Parser × FrameEnd
length_high b low high next p =
    let n = p.data_len + b * 256 in
    (
      record p {
        data_len = n;
        data_idx = 0;
        state = if ltb n low then Phase.idle else if ltb high n then Phase.idle else next;
      },
      FrameEnd.none,
    )

-- The last byte of a footer.
abbrev pub finish : ℕ → ℕ → FrameEnd → Parser → Parser × FrameEnd
finish b want frame p =
    (record p { state = Phase.idle }, if b == want then frame else FrameEnd.none)

-- The switch of `process_byte`. `s_data_len |= b << 8` adds, since the low byte is below 256.
unfoldable pub parse_in : Phase → ℕ → Parser → Parser × FrameEnd
unfolding store
parse_in Phase.idle b p =
    goto (if b == 0xF4 then Phase.f4_hdr else if b == 0xFD then Phase.h1 else Phase.idle) p
parse_in Phase.h1 b p = expect b 0xFC Phase.h2 p
parse_in Phase.h2 b p = expect b 0xFB Phase.h3 p
parse_in Phase.h3 b p = expect b 0xFA Phase.len1 p
parse_in Phase.len1 b p = goto Phase.len2 (record p { data_len = b })
parse_in Phase.len2 b p = length_high b 2 66 Phase.cmd1 p
parse_in Phase.cmd1 b p = goto Phase.cmd2 (record p { cmd = b })
parse_in Phase.cmd2 b p =
    goto (if ltb 2 p.data_len then Phase.payload else Phase.e1) (record p { cmd = p.cmd + b * 256 })
parse_in Phase.payload b p = store_until b Phase.payload Phase.e1 p
parse_in Phase.e1 b p = expect b 0x04 Phase.e2 p
parse_in Phase.e2 b p = expect b 0x03 Phase.e3 p
parse_in Phase.e3 b p = expect b 0x02 Phase.e4 p
parse_in Phase.e4 b p = finish b 0x01 FrameEnd.engineering p
parse_in Phase.f4_hdr b p = expect b 0xF3 Phase.f4_f3 p
parse_in Phase.f4_f3 b p = expect b 0xF2 Phase.f4_f2 p
parse_in Phase.f4_f2 b p = expect b 0xF1 Phase.f4_f1 p
parse_in Phase.f4_f1 b p = goto Phase.sd_lenh (record p { data_len = b })
parse_in Phase.sd_lenh b p = length_high b 4 60 Phase.sd_type p
parse_in Phase.sd_type b p = goto Phase.sd_aa (record p { std_type = b })
parse_in Phase.sd_aa b p = expect b 0xAA Phase.sd_data p
parse_in Phase.sd_data b p = store_until b Phase.sd_data Phase.sd_f8 p
parse_in Phase.sd_f8 b p = expect b 0xF8 Phase.sd_f7 p
parse_in Phase.sd_f7 b p = expect b 0xF7 Phase.sd_f6 p
parse_in Phase.sd_f6 b p = expect b 0xF6 Phase.sd_f5 p
parse_in Phase.sd_f5 b p = finish b 0xF5 FrameEnd.standard p
parse_in Phase.sd_lenl b p = goto Phase.idle p

-- `process_byte`, as far as the parser's variables go.
unfoldable pub parse_byte : ℕ → Parser → Parser × FrameEnd
unfolding parse_in
parse_byte b p = parse_in p.state b p

-- The parser after a list of bytes.
unfoldable pub parse : List ℕ → Parser → Parser
unfolding parse_byte
parse [] p = p
parse (b ∷ bs) p = parse bs (parse_byte b p).0

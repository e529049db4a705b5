-- ===== src/Radar/Bounds.antt =====
-- The parser never writes or reads past its buffer, whatever bytes arrive.
use Prim.{Unit}
use van_child_safety.Base.{
  ℕ, ◌+◌, ◌-◌, ◌≤◌, ◌<◌, ◌≡◌, refl, List, [], ◌∷◌, arith, length, length-set,
}
use van_child_safety.Radar.Parser.{
  Phase, Parser, data_size, power_on_parser, store, parse_in, parse_byte, parse,
}

-- What holds of the index and of the length in a state.
abbrev pub Bounds : Phase → ℕ → ℕ → Type 0
Bounds Phase.cmd1 i n = (i ≡ 0) × (2 ≤ n) × (n ≤ 66)
Bounds Phase.cmd2 i n = (i ≡ 0) × (2 ≤ n) × (n ≤ 66)
Bounds Phase.payload i n = (i + 2 < n) × (n ≤ 66)
Bounds Phase.e1 i n = (i + 2 ≡ n) × (n ≤ 66)
Bounds Phase.e2 i n = (i + 2 ≡ n) × (n ≤ 66)
Bounds Phase.e3 i n = (i + 2 ≡ n) × (n ≤ 66)
Bounds Phase.e4 i n = (i + 2 ≡ n) × (n ≤ 66)
Bounds Phase.sd_type i n = (i ≡ 0) × (4 ≤ n) × (n ≤ 60)
Bounds Phase.sd_aa i n = (i ≡ 0) × (4 ≤ n) × (n ≤ 60)
Bounds Phase.sd_data i n = (i + 2 < n) × (4 ≤ n) × (n ≤ 60)
Bounds Phase.sd_f8 i n = (i + 2 ≡ n) × (4 ≤ n) × (n ≤ 60)
Bounds Phase.sd_f7 i n = (i + 2 ≡ n) × (4 ≤ n) × (n ≤ 60)
Bounds Phase.sd_f6 i n = (i + 2 ≡ n) × (4 ≤ n) × (n ≤ 60)
Bounds Phase.sd_f5 i n = (i + 2 ≡ n) × (4 ≤ n) × (n ≤ 60)
Bounds _ i n = Unit

pub record InBuffer (p : Parser) : Type 0 where
  pub size : length p.data_bytes ≡ data_size
  pub bounds : Bounds p.state p.data_idx p.data_len

store-size :
    (b : ℕ) (p : Parser)
    → length p.data_bytes ≡ data_size
    → length (store b p).data_bytes ≡ data_size
unfolding store
store-size b p h = ground (arith, length-set p.data_bytes p.data_idx b)

parse_in-Bounds :
    (s : Phase) (b : ℕ) (p : Parser)
    → Bounds s p.data_idx p.data_len
    → let p' = (parse_in s b p).0 in Bounds p'.state p'.data_idx p'.data_len
unfolding parse_in store
parse_in-Bounds s b p h = ground arith

parse_in-size :
    (s : Phase) (b : ℕ) (p : Parser)
    → length p.data_bytes ≡ data_size
    → length (parse_in s b p).0.data_bytes ≡ data_size
unfolding parse_in
parse_in-size Phase.payload b p h = store-size b p h
parse_in-size Phase.sd_data b p h = store-size b p h
parse_in-size s b p h = h

pub parse_byte-InBuffer : (b : ℕ) (p : Parser) → InBuffer p → InBuffer (parse_byte b p).0
unfolding parse_byte
parse_byte-InBuffer b p h = record {
  size = parse_in-size p.state b p h.size;
  bounds = parse_in-Bounds p.state b p h.bounds;
}

parse-InBuffer : (bs : List ℕ) (p : Parser) → InBuffer p → InBuffer (parse bs p)
unfolding parse
parse-InBuffer [] p h = h
parse-InBuffer (b ∷ bs) p h = parse-InBuffer bs (parse_byte b p).0 (parse_byte-InBuffer b p h)

power_on-InBuffer : InBuffer power_on_parser
power_on-InBuffer = record { size = refl; bounds = record {} }

-- Where a byte is stored, and where a frame ends, the index is inside the buffer.
abbrev pub Inside : Phase → ℕ → ℕ → Type 0
Inside Phase.payload i n = i < data_size
Inside Phase.sd_data i n = i < data_size
Inside Phase.e4 i n = i ≤ data_size
Inside Phase.sd_f5 i n = (i ≤ data_size) × (i ≡ n - 4 + 2)
Inside _ i n = Unit

index_fits : (s : Phase) (i n : ℕ) → Bounds s i n → Inside s i n
index_fits s i n h = ground arith

-- From power-on, whatever bytes arrive, the buffer keeps its size, each byte of a payload is
-- stored inside it, a finished engineering frame is no longer than it, and a finished standard
-- frame holds the payload that is read and the two bytes after it.
pub parse-Inside :
    (bs : List ℕ)
    → let p = parse bs power_on_parser in
      (length p.data_bytes ≡ data_size) × Inside p.state p.data_idx p.data_len
parse-Inside bs =
    let h = parse-InBuffer bs power_on_parser power_on-InBuffer in
    let p = parse bs power_on_parser in (h.size, index_fits p.state p.data_idx p.data_len h.bounds)

-- ===== src/Radar/Payload.antt =====
-- The loop that stores the payload of a radar frame (main/sensor_ld2412.c, ST_DATA and
-- ST_SD_DATA): what was stored is what arrived.
use van_child_safety.Base.{
  ℕ, suc, ◌+◌, ◌≤◌, ◌<◌, ◌≡◌, refl, ap, ◌∙◌, Bool, true, false, List, [], ◌∷◌, ◌++◌, arith, ltb,
  leb, if◌then◌else◌, length, length-set, take-set, append_assoc, take,
}
use van_child_safety.Radar.Parser.{Phase, Parser, data_size, store, parse_in, parse_byte, parse}

pub parse-append : (xs ys : List ℕ) (p : Parser) → parse (xs ++ ys) p ≡ parse ys (parse xs p)
unfolding parse
parse-append [] ys p = refl
parse-append (x ∷ xs) ys p = parse-append xs ys (parse_byte x p).0

-- A state that stores the payload, and the state after it.
pub data Storing : Phase → Phase → Type 0 where
  engineering : Storing Phase.payload Phase.e1
  standard : Storing Phase.sd_data Phase.sd_f8

-- The parser after the payload `bs`, if it had stored `bs0` before.
pub record Stored (done : Phase) (before : List ℕ) (p p' : Parser) (bs : List ℕ) : Type 0 where
  pub state : p'.state ≡ done
  pub idx : p'.data_idx ≡ p.data_idx + length bs
  pub content : take p'.data_idx p'.data_bytes ≡ before ++ bs
  pub cmd : p'.cmd ≡ p.cmd
  pub std_type : p'.std_type ≡ p.std_type
  pub len : p'.data_len ≡ p.data_len

store_byte :
    {going done : Phase} (c : Storing going done) (b : ℕ) (p : Parser)
    → p.state ≡ going
    → (parse_byte b p).0
      ≡ record (store b p) { state = if leb p.data_len (suc p.data_idx + 2) then done else going }
unfolding parse_byte parse_in
store_byte Storing.engineering b p e = rw e refl
store_byte Storing.standard b p e = rw e refl

store_content :
    (b : ℕ) (p : Parser) (before : List ℕ)
    → length p.data_bytes ≡ data_size
    → p.data_idx < data_size
    → take p.data_idx p.data_bytes ≡ before
    → take (store b p).data_idx (store b p).data_bytes ≡ before ++ b ∷ []
unfolding store
store_content b p before s i e =
    rw (inside)
      (take-set p.data_bytes p.data_idx b (omega (arith, s, i)) ∙ ap (λ xs. xs ++ b ∷ []) e)
  where
    inside : ltb p.data_idx data_size ≡ true
    inside = ground (arith, i)

store-size : (b : ℕ) (p : Parser) → length (store b p).data_bytes ≡ length p.data_bytes
unfolding store
store-size b p = ground (arith, length-set p.data_bytes p.data_idx b)

-- One byte that is not the last, and then the rest.
store_more :
    {going done : Phase} (c : Storing going done) (b : ℕ) (bs : List ℕ) (p : Parser)
    (before : List ℕ)
    → p.state ≡ going
    → p.data_idx + 3 < p.data_len
    → Stored done
        (before ++ b ∷ [])
        (record (store b p) { state = going })
        (parse bs (record (store b p) { state = going }))
        bs
    → Stored done before p (parse (b ∷ bs) p) (b ∷ bs)
unfolding parse store
store_more {going} {done} c b bs p before g l r = rw (next) (record {
  state = r.state;
  idx = omega (arith, r.idx);
  content = r.content ∙ append_assoc before (b ∷ []) bs;
  cmd = r.cmd;
  std_type = r.std_type;
  len = r.len;
})
  where
    more : leb p.data_len (suc p.data_idx + 2) ≡ false
    more = ground (arith, l)

    next : (parse_byte b p).0 ≡ record (store b p) { state = going }
    next =
        store_byte c b p g
        ∙ ap (λ (t : Bool). record (store b p) { state = if t then done else going }) more

pub store_all :
    {going done : Phase} (c : Storing going done) (b : ℕ) (bs : List ℕ) (p : Parser)
    (before : List ℕ)
    → p.state ≡ going
    → length p.data_bytes ≡ data_size
    → p.data_len ≤ data_size + 2
    → p.data_idx + length (b ∷ bs) + 2 ≡ p.data_len
    → take p.data_idx p.data_bytes ≡ before
    → Stored done before p (parse (b ∷ bs) p) (b ∷ bs)
unfolding parse store
store_all {going} {done} c b [] p before g s n l e =
    rw (store_byte c b p g, last)
      (record {
        state = refl;
        idx = omega arith;
        content = store_content b p before s (omega (arith, n, l)) e;
        cmd = refl;
        std_type = refl;
        len = refl;
      })
  where
    last : leb p.data_len (suc p.data_idx + 2) ≡ true
    last = ground (arith, l)
store_all {going} c b (d ∷ bs) p before g s n l e =
    store_more c b (d ∷ bs) p before g (omega (arith, l)) (
      store_all c d bs (record (store b p) { state = going }) (before ++ b ∷ []) refl
        (store-size b p ∙ s) n (omega (arith, l))
        (store_content b p before s (omega (arith, n, l)) e))

-- ===== src/Parser/Ops/Numbers.antt =====
-- The numbers of an argument line, as `protoParseInt` of core/src/parser.ts reads them.
use nats_js.Base.{
  ℕ, ◌+◌, ◌-◌, ◌*◌, ◌≡◌, refl, ap, ◌∙◌, arith, Bytes, ℤ, pos, negsuc, Option, none, some, [], ◌∷◌,
  false, ◌==◌, ◌||◌, ltb, length, is_digit, decimal_from, All,
}
use nats_js.Parser.Args.{digits, capped, proto_parse_int, max_64mb}
use nats_js.Parser.Ops.{Writes, WritesSize}

digits-decimal_from : (n : ℕ) (w : Bytes) → All is_digit w → digits n w ≡ some (decimal_from n w)
unfolding digits
digits-decimal_from n [] h = refl
digits-decimal_from n (c ∷ cs) h =
    let d = h.0 in
    let e : (ltb c 48 || ltb 57 c) ≡ false = ground arith in
    rw e (digits-decimal_from (n * 10 + (c - 48)) cs h.1)

proto_parse_int-capped :
    (w : Bytes) (max : Option ℕ) (n : ℕ) → Writes w n → proto_parse_int w max ≡ capped max n
unfolding proto_parse_int
proto_parse_int-capped [] max n h = absurd h.0
proto_parse_int-capped (c ∷ cs) max n (word, all, short, value) =
    let e : (length (c ∷ cs) == 0 || ltb 15 (length (c ∷ cs))) ≡ false = ground arith in
    rw e (
      ap (λ o. elim o as (λ _. ℤ) [ none ↦ negsuc 0 | some m ↦ capped max m ])
        (digits-decimal_from 0 (c ∷ cs) all ∙ ap some value))

pub proto_parse_int-Writes : (w : Bytes) (n : ℕ) → Writes w n → proto_parse_int w none ≡ pos n
unfolding capped
proto_parse_int-Writes w n h = proto_parse_int-capped w none n h

pub proto_parse_int-WritesSize :
    (w : Bytes) (n : ℕ) → WritesSize w n → proto_parse_int w (some max_64mb) ≡ pos n
unfolding capped
proto_parse_int-WritesSize w n (h, fits) =
    let e : ltb max_64mb n ≡ false = ground arith in
    proto_parse_int-capped w (some max_64mb) n h ∙ rw e refl

-- ===== src/Headers/Lines.antt =====
-- Lines that are printed and split again in core/src/headers.ts.
use nats_js.Base.{
  ℕ, ◌≡◌, refl, sym, ap, ◌∙◌, arith, Bool, true, false, [], ◌∷◌, ◌++◌, Text, ◌&&◌, ◌==◌, append-nil,
  append_assoc, length, drop, Option, none, some, is_digit, All,
}
use nats_js.Headers.Names.{
  cr, lf, space, colon, all_chars, is_value_char, is_name_char, is_space, trim_start, trim_end,
  trim, put_front,
}
use nats_js.Headers.Wire.{split_from, is_prefix, remove_first, digit_run, cut_colon}

split_from-plain :
    (l t rest : Text)
    → all_chars is_value_char t ≡ true
    → split_from l (t ++ cr ∷ lf ∷ rest) ≡ (l ++ t) ∷ split_from [] rest
unfolding split_from all_chars
split_from-plain l [] rest h = ap (λ x. x ∷ split_from [] rest) (sym (append-nil l))
split_from-plain l (c ∷ []) rest h =
    let e : (c == cr && cr == lf) ≡ false = ground arith in rw (e, split_from) refl
split_from-plain l (c ∷ d ∷ t) rest h =
    let e : (c == cr && d == lf) ≡ false = ground arith in
    let hs : all_chars is_value_char (d ∷ t) ≡ true = ground arith in
    rw (e, split_from)
      (split_from-plain (l ++ c ∷ []) (d ∷ t) rest hs
        ∙ ap (λ x. x ∷ split_from [] rest) (append_assoc l (c ∷ []) (d ∷ t)))

-- A line without \r and \n ends at its line end.
pub split_from-line :
    (t rest : Text)
    → all_chars is_value_char t ≡ true
    → split_from [] (t ++ cr ∷ lf ∷ rest) ≡ t ∷ split_from [] rest
split_from-line t rest h = split_from-plain [] t rest h

pub all_chars-append :
    (p : ℕ → Bool) (s t : Text)
    → all_chars p s ≡ true
    → all_chars p t ≡ true
    → all_chars p (s ++ t) ≡ true
unfolding all_chars
all_chars-append p [] t h g = g
all_chars-append p (c ∷ s) t h g = ground (arith, all_chars-append p s t)

pub name-value_chars :
    (k : Text) → all_chars is_name_char k ≡ true → all_chars is_value_char k ≡ true
unfolding all_chars
name-value_chars [] h = refl
name-value_chars (c ∷ k) h = ground (arith, name-value_chars k)

pub digits-value_chars : (t : Text) → All is_digit t → all_chars is_value_char t ≡ true
unfolding all_chars
digits-value_chars [] h = refl
digits-value_chars (c ∷ k) (d, h) = ground (arith, digits-value_chars k h)

pub cut_colon-name :
    (k rest : Text)
    → all_chars is_name_char k ≡ true
    → cut_colon (k ++ colon ∷ rest) ≡ some (k, rest)
unfolding cut_colon all_chars
cut_colon-name [] rest h = refl
cut_colon-name (c ∷ k) rest h =
    let e : (c == colon) ≡ false = ground arith in
    let hs : all_chars is_name_char k ≡ true = ground arith in
    rw (e, cut_colon)
      (ap
        (λ o. elim o as (λ _. Option (Text × Text)) [ none ↦ none | some (a, v) ↦ some (c ∷ a, v) ])
        (cut_colon-name k rest hs))

is_prefix-append : (p t : Text) → is_prefix p (p ++ t) ≡ true
unfolding is_prefix
is_prefix-append [] t = refl
is_prefix-append (c ∷ p) t = ground (arith, is_prefix-append p t)

drop-append : (p t : Text) → drop (length p) (p ++ t) ≡ t
drop-append [] t = refl
drop-append (c ∷ p) t = drop-append p t

pub remove_first-append : (c : ℕ) (p t : Text) → remove_first (c ∷ p) (c ∷ p ++ t) ≡ t
unfolding remove_first
remove_first-append c p t = rw (is_prefix-append (c ∷ p) t, remove_first) (drop-append p t)

pub digit_run-append : (ds t : Text) → All is_digit ds → digit_run (ds ++ space ∷ t) ≡ ds
unfolding digit_run
digit_run-append [] t h = refl
digit_run-append (c ∷ ds) t (d, h) = rw (d, digit_run) (ap (λ x. c ∷ x) (digit_run-append ds t h))

put_front-cons : (c d : ℕ) (t : Text) → put_front c (d ∷ t) ≡ c ∷ d ∷ t
put_front-cons c d t = refl

-- Only the end of the second text is trimmed, if it is not all white space.
trim_end-append :
    (s : Text) (d : ℕ) (t : Text) → trim_end (d ∷ t) ≡ d ∷ t → trim_end (s ++ d ∷ t) ≡ s ++ d ∷ t
unfolding trim_end
trim_end-append [] d t h = h
trim_end-append (c ∷ []) d t h = ap (put_front c) h
trim_end-append (c ∷ b ∷ s) d t h = ap (put_front c) (trim_end-append (b ∷ s) d t h)

pub trim-parts :
    (c : ℕ) (s : Text) (d : ℕ) (t : Text)
    → is_space c ≡ false
    → trim_end (d ∷ t) ≡ d ∷ t
    → trim (space ∷ c ∷ s ++ d ∷ t) ≡ c ∷ s ++ d ∷ t
unfolding trim trim_start
trim-parts c s d t e h = rw (e, trim_start) (trim_end-append (c ∷ s) d t h)

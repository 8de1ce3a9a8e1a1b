-- ===== src/Headers/Trimming.antt =====
-- White space around the values of headers.
use nats_js.Base.{
  ℕ, ◌≡◌, refl, sym, ap, ◌∙◌, arith, Bool, true, false, [], ◌∷◌, Text, inl, inr, Bool-cases,
}
use nats_js.Headers.Names.{is_space, trim_start, trim_end, trim, put_front, all_chars, space}

trim_end-put_front : (c : ℕ) (t : Text) → trim_end t ≡ t → trim_end (put_front c t) ≡ put_front c t
unfolding trim_end
trim_end-put_front c [] h = ground arith
trim_end-put_front c (d ∷ ds) h = ap (put_front c) h

trim_end_idem : (t : Text) → trim_end (trim_end t) ≡ trim_end t
unfolding trim_end
trim_end_idem [] = refl
trim_end_idem (c ∷ cs) = trim_end-put_front c (trim_end cs) (trim_end_idem cs)

trim_start-put_front :
    (c : ℕ) (t : Text) → is_space c ≡ false → trim_start (put_front c t) ≡ put_front c t
unfolding trim_start
trim_start-put_front c [] e = ground arith
trim_start-put_front c (d ∷ ds) e = rw e refl

-- What begins with no white space still does when its end is trimmed.
trim_start-trim_end : (t : Text) → trim_start (trim_end (trim_start t)) ≡ trim_end (trim_start t)
unfolding trim_start trim_end
trim_start-trim_end [] = refl
trim_start-trim_end (c ∷ cs) = elim (Bool-cases (is_space c)) [
  | inl e ↦ rw (e, trim_start) (trim_start-trim_end cs)
  | inr e ↦ rw (e, trim_start) (trim_start-put_front c (trim_end cs) e)
]

pub trim_idem : (t : Text) → trim (trim t) ≡ trim t
unfolding trim
trim_idem t = ap trim_end (trim_start-trim_end t) ∙ trim_end_idem (trim_start t)

pub trim-space : (t : Text) → trim (space ∷ t) ≡ trim t
unfolding trim trim_start
trim-space t = refl

trim_start-chars :
    (p : ℕ → Bool) (t : Text) → all_chars p t ≡ true → all_chars p (trim_start t) ≡ true
unfolding trim_start all_chars
trim_start-chars p [] h = refl
trim_start-chars p (c ∷ cs) h = ground (arith, trim_start-chars p cs)

put_front-chars :
    (p : ℕ → Bool) (c : ℕ) (t : Text)
    → p c ≡ true
    → all_chars p t ≡ true
    → all_chars p (put_front c t) ≡ true
unfolding all_chars
put_front-chars p c [] e h = ground arith
put_front-chars p c (d ∷ ds) e h = ground arith

trim_end-chars : (p : ℕ → Bool) (t : Text) → all_chars p t ≡ true → all_chars p (trim_end t) ≡ true
unfolding trim_end all_chars
trim_end-chars p [] h = refl
trim_end-chars p (c ∷ cs) h = ground (arith, trim_end-chars p cs, put_front-chars p c (trim_end cs))

pub trim-chars : (p : ℕ → Bool) (t : Text) → all_chars p t ≡ true → all_chars p (trim t) ≡ true
unfolding trim
trim-chars p t h = trim_end-chars p (trim_start t) (trim_start-chars p t h)

-- What `trim` keeps ends with no white space.
pub trim-trim_end : (t : Text) → trim t ≡ t → trim_end t ≡ t
unfolding trim
trim-trim_end t h = ap trim_end (sym h) ∙ trim_end_idem (trim_start t) ∙ h

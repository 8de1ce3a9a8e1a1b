-- ===== src/Keys/Wildcards.antt =====
-- Wildcards in the keys of kv/src/kv.ts.
use nats_js.Base.{
  not, ◌&&◌, ◌||◌, ℕ, ◌≡◌, refl, arith, Bool, true, false, some, List, [], ◌∷◌, ◌++◌, Text,
}
use nats_js.Keys.{
  is_search_char, validate_search_key, includes_dots, starts_with_dot, ends_with_dot, all_in,
  is_key_char, validate_key, split_from, split, is_star, is_gt, wildcards, has_wildcards,
}

abbrev AllIn : (ℕ → Bool) → List Text → Type 0
AllIn p [] = Unit
AllIn p (t ∷ ts) = (all_in p t ≡ true) × AllIn p ts

all_in-snoc :
    (p : ℕ → Bool) (t : Text) (c : ℕ)
    → all_in p t ≡ true
    → p c ≡ true
    → all_in p (t ++ c ∷ []) ≡ true
all_in-snoc p [] c h e = ground arith
all_in-snoc p (d ∷ t) c h e = ground (arith, all_in-snoc p t c)

split_from-AllIn :
    (p : ℕ → Bool) (t cs : Text)
    → all_in p t ≡ true
    → all_in p cs ≡ true
    → AllIn p (split_from t cs)
unfolding split_from
split_from-AllIn p t [] h k = (h, tt)
split_from-AllIn p t (c ∷ cs) h k =
    ground (arith, split_from-AllIn p [] cs, split_from-AllIn p (t ++ c ∷ []) cs, all_in-snoc p t c)

plain : (t : Text) → all_in is_key_char t ≡ true → (is_star t ≡ false) × (is_gt t ≡ false)
plain [] h = (refl, refl)
plain (c ∷ []) h = ground arith
plain (c ∷ d ∷ t) h = ground arith

wildcards-AllIn : (b : Bool) (ts : List Text) → AllIn is_key_char ts → wildcards b ts ≡ some b
unfolding wildcards
wildcards-AllIn b [] h = refl
wildcards-AllIn b (t ∷ ts) h = ground (arith, plain t (h.0), wildcards-AllIn b ts)

-- A key that `validateKey` lets through has no wildcards, and `hasWildcards` does not throw on it.
pub validate_key-has_wildcards : (k : Text) → validate_key k ≡ true → has_wildcards k ≡ some false
unfolding validate_key has_wildcards split
validate_key-has_wildcards k h =
    ground (arith, wildcards-AllIn false (split k), split_from-AllIn is_key_char [] k refl)

all_in-is_search_char : (k : Text) → all_in is_key_char k ≡ true → all_in is_search_char k ≡ true
all_in-is_search_char [] h = refl
all_in-is_search_char (c ∷ k) h = ground (arith, all_in-is_search_char k)

abbrev is_filled : Text → Bool
is_filled [] = false
is_filled (c ∷ cs) = true

-- No token is empty.
abbrev pub all_filled : List Text → Bool
all_filled [] = true
all_filled (t ∷ ts) = is_filled t && all_filled ts

filled_snoc : (t : Text) (c : ℕ) → is_filled (t ++ c ∷ []) ≡ true
filled_snoc [] c = refl
filled_snoc (d ∷ t) c = refl

split_from-all_filled :
    (t cs : Text)
    → all_filled (split_from t cs) ≡ (
        (is_filled t || (is_filled cs && not (starts_with_dot cs)))
        && (not (includes_dots cs) && not (ends_with_dot cs)))
unfolding split_from
split_from-all_filled t [] = ground arith
split_from-all_filled t (c ∷ []) = ground (arith, filled_snoc t c)
split_from-all_filled t (c ∷ d ∷ cs) = ground (
  arith,
  split_from-all_filled [] (d ∷ cs),
  split_from-all_filled (t ++ c ∷ []) (d ∷ cs),
  filled_snoc t c,
)

-- A key that `validateKey` lets through is let through by `validateSearchKey` exactly if none of the tokens that it is
-- split into at its dots is empty.
pub validate_key-validate_search_key :
    (k : Text) → validate_key k ≡ true → validate_search_key k ≡ all_filled (split k)
unfolding validate_key validate_search_key split
validate_key-validate_search_key [] h = ground arith
validate_key-validate_search_key (c ∷ k) h =
    ground (arith, all_in-is_search_char (c ∷ k), split_from-all_filled [] (c ∷ k))

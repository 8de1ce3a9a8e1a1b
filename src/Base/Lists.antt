-- ===== src/Base/Lists.antt =====
-- Lists measured and indexed by native numbers, and slices of them.
use Prim.Native.Nat.{ℕ, zero, suc, ◌+◌, ◌-◌, ◌≤◌, min}
use mathlib.Core.Path.{◌≡◌, refl, ap, sym, ◌∙◌}
use mathlib.Core.List.{List, [], ◌∷◌, ◌++◌}
use mathlib.Core.Option.{Option, none, some}
use native.Mathlib.Omega.{arith}

module _ {ℓ} {A : Type ℓ} where
  abbrev pub length : List A → ℕ
  length [] = 0
  length (x ∷ xs) = suc (length xs)

  abbrev pub get_elem? : List A → ℕ → Option A
  get_elem? [] i = none
  get_elem? (x ∷ xs) zero = some x
  get_elem? (x ∷ xs) (suc i) = get_elem? xs i

  abbrev pub take : ℕ → List A → List A
  take zero xs = []
  take (suc n) [] = []
  take (suc n) (x ∷ xs) = x ∷ take n xs

  abbrev pub drop : ℕ → List A → List A
  drop zero xs = xs
  drop (suc n) [] = []
  drop (suc n) (x ∷ xs) = drop n xs

  -- `subarray(a, b)` and `slice(a, b)` for 0 ≤ a: both ends are clamped, and an end before the
  -- beginning gives the empty list.
  abbrev pub slice : List A → ℕ → ℕ → List A
  slice xs a b = take (b - a) (drop a xs)

  pub length-append : (xs ys : List A) → length (xs ++ ys) ≡ length xs + length ys
  length-append [] ys = omega arith
  length-append (x ∷ xs) ys = omega (arith, length-append xs ys)

  pub length-take : (n : ℕ) (xs : List A) → length (take n xs) ≡ min n (length xs)
  length-take zero xs = omega arith
  length-take (suc n) [] = omega arith
  length-take (suc n) (x ∷ xs) = omega (arith, length-take n xs)

  pub length-drop : (n : ℕ) (xs : List A) → length (drop n xs) ≡ length xs - n
  length-drop zero xs = omega arith
  length-drop (suc n) [] = omega arith
  length-drop (suc n) (x ∷ xs) = omega (arith, length-drop n xs)

  pub take-append-drop : (n : ℕ) (xs : List A) → take n xs ++ drop n xs ≡ xs
  take-append-drop zero xs = refl
  take-append-drop (suc n) [] = refl
  take-append-drop (suc n) (x ∷ xs) = ap (◌∷◌ x) (take-append-drop n xs)

module _ {ℓ} {A : Type ℓ} where
  pub take_all : (n : ℕ) (xs : List A) → length xs ≤ n → take n xs ≡ xs
  take_all zero [] h = refl
  take_all zero (x ∷ xs) h = absurd (omega arith)
  take_all (suc n) [] h = refl
  take_all (suc n) (x ∷ xs) h = ap (◌∷◌ x) (take_all n xs (omega arith))

  pub drop_all : (n : ℕ) (xs : List A) → length xs ≤ n → drop n xs ≡ []
  drop_all zero [] h = refl
  drop_all zero (x ∷ xs) h = absurd (omega arith)
  drop_all (suc n) [] h = refl
  drop_all (suc n) (x ∷ xs) h = drop_all n xs (omega arith)

  pub drop-drop : (a n : ℕ) (xs : List A) → drop n (drop a xs) ≡ drop (a + n) xs
  drop-drop zero n xs = ap (λ k. drop k xs) (omega arith)
  drop-drop (suc a) zero [] = sym (drop_all (suc a + zero) [] (omega arith))
  drop-drop (suc a) (suc n) [] = sym (drop_all (suc a + suc n) [] (omega arith))
  drop-drop (suc a) n (x ∷ xs) =
      let e : suc a + n ≡ suc (a + n) = omega arith in rw e (drop-drop a n xs)

  -- What stands at `i` is the head of what is left from `i`.
  pub drop-get_elem? :
      (xs : List A) (i : ℕ) {b : A} → get_elem? xs i ≡ some b → drop i xs ≡ b ∷ drop (suc i) xs
  drop-get_elem? [] i h = cc
  drop-get_elem? (x ∷ xs) zero h = cc
  drop-get_elem? (x ∷ xs) (suc i) h = drop-get_elem? xs i h

  pub get_elem?-none : (xs : List A) (i : ℕ) → get_elem? xs i ≡ none → length xs ≤ i
  get_elem?-none [] i h = omega arith
  get_elem?-none (x ∷ xs) zero h = cc
  get_elem?-none (x ∷ xs) (suc i) h = omega (arith, get_elem?-none xs i h)

  pub get_elem?-some : (xs : List A) (i : ℕ) {b : A} → get_elem? xs i ≡ some b → suc i ≤ length xs
  get_elem?-some [] i h = cc
  get_elem?-some (x ∷ xs) zero h = omega arith
  get_elem?-some (x ∷ xs) (suc i) h = omega (arith, get_elem?-some xs i h)

  take-suc :
      (xs : List A) (i : ℕ) {b : A}
      → get_elem? xs i ≡ some b
      → take (suc i) xs ≡ take i xs ++ b ∷ []
  take-suc [] i h = cc
  take-suc (x ∷ xs) zero h = cc
  take-suc (x ∷ xs) (suc i) h = ap (◌∷◌ x) (take-suc xs i h)

  get_elem?-drop : (a n : ℕ) (xs : List A) → get_elem? (drop a xs) n ≡ get_elem? xs (a + n)
  get_elem?-drop zero n xs = ap (get_elem? xs) (omega arith)
  get_elem?-drop (suc a) n [] = refl
  get_elem?-drop (suc a) n (x ∷ xs) =
      let e : suc a + n ≡ suc (a + n) = omega arith in rw e (get_elem?-drop a n xs)

  -- A slice that ends one later has one element more.
  pub slice-suc :
      (xs : List A) (a i : ℕ) {b : A}
      → get_elem? xs i ≡ some b
      → a ≤ i
      → slice xs a (suc i) ≡ slice xs a i ++ b ∷ []
  slice-suc xs a i h le =
      let e : suc i - a ≡ suc (i - a) = omega arith in
      let e' : a + (i - a) ≡ i = omega arith in
      rw e (take-suc (drop a xs) (i - a) (get_elem?-drop a (i - a) xs ∙ ap (get_elem? xs) e' ∙ h))

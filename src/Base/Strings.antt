-- ===== src/Base/Strings.antt =====
-- Texts as lists of character codes, and the classes of characters that the patterns of the source use.
use Prim.Native.Char.{code}
use Prim.Native.Nat.{ℕ, ◌+◌, ◌-◌, ◌*◌}
use Prim.Native.String.{String}
use mathlib.Core.Path.{◌≡◌, refl}
use native.Mathlib.Omega.{arith}
use mathlib.Core.Bool.{Bool, true, false, ◌&&◌, ◌||◌}
use mathlib.Core.List.{List, [], ◌∷◌}
use nats_js.Base.Tests.{leb, ◌==◌}

-- A JavaScript string, as the list of its UTF-16 code units.
abbrev pub Text : Type 0
Text = List ℕ

-- The code points of a literal that is ASCII.
abbrev pub codes : String → Text
codes String.[] = []
codes (String.◌∷◌ c s) = code c ∷ codes s

-- `\d`
abbrev pub is_digit : ℕ → Bool
is_digit c = leb b'0' c && leb c b'9'

-- `\w`
abbrev pub is_word_char : ℕ → Bool
is_word_char c = is_digit c || (leb b'a' c && leb c b'z') || (leb b'A' c && leb c b'Z') || c == b'_'

-- The value of a run of decimal digits, read on from `n`.
abbrev pub decimal_from : ℕ → Text → ℕ
decimal_from n [] = n
decimal_from n (c ∷ cs) = decimal_from (n * 10 + (c - 48)) cs

abbrev pub All : (ℕ → Bool) → Text → Type 0
All p [] = Unit
All p (c ∷ cs) = (p c ≡ true) × All p cs

-- `===` on strings.
abbrev pub eq_text : Text → Text → Bool
eq_text [] [] = true
eq_text (x ∷ xs) (y ∷ ys) = x == y && eq_text xs ys
eq_text _ _ = false

pub eq_text_refl : (t : Text) → eq_text t t ≡ true
eq_text_refl [] = refl
eq_text_refl (c ∷ t) = ground (arith, eq_text_refl t)

pub eq_text_sym : (s t : Text) → eq_text s t ≡ eq_text t s
eq_text_sym [] [] = refl
eq_text_sym [] (d ∷ t) = refl
eq_text_sym (c ∷ s) [] = refl
eq_text_sym (c ∷ s) (d ∷ t) = ground (arith, eq_text_sym s t)

-- Texts that compare equal are equal.
pub eq_text-≡ : (s t : Text) → eq_text s t ≡ true → s ≡ t
eq_text-≡ [] [] h = refl
eq_text-≡ [] (d ∷ t) h = ground arith
eq_text-≡ (c ∷ s) [] h = ground arith
eq_text-≡ (c ∷ s) (d ∷ t) h = ground (arith, eq_text-≡ s t)

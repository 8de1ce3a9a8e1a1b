-- ===== src/Keys.antt =====
-- The keys of kv/src/kv.ts: what is a valid key or bucket, wildcards, and the codec of tokens. `none` is an error
-- that is thrown.
use nats_js.Base.{
  ℕ, Bool, true, false, not, ◌&&◌, ◌||◌, Option, none, some, List, [], ◌∷◌, ◌++◌, ◌==◌,
  if◌then◌else◌, Text, is_word_char, eq_text,
}
pub mod Wildcards
pub mod Codec

abbrev pub dot : ℕ
dot = b'.'

abbrev pub star : ℕ
star = b'*'

abbrev pub angle : ℕ
angle = b'>'

abbrev pub all_in : (ℕ → Bool) → Text → Bool
all_in p [] = true
all_in p (c ∷ cs) = p c && all_in p cs

-- /^[..]+$/ for a class of characters.
abbrev pub matches : (ℕ → Bool) → Text → Bool
matches p [] = false
matches p (c ∷ cs) = all_in p (c ∷ cs)

-- [-/=.\w]
abbrev pub is_key_char : ℕ → Bool
is_key_char c = c == b'-' || c == b'/' || c == b'=' || c == dot || is_word_char c

-- [-/=.>*\w]
abbrev pub is_search_char : ℕ → Bool
is_search_char c =
    c == b'-' || c == b'/' || c == b'=' || c == dot || c == angle || c == star || is_word_char c

-- [-\w]
abbrev pub is_bucket_char : ℕ → Bool
is_bucket_char c = c == b'-' || is_word_char c

abbrev pub starts_with_dot : Text → Bool
starts_with_dot [] = false
starts_with_dot (c ∷ cs) = c == dot

abbrev pub ends_with_dot : Text → Bool
ends_with_dot [] = false
ends_with_dot (c ∷ []) = c == dot
ends_with_dot (c ∷ d ∷ cs) = ends_with_dot (d ∷ cs)

abbrev pub includes_dots : Text → Bool
includes_dots [] = false
includes_dots (c ∷ cs) = (c == dot && starts_with_dot cs) || includes_dots cs

-- Whether the key is let through.
unfoldable pub validate_key : Text → Bool
validate_key k = not (starts_with_dot k || ends_with_dot k || not (matches is_key_char k))

unfoldable pub validate_search_key : Text → Bool
validate_search_key k =
    not (starts_with_dot k || ends_with_dot k || includes_dots k || not (matches is_search_char k))

unfoldable pub validate_bucket : Text → Bool
validate_bucket k = matches is_bucket_char k

-- `split(".")`: the current token is read up to the next dot.
unfoldable pub split_from : Text → Text → List Text
split_from t [] = t ∷ []
split_from t (c ∷ cs) =
    let next = split_from [] cs in
    let more = split_from (t ++ c ∷ []) cs in if c == dot then t ∷ next else more

unfoldable pub split : Text → List Text
unfolding split_from
split = split_from []

-- `join(".")`
unfoldable pub join : List Text → Text
join [] = []
join (t ∷ []) = t
join (t ∷ u ∷ us) = t ++ dot ∷ join (u ∷ us)

abbrev pub is_star : Text → Bool
is_star t = eq_text t (star ∷ [])

abbrev pub is_gt : Text → Bool
is_gt t = eq_text t (angle ∷ [])

abbrev pub is_last : List Text → Bool
is_last [] = true
is_last (t ∷ ts) = false

-- The loop over the tokens, with what was found before.
unfoldable pub wildcards : Bool → List Text → Option Bool
wildcards b [] = some b
wildcards b (t ∷ ts) =
    if is_star t
    then wildcards true ts
    else if is_gt t
    then (if is_last ts then wildcards true ts else none)
    else wildcards b ts

unfoldable pub has_wildcards : Text → Option Bool
unfolding split wildcards
has_wildcards k = if starts_with_dot k || ends_with_dot k then none else wildcards false (split k)

infixl 5 ◌>>=◌
abbrev pub ◌>>=◌ {ℓ ℓ'} : {A : Type ℓ} {B : Type ℓ'} → Option A → (A → Option B) → Option B
none >>= f = none
some a >>= f = f a

-- A step of the loop of `Base64KeyCodec`: a wildcard stays, any other token goes through the codec.
unfoldable pub code_token : (Text → Option Text) → Text → Option Text
code_token codec t = if is_gt t || is_star t then some t else codec t

unfoldable pub code_tokens : (Text → Option Text) → List Text → Option (List Text)
unfolding code_token
code_tokens codec [] = some []
code_tokens codec (t ∷ ts) = do u ← code_token codec t; us ← code_tokens codec ts; some (u ∷ us)

unfoldable pub code_key : (Text → Option Text) → Text → Option Text
unfolding split join code_tokens
code_key codec k = do ts ← code_tokens codec (split k); some (join ts)

-- `encode` and `decode`, given the platform's `btoa` and `atob`, which may throw.
unfoldable pub encode : (Text → Option Text) → Text → Option Text
unfolding code_key
encode btoa k = code_key btoa k

unfoldable pub decode : (Text → Option Text) → Text → Option Text
unfolding code_key
decode atob k = code_key atob k

-- ===== src/Headers/Names.antt =====
-- Names and values of headers in core/src/headers.ts: what may stand in them, and their usual form.
use nats_js.Base.{
  ℕ, ◌+◌, ◌-◌, Bool, true, false, not, ◌&&◌, ◌||◌, [], ◌∷◌, ltb, leb, ◌==◌, if◌then◌else◌, Text,
  Result, ok, failed,
}
use nats_js.Base.Errors.{◌>>=◌}

abbrev pub cr : ℕ
cr = 13

abbrev pub lf : ℕ
lf = 10

abbrev pub space : ℕ
space = 32

abbrev pub colon : ℕ
colon = 58

abbrev pub dash : ℕ
dash = 45

-- The argument that an `InvalidArgumentError` names.
pub data HeaderError : Type 0 where
  bad_header_name : HeaderError
  bad_header_value : HeaderError
  code_required : HeaderError
  description_required : HeaderError

pub data Match : Type 0 where
  exact : Match
  canonical_mime : Match
  ignore_case : Match

abbrev pub is_name_char : ℕ → Bool
is_name_char c = not (c == colon || ltb c 33 || ltb 126 c)

abbrev pub canonical_char : Bool → ℕ → ℕ
canonical_char upper c =
    if upper && leb b'a' c && leb c b'z'
    then c - 32
    else if not upper && leb b'A' c && leb c b'Z'
    then c + 32
    else c

-- The loop of `canonicalMIMEHeaderKey`.
unfoldable pub canonical_from : Bool → Text → Result HeaderError Text
canonical_from upper [] = ok []
canonical_from upper (c ∷ cs) = elim (is_name_char c) [
  | true ↦ do
    rest ← canonical_from (canonical_char upper c == dash) cs
    ok (canonical_char upper c ∷ rest)
  | false ↦ failed bad_header_name
]

unfoldable pub canonical_mime_header_key : Text → Result HeaderError Text
unfolding canonical_from
canonical_mime_header_key = canonical_from true

-- The white space and line ends that `trim` takes away.
abbrev pub is_space : ℕ → Bool
is_space c =
    (leb 9 c && leb c 13)
    || c == 32
    || c == 0xa0
    || c == 0x1680
    || (leb 0x2000 c && leb c 0x200a)
    || c == 0x2028
    || c == 0x2029
    || c == 0x202f
    || c == 0x205f
    || c == 0x3000
    || c == 0xfeff

unfoldable pub trim_start : Text → Text
trim_start [] = []
trim_start (c ∷ cs) = let rest = trim_start cs in if is_space c then rest else c ∷ cs

abbrev pub put_front : ℕ → Text → Text
put_front c [] = if is_space c then [] else c ∷ []
put_front c (d ∷ ds) = c ∷ d ∷ ds

unfoldable pub trim_end : Text → Text
trim_end [] = []
trim_end (c ∷ cs) = put_front c (trim_end cs)

unfoldable pub trim : Text → Text
unfolding trim_start trim_end
trim t = trim_end (trim_start t)

-- Neither \r nor \n.
abbrev pub is_value_char : ℕ → Bool
is_value_char c = not (c == cr || c == lf)

unfoldable pub all_chars : (ℕ → Bool) → Text → Bool
all_chars p [] = true
all_chars p (c ∷ cs) = let rest = all_chars p cs in p c && rest

unfoldable pub valid_header_value : Text → Result HeaderError Text
unfolding all_chars trim
valid_header_value v = if all_chars is_value_char v then ok (trim v) else failed bad_header_value

-- `toLowerCase` as far as the result can equal the lower case of a key, which is ASCII: the letters
-- A to Z, and the sign for Kelvin.
abbrev pub lower_char : ℕ → ℕ
lower_char c = if leb b'A' c && leb c b'Z' then c + 32 else if c == 0x212a then b'k' else c

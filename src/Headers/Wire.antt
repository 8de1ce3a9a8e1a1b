-- ===== src/Headers/Wire.antt =====
-- `toString` and `decode` of `MsgHdrsImpl` in core/src/headers.ts, on texts.
use nats_js.Base.{
  ℕ, ◌-◌, Bool, true, false, not, ◌&&◌, Option, none, some, List, [], ◌∷◌, ◌++◌, ◌==◌,
  if◌then◌else◌, Text, codes, eq_text, is_digit, decimal_from, print_ℤ, ℤ, pos, negsuc, ltb_ℤ,
  Result, ok, length, drop,
}
use nats_js.Base.Errors.{◌>>=◌}
use nats_js.Headers.Names.{HeaderError, exact, cr, lf, space, colon, trim_start, trim}
use nats_js.Headers.Table.{MsgHdrs, Entry, new_msg_hdrs, is_empty, is_zero, append}

-- HEADER
abbrev pub version : Text
version = codes "NATS/1.0"

-- The lines of a key, each behind a line end.
unfoldable pub value_lines : Text → List Text → Text
value_lines k [] = []
value_lines k (v ∷ vs) = cr ∷ lf ∷ k ++ colon ∷ space ∷ v ++ value_lines k vs

unfoldable pub entry_lines : List Entry → Text
unfolding value_lines
entry_lines [] = []
entry_lines (e ∷ es) = value_lines e.key e.vals ++ entry_lines es

unfoldable pub status_line : MsgHdrs → Text
unfolding print_ℤ
status_line h =
    if ltb_ℤ (pos 0) h.code && not (is_empty h.description)
    then version ++ space ∷ print_ℤ h.code ++ space ∷ h.description
    else version

unfoldable pub to_text : MsgHdrs → Text
unfolding status_line entry_lines
to_text h =
    if is_empty h.entries && is_zero h.code
    then []
    else status_line h ++ entry_lines h.entries ++ cr ∷ lf ∷ cr ∷ lf ∷ []

-- `split("\r\n")`: the current line is read up to the next line end.
unfoldable pub split_from : Text → Text → List Text
split_from l [] = l ∷ []
split_from l (c ∷ []) = (l ++ c ∷ []) ∷ []
split_from l (c ∷ d ∷ cs) = elim (c == cr && d == lf) [
  | true ↦ l ∷ split_from [] cs
  | false ↦ split_from (l ++ c ∷ []) (d ∷ cs)
]

unfoldable pub is_prefix : Text → Text → Bool
is_prefix [] t = true
is_prefix (p ∷ ps) [] = false
is_prefix (p ∷ ps) (c ∷ cs) = let rest = is_prefix ps cs in p == c && rest

-- `replace(p, "")`: the first place is taken out.
unfoldable pub remove_first : Text → Text → Text
unfolding is_prefix
remove_first p [] = []
remove_first p (c ∷ cs) =
    let rest = remove_first p cs in
    if is_prefix p (c ∷ cs) then drop (length p) (c ∷ cs) else c ∷ rest

unfoldable pub digit_run : Text → Text
digit_run [] = []
digit_run (c ∷ cs) = let rest = digit_run cs in if is_digit c then c ∷ rest else []

abbrev pub whole : Text → Option ℕ
whole [] = none
whole (c ∷ cs) = some (decimal_from 0 (c ∷ cs))

abbrev pub positive : Option ℕ → Option ℤ
positive none = none
positive (some n) = some (pos n)

abbrev pub minus : ℕ → ℤ
minus n = if n == 0 then pos 0 else negsuc (n - 1)

abbrev pub negative : Option ℕ → Option ℤ
negative none = none
negative (some n) = some (minus n)

unfoldable pub signed : Text → Option ℤ
unfolding digit_run
signed [] = none
signed (c ∷ cs) =
    if c == b'-'
    then negative (whole (digit_run cs))
    else if c == b'+'
    then positive (whole (digit_run cs))
    else positive (whole (digit_run (c ∷ cs)))

-- `parseInt(s, 10)`, with `none` for NaN; exact, as the source is below 2 ^ 53.
unfoldable pub parse_int : Text → Option ℤ
unfolding trim_start signed
parse_int s = signed (trim_start s)

abbrev pub or_zero : Option ℤ → ℤ
or_zero none = pos 0
or_zero (some z) = z

-- What stands behind the version is a code and its description.
unfoldable pub read_code : Text → MsgHdrs
unfolding parse_int remove_first trim print_ℤ
read_code [] = new_msg_hdrs (pos 0) []
read_code (c ∷ cs) =
    let code = or_zero (parse_int (c ∷ cs)) in
    new_msg_hdrs code (trim (remove_first (print_ℤ code) (c ∷ cs)))

unfoldable pub read_status : Text → MsgHdrs
unfolding read_code remove_first trim
read_status h =
    if eq_text h version then new_msg_hdrs (pos 0) [] else read_code (trim (remove_first version h))

-- What stands before the first colon, and behind it.
unfoldable pub cut_colon : Text → Option (Text × Text)
cut_colon [] = none
cut_colon (c ∷ cs) =
    let rest = cut_colon cs in
    if c == colon then some ([], cs) else elim rest [ none ↦ none | some (k, v) ↦ some (c ∷ k, v) ]

abbrev pub append_pair : Option (Text × Text) → MsgHdrs → Result HeaderError MsgHdrs
append_pair none h = ok h
append_pair (some (k, v)) h = append k (trim v) exact h

unfoldable pub read_line : Text → MsgHdrs → Result HeaderError MsgHdrs
unfolding cut_colon append trim
read_line l h = append_pair (cut_colon l) h

unfoldable pub read_lines : List Text → MsgHdrs → Result HeaderError MsgHdrs
unfolding read_line
read_lines [] h = ok h
read_lines (l ∷ ls) h = do h' ← read_line l h; read_lines ls h'

abbrev pub of_lines : List Text → Result HeaderError MsgHdrs
of_lines [] = ok (new_msg_hdrs (pos 0) [])
of_lines (h ∷ ls) = read_lines ls (read_status h)

unfoldable pub of_text : Text → Result HeaderError MsgHdrs
unfolding split_from read_status read_lines
of_text s = of_lines (split_from [] s)

-- `status`
unfoldable pub status : MsgHdrs → Text
unfolding trim print_ℤ
status h = trim (print_ℤ h.code ++ space ∷ h.description)

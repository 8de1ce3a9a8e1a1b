-- ===== src/Headers/Status.antt =====
-- The status line of headers in core/src/headers.ts, printed and read back.
use nats_js.Base.{
  ℕ, ltb, ◌+◌, suc, pos, ◌≡◌, refl, sym, ap, ◌∙◌, arith, true, false, List, [], ◌∷◌, ◌++◌, Text,
  inl, inr, ◌⊎◌, ◌==◌, append_assoc, codes, some, is_digit, All, print_ℕ, print_ℤ, print_ℕ-cons,
  print_ℕ-All, decimal_from, decimal_from-print_ℕ,
}
use mathlib.Core.Path.{subst}
use nats_js.Headers.Names.{space, all_chars, is_value_char, is_space, trim_start, trim}
use nats_js.Headers.Trimming.{trim-trim_end, trim-space}
use nats_js.Headers.Table.{MsgHdrs, Entry, new_msg_hdrs, is_empty, is_zero}
use nats_js.Headers.Wire.{
  version, status_line, read_status, read_code, remove_first, parse_int, signed, whole, positive,
  or_zero,
}
use nats_js.Headers.Lines.{
  all_chars-append, digits-value_chars, remove_first-append, digit_run-append, trim-parts,
}
use nats_js.Headers.Valid.{IsValue}

signed-digits :
    (c : ℕ) (t rest : Text)
    → All is_digit (c ∷ t)
    → signed (c ∷ t ++ space ∷ rest) ≡ some (pos (decimal_from 0 (c ∷ t)))
unfolding signed
signed-digits c t rest h =
    let m : (c == b'-') ≡ false = ground (arith, h.0) in
    let p : (c == b'+') ≡ false = ground (arith, h.0) in
    rw (m, p, signed) (ap (λ x. positive (whole x)) (digit_run-append (c ∷ t) rest h))

parse_int-digits :
    (c : ℕ) (t rest : Text)
    → All is_digit (c ∷ t)
    → parse_int (c ∷ t ++ space ∷ rest) ≡ some (pos (decimal_from 0 (c ∷ t)))
unfolding parse_int trim_start
parse_int-digits c t rest h =
    let e : is_space c ≡ false = ground (arith, h.0) in
    rw (e, trim_start) (signed-digits c t rest h)

parse_int-print : (n : ℕ) (rest : Text) → parse_int (print_ℕ n ++ space ∷ rest) ≡ some (pos n)
parse_int-print n rest =
    let p = print_ℕ-cons n in
    subst (λ x. parse_int (x ++ space ∷ rest) ≡ some (pos n)) (sym p.2)
      (parse_int-digits p.0 p.1 rest (subst (All is_digit) p.2 (print_ℕ-All n))
        ∙ ap (λ x. some (pos (decimal_from 0 x))) (sym p.2)
        ∙ ap (λ x. some (pos x)) (decimal_from-print_ℕ n))

read_code-cons :
    (t : Text) (n : ℕ)
    → is_empty t ≡ false
    → parse_int t ≡ some (pos n)
    → read_code t ≡ new_msg_hdrs (pos n) (trim (remove_first (print_ℕ n) t))
unfolding read_code print_ℤ
read_code-cons [] n h e = ground arith
read_code-cons (c ∷ t) n h e =
    ap (λ o. new_msg_hdrs (or_zero o) (trim (remove_first (print_ℤ (or_zero o)) (c ∷ t)))) e

remove_first-print : (n : ℕ) (t : Text) → remove_first (print_ℕ n) (print_ℕ n ++ t) ≡ t
remove_first-print n t =
    let p = print_ℕ-cons n in
    subst (λ x. remove_first x (x ++ t) ≡ t) (sym p.2) (remove_first-append p.0 p.1 t)

print-is_empty : (n : ℕ) (t : Text) → is_empty (print_ℕ n ++ t) ≡ false
print-is_empty n t = let p = print_ℕ-cons n in subst (λ x. is_empty (x ++ t) ≡ false) (sym p.2) refl

read_code-print :
    (n : ℕ) (d : Text) → trim d ≡ d → read_code (print_ℕ n ++ space ∷ d) ≡ new_msg_hdrs (pos n) d
read_code-print n d h =
    read_code-cons (print_ℕ n ++ space ∷ d) n (print-is_empty n (space ∷ d)) (parse_int-print n d)
    ∙ ap (λ x. new_msg_hdrs (pos n) (trim x)) (remove_first-print n (space ∷ d))
    ∙ ap (new_msg_hdrs (pos n)) (trim-space d ∙ h)

trim-status :
    (n c : ℕ) (d : Text)
    → trim (c ∷ d) ≡ c ∷ d
    → trim (space ∷ print_ℕ n ++ space ∷ c ∷ d) ≡ print_ℕ n ++ space ∷ c ∷ d
trim-status n c d h =
    let p = print_ℕ-cons n in
    let q = subst (All is_digit) p.2 (print_ℕ-All n) in
    let e : is_space p.0 ≡ false = ground (arith, q.0) in
    subst (λ x. trim (space ∷ x ++ space ∷ c ∷ d) ≡ x ++ space ∷ c ∷ d) (sym p.2)
      (subst (λ x. trim (space ∷ p.0 ∷ x) ≡ p.0 ∷ x) (append_assoc p.1 (space ∷ []) (c ∷ d))
        (trim-parts p.0 (p.1 ++ space ∷ []) c d e (trim-trim_end (c ∷ d) h)))

read_status-version : (t : Text) → read_status (version ++ space ∷ t) ≡ read_code (trim (space ∷ t))
unfolding read_status remove_first
read_status-version t =
    ap (λ x. read_code (trim x)) (remove_first-append b'N' (codes "ATS/1.0") (space ∷ t))

-- A status that can be printed: none, or a positive code and a description that is on one line and trimmed.
abbrev pub FitsStatus : MsgHdrs → Type 0
FitsStatus h =
    ((h.code ≡ pos 0) × (h.description ≡ []))
    ⊎ ((n c : ℕ) × (d : Text) × (h.code ≡ pos (suc n)) × (h.description ≡ c ∷ d) × IsValue (c ∷ d))

status_line-print :
    (n c : ℕ) (d : Text) (es : List Entry)
    → status_line (record { code = pos (suc n); description = c ∷ d; entries = es })
      ≡ version ++ space ∷ print_ℕ (suc n) ++ space ∷ c ∷ d
unfolding status_line print_ℤ
status_line-print n c d es =
    let e : ltb 0 (suc n + 0) ≡ true = ground arith in rw (e, status_line) refl

read_status-print :
    (n c : ℕ) (d : Text)
    → IsValue (c ∷ d)
    → read_status (version ++ space ∷ print_ℕ n ++ space ∷ c ∷ d) ≡ new_msg_hdrs (pos n) (c ∷ d)
read_status-print n c d g =
    read_status-version (print_ℕ n ++ space ∷ c ∷ d)
    ∙ ap read_code (trim-status n c d g.1)
    ∙ read_code-print n (c ∷ d) g.1

-- What holds of both kinds of status holds of a status that fits.
FitsStatus-elim :
    (P : MsgHdrs → Type 0) (h : MsgHdrs)
    → P (record { code = pos 0; description = []; entries = h.entries })
    → ((n c : ℕ) (d : Text)
        → IsValue (c ∷ d)
        → P (record { code = pos (suc n); description = c ∷ d; entries = h.entries }))
    → FitsStatus h
    → P h
FitsStatus-elim P h base step (inl (c, d)) =
    subst (λ z. P (record (h) { code = z })) (sym c)
      (subst (λ t. P (record (h) { code = pos 0; description = t })) (sym d) base)
FitsStatus-elim P h base step (inr (n, c, d, e, f, g)) =
    subst (λ z. P (record (h) { code = z })) (sym e)
      (subst (λ t. P (record (h) { code = pos (suc n); description = t })) (sym f) (step n c d g))

-- A status is read back from its line.
pub read_status-status_line :
    (h : MsgHdrs) → FitsStatus h → read_status (status_line h) ≡ new_msg_hdrs h.code h.description
unfolding read_status status_line
read_status-status_line h =
    FitsStatus-elim (λ x. read_status (status_line x) ≡ new_msg_hdrs x.code x.description) h refl
      (λ n c d g.
        ap read_status (status_line-print n c d h.entries) ∙ read_status-print (suc n) c d g)

-- The line has no line end in it.
pub status_line-chars :
    (h : MsgHdrs) → FitsStatus h → all_chars is_value_char (status_line h) ≡ true
unfolding status_line all_chars
status_line-chars h =
    FitsStatus-elim (λ x. all_chars is_value_char (status_line x) ≡ true) h refl
      (λ n c d g.
        subst (λ x. all_chars is_value_char x ≡ true) (sym (status_line-print n c d h.entries))
          (all_chars-append is_value_char (print_ℕ (suc n)) (space ∷ c ∷ d)
            (digits-value_chars (print_ℕ (suc n)) (print_ℕ-All (suc n))) g.0))

-- Headers that are empty are printed as nothing, and their status is the empty one.
pub FitsStatus-is_zero :
    (h : MsgHdrs)
    → FitsStatus h
    → is_zero h.code ≡ true
    → new_msg_hdrs (pos 0) [] ≡ new_msg_hdrs h.code h.description
FitsStatus-is_zero h =
    FitsStatus-elim
      (λ x. is_zero x.code ≡ true → new_msg_hdrs (pos 0) [] ≡ new_msg_hdrs x.code x.description) h
      (λ e. refl) (λ n c d g e. ground arith)

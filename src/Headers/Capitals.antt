-- ===== src/Headers/Capitals.antt =====
-- The names that canonicalMIMEHeaderKey of core/src/headers.ts makes.
use nats_js.Base.{
  append-nil, ℕ, ◌+◌, ◌-◌, ◌≤◌, ◌≢◌, leb, ◌&&◌, List, ◌++◌, map, if◌then◌else◌, ◌≡◌, refl, sym, ap,
  ◌∙◌, arith, Bool, true, false, [], ◌∷◌, Text, inl, inr, Bool-cases, ◌==◌, ok, failed,
}
use nats_js.Base.Errors.{◌>>=◌}
use nats_js.Headers.Names.{
  bad_header_name, dash, is_name_char, canonical_char, canonical_from, canonical_mime_header_key,
}
use nats_js.Headers.Canonical.{canonical_from-good, canonical_from-bad}

-- What may stand in a name: the printable characters of ASCII, but for the colon.
abbrev pub NameChar : ℕ → Type 0
NameChar c = (33 ≤ c) × (c ≤ 126) × (c ≢ b':')

-- A part of a name, between dashes.
abbrev pub NamePart : Text → Type 0
NamePart [] = Unit
NamePart (c ∷ cs) = NameChar c × (c ≢ b'-') × NamePart cs

abbrev pub NameParts : List Text → Type 0
NameParts [] = Unit
NameParts (w ∷ ws) = NamePart w × NameParts ws

abbrev pub upper_letter : ℕ → ℕ
upper_letter c = if leb 97 c && leb c 122 then c - 32 else c

abbrev pub lower_letter : ℕ → ℕ
lower_letter c = if leb 65 c && leb c 90 then c + 32 else c

-- A part with a capital first.
abbrev pub capitalised : Text → Text
capitalised [] = []
capitalised (c ∷ cs) = upper_letter c ∷ map lower_letter cs

abbrev pub with_dashes : Text → List Text → Text
with_dashes w [] = w
with_dashes w (v ∷ ws) = w ++ b'-' ∷ with_dashes v ws

NameChar-is_name_char : (c : ℕ) → NameChar c → is_name_char c ≡ true
NameChar-is_name_char c h = let a = h.0 in let b = h.1 in let d = h.2 in ground arith

not_dash : (u : Bool) (c : ℕ) → c ≢ b'-' → NameChar c → (canonical_char u c == dash) ≡ false
not_dash u c n h = let a = h.0 in let b = h.1 in ground arith

-- The loop inside a part, and what is behind it.
part_lem :
    (w rest r : Text)
    → NamePart w
    → canonical_from false rest ≡ ok r
    → canonical_from false (w ++ rest) ≡ ok (map lower_letter w ++ r)
part_lem [] rest r h e = e
part_lem (c ∷ cs) rest r (h, n, hs) e =
    canonical_from-good false c (cs ++ rest) (NameChar-is_name_char c h)
    ∙ ap (λ u. canonical_from u (cs ++ rest) >>= λ x. ok (canonical_char false c ∷ x))
        (not_dash false c n h)
    ∙ ap (λ o. o >>= λ x. ok (canonical_char false c ∷ x)) (part_lem cs rest r hs e)

capitalised_lem :
    (w rest r : Text)
    → NamePart w
    → canonical_from true rest ≡ ok r
    → canonical_from false rest ≡ ok r
    → canonical_from true (w ++ rest) ≡ ok (capitalised w ++ r)
capitalised_lem [] rest r h d e = d
capitalised_lem (c ∷ cs) rest r (h, n, hs) d e =
    canonical_from-good true c (cs ++ rest) (NameChar-is_name_char c h)
    ∙ ap (λ u. canonical_from u (cs ++ rest) >>= λ x. ok (canonical_char true c ∷ x))
        (not_dash true c n h)
    ∙ ap (λ o. o >>= λ x. ok (canonical_char true c ∷ x)) (part_lem cs rest r hs e)

dash_lem :
    (u : Bool) (rest r : Text)
    → canonical_from true rest ≡ ok r
    → canonical_from u (b'-' ∷ rest) ≡ ok (b'-' ∷ r)
dash_lem true rest r e =
    canonical_from-good true b'-' rest refl ∙ ap (λ o. o >>= λ x. ok (b'-' ∷ x)) e
dash_lem false rest r e =
    canonical_from-good false b'-' rest refl ∙ ap (λ o. o >>= λ x. ok (b'-' ∷ x)) e

parts_lem :
    (w : Text) (ws : List Text)
    → NamePart w
    → NameParts ws
    → canonical_from true (with_dashes w ws) ≡ ok (with_dashes (capitalised w) (map capitalised ws))
parts_lem w [] h hs =
    ap (canonical_from true) (sym (append-nil w))
    ∙ capitalised_lem w [] [] h (unfold canonical_from in refl) (unfold canonical_from in refl)
    ∙ ap ok (append-nil (capitalised w))
parts_lem w (v ∷ ws) h hs =
    let more = parts_lem v ws hs.0 hs.1 in
    let r = with_dashes (capitalised v) (map capitalised ws) in
    capitalised_lem w (b'-' ∷ with_dashes v ws) (b'-' ∷ r) h
      (dash_lem true (with_dashes v ws) r more) (dash_lem false (with_dashes v ws) r more)

not-NameChar : (c : ℕ) → ¬ NameChar c → is_name_char c ≡ false
not-NameChar c n = elim (Bool-cases (is_name_char c)) [
  | inl e ↦ absurd (n (ground arith, ground arith, λ d. ground arith))
  | inr e ↦ e
]

bad_lem :
    (u : Bool) (a b : Text) (c : ℕ)
    → is_name_char c ≡ false
    → canonical_from u (a ++ c ∷ b) ≡ failed bad_header_name
bad_lem u [] b c e = canonical_from-bad u c b e
bad_lem u (x ∷ xs) b c e = elim (Bool-cases (is_name_char x)) [
  | inl t ↦
      canonical_from-good u x (xs ++ c ∷ b) t
      ∙ ap (λ o. o >>= λ y. ok (canonical_char u x ∷ y))
          (bad_lem (canonical_char u x == dash) xs b c e)
  | inr t ↦ canonical_from-bad u x (xs ++ c ∷ b) t
]

-- canonicalMIMEHeaderKey makes of a name, whose parts stand between dashes, the name with each part capitalised; it
-- fails on a text with a character that may not stand in a name, which are the colon and those that are not printable
-- ASCII.
pub canonical_lem :
    (w : Text) (ws : List Text) (a b : Text) (c : ℕ)
    → NamePart w
    → NameParts ws
    → ¬ NameChar c
    → (canonical_mime_header_key (with_dashes w ws)
        ≡ ok (with_dashes (capitalised w) (map capitalised ws)))
      × (canonical_mime_header_key (a ++ c ∷ b) ≡ failed bad_header_name)
unfolding canonical_mime_header_key
canonical_lem w ws a b c h hs n = (parts_lem w ws h hs, bad_lem true a b c (not-NameChar c n))

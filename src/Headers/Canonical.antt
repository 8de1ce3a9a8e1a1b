-- ===== src/Headers/Canonical.antt =====
-- The canonical form of a name in core/src/headers.ts.
use mathlib.Core.Path.{subst}
use nats_js.Base.{
  ℕ, ◌≡◌, refl, sym, ap, ◌∙◌, arith, Bool, true, false, [], ◌∷◌, Text, inl, inr, Bool-cases, ◌==◌,
  Result, ok, failed,
}
use nats_js.Base.Errors.{◌>>=◌, bind-ok}
use nats_js.Headers.Names.{
  bad_header_name, dash, is_name_char, canonical_char, canonical_from, canonical_mime_header_key,
  all_chars,
}

pub ok_inj {ℓ κ} : {E : Type ℓ} {A : Type κ} {a b : A} → ◌≡◌ {A = Result E A} (ok a) (ok b) → a ≡ b
ok_inj {a = a} h = ap (λ r. elim r [ ok x ↦ x | failed e ↦ a ]) h

pub canonical_from-good :
    (u : Bool) (c : ℕ) (cs : Text)
    → is_name_char c ≡ true
    → canonical_from u (c ∷ cs)
      ≡ (canonical_from (canonical_char u c == dash) cs >>= λ rest. ok (canonical_char u c ∷ rest))
unfolding canonical_from
canonical_from-good u c cs e = rw (e, canonical_from) refl

pub canonical_from-bad :
    (u : Bool) (c : ℕ) (cs : Text)
    → is_name_char c ≡ false
    → canonical_from u (c ∷ cs) ≡ failed bad_header_name
unfolding canonical_from
canonical_from-bad u c cs e = rw (e, canonical_from) refl

canonical_char_idem :
    (u : Bool) (c : ℕ) → canonical_char u (canonical_char u c) ≡ canonical_char u c
canonical_char_idem u c = ground arith

canonical_char-name :
    (u : Bool) (c : ℕ) → is_name_char c ≡ true → is_name_char (canonical_char u c) ≡ true
canonical_char-name u c h = ground arith

-- The name that a loop makes is kept by a loop that begins alike.
canonical_from_idem :
    (u : Bool) (k c : Text) → canonical_from u k ≡ ok c → canonical_from u c ≡ ok c
unfolding canonical_from
canonical_from_idem u [] c h = subst (λ x. canonical_from u x ≡ ok x) (ok_inj h) refl
canonical_from_idem u (x ∷ xs) c h = elim (Bool-cases (is_name_char x)) [
  | inl e ↦
      let r =
        bind-ok (canonical_from (canonical_char u x == dash) xs) _ c
          (sym (canonical_from-good u x xs e) ∙ h) in
      let ih = canonical_from_idem (canonical_char u x == dash) xs r.0 r.1 in
      subst (λ y. canonical_from u y ≡ ok y) (ok_inj r.2)
        (canonical_from-good u (canonical_char u x) r.0 (canonical_char-name u x e)
          ∙ ap (λ y. canonical_from (y == dash) r.0 >>= λ rest. ok (y ∷ rest))
              (canonical_char_idem u x)
          ∙ ap (λ o. o >>= λ rest. ok (canonical_char u x ∷ rest)) ih)
  | inr e ↦ ground (arith, canonical_from-bad u x xs e)
]

canonical_from-ok :
    (u : Bool) (k : Text)
    → all_chars is_name_char k ≡ true
    → (c : Text) × (canonical_from u k ≡ ok c)
unfolding canonical_from all_chars
canonical_from-ok u [] h = ([], refl)
canonical_from-ok u (x ∷ xs) h =
    let e : is_name_char x ≡ true = ground arith in
    let hs : all_chars is_name_char xs ≡ true = ground arith in
    let r = canonical_from-ok (canonical_char u x == dash) xs hs in
    (
      canonical_char u x ∷ r.0,
      canonical_from-good u x xs e ∙ ap (λ o. o >>= λ rest. ok (canonical_char u x ∷ rest)) r.1,
    )

canonical_from-chars :
    (u : Bool) (k c : Text) → canonical_from u k ≡ ok c → all_chars is_name_char k ≡ true
unfolding canonical_from all_chars
canonical_from-chars u [] c h = refl
canonical_from-chars u (x ∷ xs) c h = elim (Bool-cases (is_name_char x)) [
  | inl e ↦
      let r =
        bind-ok (canonical_from (canonical_char u x == dash) xs) _ c
          (sym (canonical_from-good u x xs e) ∙ h) in
      ground (arith, canonical_from-chars (canonical_char u x == dash) xs r.0 r.1)
  | inr e ↦ ground (arith, canonical_from-bad u x xs e)
]

pub canonical-ok :
    (k : Text) → all_chars is_name_char k ≡ true → (c : Text) × (canonical_mime_header_key k ≡ ok c)
unfolding canonical_mime_header_key
canonical-ok = canonical_from-ok true

pub canonical-chars :
    (k c : Text) → canonical_mime_header_key k ≡ ok c → all_chars is_name_char k ≡ true
unfolding canonical_mime_header_key
canonical-chars = canonical_from-chars true

pub canonical_idem :
    (k c : Text) → canonical_mime_header_key k ≡ ok c → canonical_mime_header_key c ≡ ok c
unfolding canonical_mime_header_key
canonical_idem = canonical_from_idem true

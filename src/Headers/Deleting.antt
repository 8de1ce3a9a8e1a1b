-- ===== src/Headers/Deleting.antt =====
-- Keys and arrays in the table of core/src/headers.ts when keys are looked for and deleted.
use mathlib.Core.Path.{subst}
use nats_js.Base.{
  ◌≡◌, refl, sym, ap, ◌∙◌, arith, Bool, true, false, List, [], ◌∷◌, ◌++◌, Text, inl, inr, map,
  Bool-cases, ◌||◌, eq_text, eq_text_refl, eq_text_sym, eq_text-≡,
}
use nats_js.Headers.Table.{Entry, keep, delete_key, delete_keys, array_of}
use nats_js.Headers.Valid.{Fresh}

abbrev mem : Text → List Text → Bool
mem j [] = false
mem j (k ∷ ks) = eq_text j k || mem j ks

module _ (p : Text → Bool) where
  abbrev pub AllMatch : List Text → Type 0
  AllMatch [] = Unit
  AllMatch (k ∷ ks) = (p k ≡ true) × AllMatch ks

  abbrev pub NoMatch : List Entry → Type 0
  NoMatch [] = Unit
  NoMatch (e ∷ es) = (p e.key ≡ false) × NoMatch es

  pub differ : (j k : Text) → p j ≡ false → p k ≡ true → eq_text j k ≡ false
  differ j k f t = elim (Bool-cases (eq_text j k)) [
    | inl q ↦ absurd (let s : p j ≡ p k = ap p (eq_text-≡ j k q) in ground arith)
    | inr q ↦ q
  ]

  pub keep-AllMatch : (ks : List Text) → AllMatch (keep p ks)
  unfolding keep
  keep-AllMatch [] = tt
  keep-AllMatch (k ∷ ks) = elim (Bool-cases (p k)) [
    | inl q ↦ rw (q, keep) (q, keep-AllMatch ks)
    | inr q ↦ rw (q, keep) (keep-AllMatch ks)
  ]

  pub NoMatch-keep : (es : List Entry) → NoMatch es → keep p (map (λ e. e.key) es) ≡ []
  unfolding keep
  NoMatch-keep [] h = refl
  NoMatch-keep (e ∷ es) h = rw (h.0, keep) (NoMatch-keep es h.1)

  pub keep-snoc :
      (es : List Entry) (e : Entry)
      → NoMatch es
      → p e.key ≡ true
      → keep p (map (λ e. e.key) (es ++ e ∷ [])) ≡ e.key ∷ []
  unfolding keep
  keep-snoc [] e h q = rw (q, keep) refl
  keep-snoc (x ∷ es) e h q = rw (h.0, keep) (keep-snoc es e h.1 q)

  pub NoMatch-Fresh : (k : Text) (es : List Entry) → p k ≡ true → NoMatch es → Fresh k es
  NoMatch-Fresh k [] q h = tt
  NoMatch-Fresh k (e ∷ es) q h =
      (eq_text_sym k e.key ∙ differ e.key k h.0 q, NoMatch-Fresh k es q h.1)

  array_of-delete_key :
      (j k : Text) (es : List Entry)
      → eq_text j k ≡ false
      → array_of j (delete_key k es) ≡ array_of j es
  unfolding array_of delete_key
  array_of-delete_key j k [] n = refl
  array_of-delete_key j k (e ∷ es) n = elim (Bool-cases (eq_text k e.key)) [
    | inl q ↦
        let d : eq_text j e.key ≡ false = ap (eq_text j) (sym (eq_text-≡ k e.key q)) ∙ n in
        rw (q, delete_key) (array_of-delete_key j k es n ∙ sym (rw (d, array_of) refl))
    | inr q ↦ rw (q, delete_key) (ground (arith, array_of-delete_key j k es n))
  ]

  pub array_of-delete_keys :
      (j : Text) (ks : List Text) (es : List Entry)
      → p j ≡ false
      → AllMatch ks
      → array_of j (delete_keys ks es) ≡ array_of j es
  unfolding delete_keys
  array_of-delete_keys j [] es q h = refl
  array_of-delete_keys j (k ∷ ks) es q h =
      array_of-delete_keys j ks (delete_key k es) q h.1
      ∙ array_of-delete_key j k es (differ j k q h.0)

  pub array_of-snoc :
      (j : Text) (es : List Entry) (e : Entry)
      → eq_text j e.key ≡ false
      → array_of j (es ++ e ∷ []) ≡ array_of j es
  unfolding array_of
  array_of-snoc j [] e n = rw (n, array_of) refl
  array_of-snoc j (x ∷ es) e n = ground (arith, array_of-snoc j es e n)

  pub array_of-Fresh :
      (k : Text) (es : List Entry) (vs : List Text)
      → Fresh k es
      → array_of k (es ++ record { key = k; vals = vs } ∷ []) ≡ vs
  unfolding array_of
  array_of-Fresh k [] vs h = rw (eq_text_refl k, array_of) refl
  array_of-Fresh k (x ∷ es) vs h = rw (h.0, array_of) (array_of-Fresh k es vs h.1)

  -- Each key that matches is among the keys `ks`.
  abbrev Covered : List Text → List Entry → Type 0
  Covered ks [] = Unit
  Covered ks (e ∷ es) = (p e.key ≡ true → mem e.key ks ≡ true) × Covered ks es

  Covered-nil : (es : List Entry) → Covered [] es → NoMatch es
  Covered-nil [] h = tt
  Covered-nil (e ∷ es) h = (
    elim (Bool-cases (p e.key)) [
      | inl q ↦ absurd (let m : false ≡ true = h.0 q in ground arith)
      | inr q ↦ q
    ],
    Covered-nil es h.1,
  )

  Covered-delete_key :
      (k : Text) (ks : List Text) (es : List Entry)
      → Covered (k ∷ ks) es
      → Covered ks (delete_key k es)
  unfolding delete_key
  Covered-delete_key k ks [] h = tt
  Covered-delete_key k ks (e ∷ es) h = elim (Bool-cases (eq_text k e.key)) [
    | inl q ↦ rw (q, delete_key) (Covered-delete_key k ks es h.1)
    | inr q ↦
        rw (q, delete_key)
          (
            λ t.
                (let n : eq_text e.key k ≡ false = eq_text_sym e.key k ∙ q in
                  let m = h.0 t in ground arith),
            Covered-delete_key k ks es h.1,
          )
  ]

  Covered-delete_keys :
      (ks : List Text) (es : List Entry) → Covered ks es → NoMatch (delete_keys ks es)
  unfolding delete_keys
  Covered-delete_keys [] es h = Covered-nil es h
  Covered-delete_keys (k ∷ ks) es h =
      Covered-delete_keys ks (delete_key k es) (Covered-delete_key k ks es h)

  Covered-cons : (k : Text) (ks : List Text) (es : List Entry) → Covered ks es → Covered (k ∷ ks) es
  Covered-cons k ks [] h = tt
  Covered-cons k ks (e ∷ es) h = (λ t. (let m = h.0 t in ground arith), Covered-cons k ks es h.1)

  keep-yes : (k : Text) (ks : List Text) → p k ≡ true → keep p (k ∷ ks) ≡ k ∷ keep p ks
  unfolding keep
  keep-yes k ks q = rw (q, keep) refl

  keep-no : (k : Text) (ks : List Text) → p k ≡ false → keep p (k ∷ ks) ≡ keep p ks
  unfolding keep
  keep-no k ks q = rw (q, keep) refl

  Covered-keep : (es : List Entry) → Covered (keep p (map (λ e. e.key) es)) es
  Covered-keep [] = tt
  Covered-keep (e ∷ es) =
      let ks = map (λ x. x.key) es in
      elim (Bool-cases (p e.key)) [
        | inl q ↦
            subst (λ x. Covered x (e ∷ es)) (sym (keep-yes e.key ks q))
              (
                λ t. ground (arith, eq_text_refl e.key),
                Covered-cons e.key (keep p ks) es (Covered-keep es),
              )
        | inr q ↦
            subst (λ x. Covered x (e ∷ es)) (sym (keep-no e.key ks q))
              (λ t. absurd (ground arith), Covered-keep es)
      ]

  -- No key is left that matches, and no other is touched.
  pub delete_keys-keep : (es : List Entry) → NoMatch (delete_keys (keep p (map (λ e. e.key) es)) es)
  delete_keys-keep es = Covered-delete_keys (keep p (map (λ e. e.key) es)) es (Covered-keep es)

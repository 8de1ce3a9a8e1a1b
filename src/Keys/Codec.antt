-- ===== src/Keys/Codec.antt =====
-- `Base64KeyCodec` of kv/src/kv.ts, from a key to its code and back.
use mathlib.Core.Option.{some_inj}
use mathlib.Core.Path.{subst}
use nats_js.Base.{
  ℕ, ◌≡◌, refl, sym, ap, ◌∙◌, arith, Bool, true, false, not, ◌||◌, Option, none, some, List, [],
  ◌∷◌, ◌++◌, ◌==◌, if◌then◌else◌, Text, inl, inr, append-nil, append_assoc, Bool-cases, ==_iff,
}
use nats_js.Keys.{
  dot, all_in, split_from, split, join, is_star, is_gt, code_token, code_tokens, code_key, encode,
  decode, ◌>>=◌,
}

abbrev pub is_plain_char : ℕ → Bool
is_plain_char c = not (c == dot)

-- What `btoa` and `atob` are documented to do: `atob` takes back what `btoa` gives, which is in an
-- alphabet that has neither the dot nor a wildcard.
pub record IsBase64 (btoa atob : Text → Option Text) : Type 0 where
  pub takes_back : (t u : Text) → btoa t ≡ some u → atob u ≡ some t
  pub plain : (t u : Text) → btoa t ≡ some u → all_in is_plain_char u ≡ true
  pub not_star : (t u : Text) → btoa t ≡ some u → is_star u ≡ false
  pub not_gt : (t u : Text) → btoa t ≡ some u → is_gt u ≡ false

abbrev Plain : List Text → Type 0
Plain [] = Unit
Plain (t ∷ ts) = (all_in is_plain_char t ≡ true) × Plain ts

split_from-at_dot :
    (t : Text) (c : ℕ) (cs : Text)
    → (c == dot) ≡ true
    → split_from t (c ∷ cs) ≡ t ∷ split_from [] cs
unfolding split_from
split_from-at_dot t c cs e = ground arith

split_from-at_char :
    (t : Text) (c : ℕ) (cs : Text)
    → (c == dot) ≡ false
    → split_from t (c ∷ cs) ≡ split_from (t ++ c ∷ []) cs
unfolding split_from
split_from-at_char t c cs e = ground arith

split_from-cons : (t cs : Text) → (u : Text) × (us : List Text) × (split_from t cs ≡ u ∷ us)
unfolding split_from
split_from-cons t [] = (t, [], refl)
split_from-cons t (c ∷ cs) = elim (Bool-cases (c == dot)) [
  | inl e ↦ (t, split_from [] cs, split_from-at_dot t c cs e)
  | inr e ↦
      let r = split_from-cons (t ++ c ∷ []) cs in (r.0, r.1, split_from-at_char t c cs e ∙ r.2)
]

join-cons : (t cs : Text) → join (t ∷ split_from [] cs) ≡ t ++ dot ∷ join (split_from [] cs)
unfolding join
join-cons t cs =
    let r = split_from-cons [] cs in subst (λ x. join (t ∷ x) ≡ t ++ dot ∷ join x) (sym r.2) refl

join-split_from : (t cs : Text) → join (split_from t cs) ≡ t ++ cs
unfolding split_from join
join-split_from t [] = sym (append-nil t)
join-split_from t (c ∷ cs) = elim (Bool-cases (c == dot)) [
  | inl e ↦
      ap join (split_from-at_dot t c cs e)
      ∙ join-cons t cs
      ∙ ap (λ x. t ++ dot ∷ x) (join-split_from [] cs)
      ∙ ap (λ x. t ++ x ∷ cs) (sym ((==_iff c dot).0 e))
  | inr e ↦
      ap join (split_from-at_char t c cs e)
      ∙ join-split_from (t ++ c ∷ []) cs
      ∙ append_assoc t (c ∷ []) cs
]

not_dot : (c : ℕ) (t : Text) → all_in is_plain_char (c ∷ t) ≡ true → (c == dot) ≡ false
not_dot c t h = ground arith

rest_plain :
    (c : ℕ) (t : Text) → all_in is_plain_char (c ∷ t) ≡ true → all_in is_plain_char t ≡ true
rest_plain c t h = ground arith

split_from-plain : (s t : Text) → all_in is_plain_char t ≡ true → split_from s t ≡ (s ++ t) ∷ []
unfolding split_from
split_from-plain s [] h = ap (λ x. x ∷ []) (sym (append-nil s))
split_from-plain s (c ∷ t) h =
    split_from-at_char s c t (not_dot c t h)
    ∙ split_from-plain (s ++ c ∷ []) t (rest_plain c t h)
    ∙ ap (λ x. x ∷ []) (append_assoc s (c ∷ []) t)

split_from-dot :
    (s t cs : Text)
    → all_in is_plain_char t ≡ true
    → split_from s (t ++ dot ∷ cs) ≡ (s ++ t) ∷ split_from [] cs
unfolding split_from
split_from-dot s [] cs h =
    split_from-at_dot s dot cs refl ∙ ap (λ x. x ∷ split_from [] cs) (sym (append-nil s))
split_from-dot s (c ∷ t) cs h =
    split_from-at_char s c (t ++ dot ∷ cs) (not_dot c t h)
    ∙ split_from-dot (s ++ c ∷ []) t cs (rest_plain c t h)
    ∙ ap (λ x. x ∷ split_from [] cs) (append_assoc s (c ∷ []) t)

split-join : (t : Text) (ts : List Text) → Plain (t ∷ ts) → split (join (t ∷ ts)) ≡ t ∷ ts
unfolding split join
split-join t [] h = split_from-plain [] t h.0
split-join t (u ∷ us) h =
    split_from-dot [] t (join (u ∷ us)) h.0 ∙ ap (λ x. t ∷ x) (split-join u us h.1)

bind-some {ℓ} :
    {A B : Type ℓ} (o : Option A) (f : A → Option B) (b : B)
    → (o >>= f) ≡ some b
    → (a : A) × (o ≡ some a) × (f a ≡ some b)
bind-some none f b e = ground arith
bind-some (some a) f b e = (a, refl, e)

wildcard-plain : (t : Text) → (is_gt t || is_star t) ≡ true → all_in is_plain_char t ≡ true
wildcard-plain [] e = refl
wildcard-plain (c ∷ []) e = ground arith
wildcard-plain (c ∷ d ∷ t) e = ground arith

code_token-wildcard :
    (codec : Text → Option Text) (t : Text)
    → (is_gt t || is_star t) ≡ true
    → code_token codec t ≡ some t
unfolding code_token
code_token-wildcard codec t w = subst (λ x. (if x then some t else codec t) ≡ some t) (sym w) refl

code_token-other :
    (codec : Text → Option Text) (t : Text)
    → (is_gt t || is_star t) ≡ false
    → code_token codec t ≡ codec t
unfolding code_token
code_token-other codec t w = subst (λ x. (if x then some t else codec t) ≡ codec t) (sym w) refl

module _ (btoa atob : Text → Option Text) (base64 : IsBase64 btoa atob) where
  code_token-back :
      (t u : Text)
      → code_token btoa t ≡ some u
      → (code_token atob u ≡ some t) × (all_in is_plain_char u ≡ true)
  code_token-back t u e = elim (Bool-cases (is_gt t || is_star t)) [
    | inl w ↦
        subst (λ x. (code_token atob x ≡ some t) × (all_in is_plain_char x ≡ true))
          (some_inj.0 (sym (code_token-wildcard btoa t w) ∙ e))
          (code_token-wildcard atob t w, wildcard-plain t w)
    | inr w ↦
        let h = sym (code_token-other btoa t w) ∙ e in
        let n : (is_gt u || is_star u) ≡ false =
          ground (arith, base64.not_gt t u h, base64.not_star t u h) in
        (code_token-other atob u n ∙ base64.takes_back t u h, base64.plain t u h)
  ]

  code_tokens-back :
      (ts us : List Text)
      → code_tokens btoa ts ≡ some us
      → (code_tokens atob us ≡ some ts) × Plain us
  unfolding code_tokens
  code_tokens-back [] us e =
      subst (λ x. (code_tokens atob x ≡ some []) × Plain x) (some_inj.0 e) (refl, tt)
  code_tokens-back (t ∷ ts) us e =
      let r = bind-some (code_token btoa t) _ us e in
      let q = bind-some (code_tokens btoa ts) _ us r.2 in
      let h = code_token-back t r.0 r.1 in
      let k = code_tokens-back ts q.0 q.1 in
      subst (λ x. (code_tokens atob x ≡ some (t ∷ ts)) × Plain x) (some_inj.0 q.2)
        (both t ts r.0 q.0 h.0 k.0, (h.1, k.1))
    where
      both :
          (t : Text) (ts : List Text) (u : Text) (us : List Text)
          → code_token atob u ≡ some t
          → code_tokens atob us ≡ some ts
          → code_tokens atob (u ∷ us) ≡ some (t ∷ ts)
      both t ts u us a b =
          ap (λ o. o >>= λ x. code_tokens atob us >>= λ xs. some (x ∷ xs)) a
          ∙ ap (λ o. o >>= λ xs. some (t ∷ xs)) b

  code_tokens-cons :
      (t : Text) (ts us : List Text)
      → code_tokens btoa (t ∷ ts) ≡ some us
      → (v : Text) × (vs : List Text) × (us ≡ v ∷ vs)
  unfolding code_tokens
  code_tokens-cons t ts us e =
      let r = bind-some (code_token btoa t) _ us e in
      let q = bind-some (code_tokens btoa ts) _ us r.2 in (r.0, q.0, sym (some_inj.0 q.2))

  split-join-coded :
      (k : Text) (us : List Text) → code_tokens btoa (split k) ≡ some us → split (join us) ≡ us
  unfolding split
  split-join-coded k us e =
      let s = split_from-cons [] k in
      let c = code_tokens-cons s.0 s.1 us (subst (λ x. code_tokens btoa x ≡ some us) s.2 e) in
      let p = subst Plain c.2 ((code_tokens-back (split k) us e).1) in
      subst (λ x. split (join x) ≡ x) (sym c.2) (split-join c.0 c.1 p)

  -- A key that is encoded without an error decodes to itself, given what `btoa` and `atob` are documented to
  -- do.
  pub decode-encode : (k coded : Text) → encode btoa k ≡ some coded → decode atob coded ≡ some k
  unfolding encode decode code_key split
  decode-encode k coded e =
      let r = bind-some (code_tokens btoa (split k)) _ coded e in
      ap (λ x. code_tokens atob (split x) >>= λ ts. some (join ts)) (sym (some_inj.0 r.2))
      ∙ ap (λ x. code_tokens atob x >>= λ ts. some (join ts)) (split-join-coded k r.0 r.1)
      ∙ ap (λ o. o >>= λ ts. some (join ts)) ((code_tokens-back (split k) r.0 r.1).0)
      ∙ ap some (join-split_from [] k)

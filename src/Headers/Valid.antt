-- ===== src/Headers/Valid.antt =====
-- What holds of the headers of core/src/headers.ts however they are made.
use mathlib.Core.Path.{subst}
use nats_js.Base.{
  ◌≡◌, refl, ap, ◌∙◌, arith, Bool, true, false, List, [], ◌∷◌, ◌++◌, Text, inl, inr, map,
  Bool-cases, ok, eq_text, eq_text_sym,
}
use nats_js.Base.Errors.{bind-ok}
use nats_js.Headers.Names.{
  Match, exact, canonical_mime, ignore_case, canonical_mime_header_key, all_chars, is_name_char,
  is_value_char, trim, valid_header_value,
}
use nats_js.Headers.Canonical.{ok_inj, canonical-chars, canonical_idem}
use nats_js.Headers.Trimming.{trim_idem, trim-chars}
use nats_js.Headers.Table.{
  MsgHdrs, Entry, is_empty, keys, keep, find_keys, head_or, wanted, push_value, append, delete_key,
  delete_keys, delete,
}

abbrev pub IsName : Text → Type 0
IsName k = all_chars is_name_char k ≡ true

abbrev pub IsValue : Text → Type 0
IsValue v = (all_chars is_value_char v ≡ true) × (trim v ≡ v)

abbrev pub AllValues : List Text → Type 0
AllValues [] = Unit
AllValues (v ∷ vs) = IsValue v × AllValues vs

abbrev pub Fresh : Text → List Entry → Type 0
Fresh k [] = Unit
Fresh k (e ∷ es) = (eq_text k e.key ≡ false) × Fresh k es

-- Each key is a name and stands once, and has one value or more, which are trimmed and on one line.
abbrev pub AllValid : List Entry → Type 0
AllValid [] = Unit
AllValid (e ∷ es) =
    IsName e.key × (is_empty e.vals ≡ false) × AllValues e.vals × Fresh e.key es × AllValid es

abbrev AllNames : List Text → Type 0
AllNames [] = Unit
AllNames (k ∷ ks) = IsName k × AllNames ks

snoc-AllValues : (vs : List Text) (v : Text) → AllValues vs → IsValue v → AllValues (vs ++ v ∷ [])
snoc-AllValues [] v h g = (g, tt)
snoc-AllValues (w ∷ vs) v h g = (h.0, snoc-AllValues vs v h.1 g)

snoc-is_empty : (vs : List Text) (v : Text) → is_empty (vs ++ v ∷ []) ≡ false
snoc-is_empty [] v = refl
snoc-is_empty (w ∷ vs) v = refl

push_value-Fresh :
    (j k v : Text) (es : List Entry)
    → eq_text j k ≡ false
    → Fresh j es
    → Fresh j (push_value k v es)
unfolding push_value
push_value-Fresh j k v [] n h = (n, tt)
push_value-Fresh j k v (e ∷ es) n h = elim (Bool-cases (eq_text k e.key)) [
  | inl q ↦ rw (q, push_value) h
  | inr q ↦ rw (q, push_value) (h.0, push_value-Fresh j k v es n h.1)
]

push_value-AllValid :
    (k v : Text) (es : List Entry)
    → IsName k
    → IsValue v
    → AllValid es
    → AllValid (push_value k v es)
unfolding push_value
push_value-AllValid k v [] n g h = (n, refl, (g, tt), tt, tt)
push_value-AllValid k v (e ∷ es) n g h = elim (Bool-cases (eq_text k e.key)) [
  | inl q ↦
      rw (q, push_value) (h.0, snoc-is_empty e.vals v, snoc-AllValues e.vals v h.2 g, h.3, h.4)
  | inr q ↦
      rw (q, push_value)
        (
          h.0,
          h.1,
          h.2,
          push_value-Fresh e.key k v es (eq_text_sym e.key k ∙ q) h.3,
          push_value-AllValid k v es n g h.4,
        )
]

delete_key-Fresh : (j k : Text) (es : List Entry) → Fresh j es → Fresh j (delete_key k es)
unfolding delete_key
delete_key-Fresh j k [] h = tt
delete_key-Fresh j k (e ∷ es) h = elim (Bool-cases (eq_text k e.key)) [
  | inl q ↦ rw (q, delete_key) (delete_key-Fresh j k es h.1)
  | inr q ↦ rw (q, delete_key) (h.0, delete_key-Fresh j k es h.1)
]

delete_key-AllValid : (k : Text) (es : List Entry) → AllValid es → AllValid (delete_key k es)
unfolding delete_key
delete_key-AllValid k [] h = tt
delete_key-AllValid k (e ∷ es) h = elim (Bool-cases (eq_text k e.key)) [
  | inl q ↦ rw (q, delete_key) (delete_key-AllValid k es h.4)
  | inr q ↦
      rw (q, delete_key)
        (h.0, h.1, h.2, delete_key-Fresh e.key k es h.3, delete_key-AllValid k es h.4)
]

delete_keys-AllValid :
    (ks : List Text) (es : List Entry) → AllValid es → AllValid (delete_keys ks es)
unfolding delete_keys
delete_keys-AllValid [] es h = h
delete_keys-AllValid (k ∷ ks) es h =
    delete_keys-AllValid ks (delete_key k es) (delete_key-AllValid k es h)

keys-AllNames : (es : List Entry) → AllValid es → AllNames (map (λ e. e.key) es)
keys-AllNames [] h = tt
keys-AllNames (e ∷ es) h = (h.0, keys-AllNames es h.4)

keep-AllNames : (p : Text → Bool) (ks : List Text) → AllNames ks → AllNames (keep p ks)
unfolding keep
keep-AllNames p [] h = tt
keep-AllNames p (k ∷ ks) h = elim (Bool-cases (p k)) [
  | inl q ↦ rw (q, keep) (h.0, keep-AllNames p ks h.1)
  | inr q ↦ rw (q, keep) (keep-AllNames p ks h.1)
]

find_keys-AllNames :
    (k : Text) (m : Match) (h : MsgHdrs) (ks : List Text)
    → AllValid h.entries
    → find_keys k m h ≡ ok ks
    → AllNames ks
unfolding find_keys
find_keys-AllNames k exact h ks g e =
    subst AllNames (ok_inj e) (keep-AllNames _ (keys h) (keys-AllNames h.entries g))
find_keys-AllNames k ignore_case h ks g e =
    subst AllNames (ok_inj e) (keep-AllNames _ (keys h) (keys-AllNames h.entries g))
find_keys-AllNames k canonical_mime h ks g e =
    let r = bind-ok (canonical_mime_header_key k) _ ks e in
    subst AllNames (ok_inj r.2) (keep-AllNames _ (keys h) (keys-AllNames h.entries g))

head_or-IsName : (k : Text) (ks : List Text) → IsName k → AllNames ks → IsName (head_or k ks)
head_or-IsName k [] n h = n
head_or-IsName k (j ∷ ks) n h = h.0

wanted-IsName :
    (m : Match) (k ck : Text) → canonical_mime_header_key k ≡ ok ck → IsName (wanted m k ck)
wanted-IsName exact k ck e = canonical-chars k ck e
wanted-IsName ignore_case k ck e = canonical-chars k ck e
wanted-IsName canonical_mime k ck e = canonical-chars ck ck (canonical_idem k ck e)

valid_header_value-ok :
    (v w : Text) → valid_header_value v ≡ ok w → (all_chars is_value_char v ≡ true) × (trim v ≡ w)
unfolding valid_header_value
valid_header_value-ok v w e = elim (Bool-cases (all_chars is_value_char v)) [
  | inl q ↦ (q, ground arith)
  | inr q ↦ ground arith
]

-- What `append` comes to when it throws nothing.
pub append-ok :
    (k v : Text) (m : Match) (h h' : MsgHdrs)
    → append k v m h ≡ ok h'
    → (ck : Text) × (ks : List Text) × (canonical_mime_header_key k ≡ ok ck)
      × (find_keys (wanted m k ck) m h ≡ ok ks)
      × (all_chars is_value_char v ≡ true)
      × (record (h) { entries = push_value (head_or (wanted m k ck) ks) (trim v) h.entries } ≡ h')
unfolding append
append-ok k v m h h' e =
    let a = bind-ok (canonical_mime_header_key k) _ h' e in
    let b = bind-ok (find_keys (wanted m k a.0) m h) _ h' a.2 in
    let c = bind-ok (valid_header_value v) _ h' b.2 in
    let w = valid_header_value-ok v c.0 c.1 in
    (
      a.0,
      b.0,
      a.1,
      b.1,
      w.0,
      ap (λ x. record (h) { entries = push_value (head_or (wanted m k a.0) b.0) x h.entries }) w.1
          ∙ ok_inj c.2,
    )

pub append-AllValid :
    (k v : Text) (m : Match) (h h' : MsgHdrs)
    → AllValid h.entries
    → append k v m h ≡ ok h'
    → AllValid h'.entries
append-AllValid k v m h h' g e =
    let r = append-ok k v m h h' e in
    let w = wanted m k r.0 in
    subst (λ x. AllValid x.entries) r.5
      (push_value-AllValid (head_or w r.1) (trim v) h.entries
        (head_or-IsName w r.1 (wanted-IsName m k r.0 r.2) (find_keys-AllNames w m h r.1 g r.3))
        (trim-chars is_value_char v r.4, trim_idem v) g)

pub delete-AllValid :
    (k : Text) (m : Match) (h h' : MsgHdrs)
    → AllValid h.entries
    → delete k m h ≡ ok h'
    → AllValid h'.entries
unfolding delete
delete-AllValid k m h h' g e =
    let r = bind-ok (find_keys k m h) _ h' e in
    subst (λ x. AllValid x.entries) (ok_inj r.2) (delete_keys-AllValid r.0 h.entries g)

-- ===== src/Headers/Setting.antt =====
-- What `set` of core/src/headers.ts leaves in the table.
use mathlib.Core.Path.{subst}
use nats_js.Base.{
  ◌≡◌, refl, sym, ap, ◌∙◌, Bool, true, false, List, [], ◌∷◌, ◌++◌, Text, map, ok, failed, eq_text,
  eq_text_refl,
}
use nats_js.Base.Errors.{◌>>=◌, bind-ok}
use nats_js.Headers.Names.{
  Match, exact, canonical_mime, ignore_case, canonical_mime_header_key, lower_char, trim,
}
use nats_js.Headers.Canonical.{ok_inj, canonical_idem}
use nats_js.Headers.Table.{
  MsgHdrs, Entry, keys, keep, find_keys, head_or, first_array, wanted, push_value, append,
  delete_keys, delete, set, array_of, values_of, values, get,
}
use nats_js.Headers.Valid.{Fresh, append-ok}
use nats_js.Headers.Deleting.{
  NoMatch, AllMatch, differ, keep-AllMatch, NoMatch-keep, keep-snoc, NoMatch-Fresh,
  array_of-delete_keys, array_of-snoc, array_of-Fresh, delete_keys-keep,
}

pub push_value-new :
    (k v : Text) (es : List Entry)
    → Fresh k es
    → push_value k v es ≡ es ++ record { key = k; vals = v ∷ [] } ∷ []
unfolding push_value
push_value-new k v [] h = refl
push_value-new k v (e ∷ es) h = rw (h.0, push_value) (ap (λ x. e ∷ x) (push_value-new k v es h.1))

-- Whether a call for the key `k` looks at the key `j`.
abbrev pub matches : Match → Text → Text → Bool
matches exact k j = eq_text j k
matches canonical_mime k j = elim (canonical_mime_header_key k) [
  | ok c ↦ eq_text j c
  | failed e ↦ false
]
matches ignore_case k j = eq_text (map lower_char k) (map lower_char j)

find_keys-matches :
    (k : Text) (m : Match) (h : MsgHdrs) (ks : List Text)
    → find_keys k m h ≡ ok ks
    → ks ≡ keep (matches m k) (keys h)
unfolding find_keys
find_keys-matches k exact h ks e = sym (ok_inj e)
find_keys-matches k ignore_case h ks e = sym (ok_inj e)
find_keys-matches k canonical_mime h ks e =
    let r = bind-ok (canonical_mime_header_key k) _ ks e in
    sym (ok_inj r.2)
    ∙ ap (λ o. keep (λ j. elim o as (λ _. Bool) [ ok c ↦ eq_text j c | failed x ↦ false ]) (keys h))
        (sym r.1)

-- The key under which a value is put matches itself.
matches-wanted :
    (m : Match) (k ck : Text)
    → canonical_mime_header_key k ≡ ok ck
    → matches m k (wanted m k ck) ≡ true
matches-wanted exact k ck e = eq_text_refl k
matches-wanted ignore_case k ck e = eq_text_refl (map lower_char k)
matches-wanted canonical_mime k ck e =
    subst (λ o. elim o as (λ _. Bool) [ ok c ↦ eq_text ck c | failed x ↦ false ] ≡ true) (sym e)
      (eq_text_refl ck)

-- What is found when nothing that matches is left, and the table that `append` then makes.
append-NoMatch :
    (k v : Text) (m : Match) (h h' : MsgHdrs)
    → NoMatch (matches m k) h.entries
    → append k v m h ≡ ok h'
    → (w : Text) × (matches m k w ≡ true)
      × (record (h) { entries = h.entries ++ record { key = w; vals = trim v ∷ [] } ∷ [] } ≡ h')
append-NoMatch k v m h h' n e =
    let r = append-ok k v m h h' e in
    let w = wanted m k r.0 in
    let t = matches-wanted m k r.0 r.2 in
    let none_found : r.1 ≡ [] =
      find_keys-wanted k r.0 m h r.1 r.2 r.3 ∙ NoMatch-keep (matches m k) h.entries n in
    (
      w,
      t,
      ap (λ x. record (h) { entries = x })
            (sym
              (push_value-new w (trim v) h.entries (NoMatch-Fresh (matches m k) w h.entries t n)))
          ∙ ap (λ x. record (h) { entries = push_value (head_or w x) (trim v) h.entries })
              (sym none_found)
          ∙ r.5,
    )
  where
    find_keys-wanted :
        (k ck : Text) (m : Match) (h : MsgHdrs) (ks : List Text)
        → canonical_mime_header_key k ≡ ok ck
        → find_keys (wanted m k ck) m h ≡ ok ks
        → ks ≡ keep (matches m k) (keys h)
    find_keys-wanted k ck exact h ks c e = find_keys-matches k exact h ks e
    find_keys-wanted k ck ignore_case h ks c e = find_keys-matches k ignore_case h ks e
    find_keys-wanted k ck canonical_mime h ks c e =
        find_keys-matches ck canonical_mime h ks e
        ∙ ap
            (λ o.
              keep (λ j. elim o as (λ _. Bool) [ ok x ↦ eq_text j x | failed x ↦ false ]) (keys h))
            (canonical_idem k ck c ∙ sym c)

-- A search that throws nothing on one table throws nothing on another.
find_keys-ok :
    (k : Text) (m : Match) (h g : MsgHdrs) (ks : List Text)
    → find_keys k m h ≡ ok ks
    → find_keys k m g ≡ ok (keep (matches m k) (keys g))
unfolding find_keys
find_keys-ok k exact h g ks e = refl
find_keys-ok k ignore_case h g ks e = refl
find_keys-ok k canonical_mime h g ks e =
    let r = bind-ok (canonical_mime_header_key k) _ ks e in
    subst
      (λ o.
        (o >>= λ c. ok (keep (λ v. eq_text v c) (keys g)))
        ≡ ok (keep (λ j. elim o as (λ _. Bool) [ ok c ↦ eq_text j c | failed x ↦ false ]) (keys g)))
      (sym r.1) refl

-- The table after `set`: what the deletion left, and the key behind it.
set-entries :
    (k v : Text) (m : Match) (h h' : MsgHdrs)
    → set k v m h ≡ ok h'
    → (w : Text) × (es : List Entry) × (matches m k w ≡ true)
      × NoMatch (matches m k) es
      × (h'.entries ≡ es ++ record { key = w; vals = trim v ∷ [] } ∷ [])
      × (find_keys k m h' ≡ ok (keep (matches m k) (keys h')))
      × ((j : Text) → matches m k j ≡ false → array_of j es ≡ array_of j h.entries)
unfolding set delete
set-entries k v m h h' e =
    let r = bind-ok (delete k m h) _ h' e in
    let q = bind-ok (find_keys k m h) _ r.0 r.1 in
    let f = find_keys-matches k m h q.0 q.1 in
    let n : NoMatch (matches m k) (delete_keys q.0 h.entries) =
      subst (λ x. NoMatch (matches m k) (delete_keys x h.entries)) (sym f)
        (delete_keys-keep (matches m k) h.entries) in
    let a =
      append-NoMatch k v m r.0 h' (subst (λ x. NoMatch (matches m k) x.entries) (ok_inj q.2) n)
        r.2 in
    (
      a.0,
      r.0.entries,
      a.1,
      subst (λ x. NoMatch (matches m k) x.entries) (ok_inj q.2) n,
      ap (λ x. x.entries) (sym a.2),
      find_keys-ok k m h h' q.0 q.1,
      λ j d.
          ap (λ x. array_of j x.entries) (sym (ok_inj q.2))
          ∙ array_of-delete_keys (matches m k) j q.0 h.entries d
              (subst (AllMatch (matches m k)) (sym f) (keep-AllMatch (matches m k) (keys h))),
    )

-- If `set` throws nothing, then under its key, matched as it was, the value is found trimmed and alone, and
-- what any key that it does not match had is kept.
pub set_lem :
    (k v j : Text) (m : Match) (h h' : MsgHdrs)
    → set k v m h ≡ ok h'
    → matches m k j ≡ false
    → (values k m h' ≡ ok (trim v ∷ []))
      × (get k m h' ≡ ok (trim v))
      × (array_of j h'.entries ≡ array_of j h.entries)
unfolding values get values_of
set_lem k v j m h h' e d =
    let (w, es, t, n, table, found, rest) = set-entries k v m h h' e in
    let new : Entry = record { key = w; vals = trim v ∷ [] } in
    let one : find_keys k m h' ≡ ok (w ∷ []) =
      found
      ∙ ap (λ x. ok (keep (matches m k) (map (λ e. e.key) x))) table
      ∙ ap ok (keep-snoc (matches m k) es new n t) in
    let here : array_of w h'.entries ≡ trim v ∷ [] =
      ap (array_of w) table
      ∙ array_of-Fresh (matches m k) w es (trim v ∷ []) (NoMatch-Fresh (matches m k) w es t n) in
    (
      ap (λ o. o >>= λ ks. ok (values_of ks h'.entries)) one ∙ ap (λ x. ok (x ++ [])) here,
      ap (λ o. o >>= λ ks. ok (head_or [] (first_array ks h'))) one
          ∙ ap (λ x. ok (head_or [] x)) here,
      ap (array_of j) table
          ∙ array_of-snoc (matches m k) j es new (differ (matches m k) j w d t)
          ∙ rest j d,
    )

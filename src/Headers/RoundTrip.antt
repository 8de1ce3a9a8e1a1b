-- ===== src/Headers/RoundTrip.antt =====
-- Headers of core/src/headers.ts, printed and read back.
use nats_js.Base.{
  ◌≡◌, refl, sym, ap, ◌∙◌, arith, true, false, List, [], ◌∷◌, ◌++◌, Text, inl, inr, ◌&&◌,
  Bool-cases, append-nil, append_assoc, eq_text, eq_text_refl, eq_text_sym, eq_text-≡, ok, pos,
}
use nats_js.Base.Errors.{◌>>=◌}
use nats_js.Headers.Names.{space, exact, valid_header_value}
use nats_js.Headers.Canonical.{canonical-ok}
use nats_js.Headers.Trimming.{trim-space}
use nats_js.Headers.Table.{
  MsgHdrs, Entry, new_msg_hdrs, is_empty, is_zero, keys, keep, find_keys, head_or, push_value,
  append,
}
use nats_js.Headers.Wire.{
  entry_lines, status_line, to_text, split_from, cut_colon, append_pair, read_line, read_lines,
  of_lines, of_text, read_status, read_code,
}
use nats_js.Headers.Lines.{cut_colon-name}
use nats_js.Headers.Valid.{IsName, IsValue, AllValues, Fresh, AllValid}
use nats_js.Headers.Built.{Built, Built-AllValid}
use nats_js.Headers.Setting.{push_value-new}
use nats_js.Headers.Status.{
  FitsStatus, read_status-status_line, status_line-chars, FitsStatus-is_zero,
}
use nats_js.Headers.Printed.{
  line, texts, all_texts, end_lines, entry_lines-glue, split_from-glue, all_texts-Plain,
}

-- The key itself is the one that is found first.
head_or-keep : (k : Text) (ks : List Text) → head_or k (keep (λ v. eq_text v k) ks) ≡ k
unfolding keep
head_or-keep k [] = refl
head_or-keep k (j ∷ ks) = elim (Bool-cases (eq_text j k)) [
  | inl q ↦ rw (q, keep) (eq_text-≡ j k q)
  | inr q ↦ rw (q, keep) (head_or-keep k ks)
]

append-exact :
    (k v : Text) (h : MsgHdrs)
    → IsName k
    → IsValue v
    → append k v exact h ≡ ok (record (h) { entries = push_value k v h.entries })
unfolding append find_keys valid_header_value
append-exact k v h n g =
    let c = canonical-ok k n in
    ap
      (λ o. o >>= λ ck. valid_header_value v >>= λ value. ok (record (h) {
        entries = push_value (head_or k (keep (λ x. eq_text x k) (keys h))) value h.entries;
      }))
      c.1
    ∙ ap
        (λ o. o >>= λ value. ok (record (h) {
          entries = push_value (head_or k (keep (λ x. eq_text x k) (keys h))) value h.entries;
        }))
        (valid-value v g)
    ∙ ap (λ x. ok (record (h) { entries = push_value x v h.entries })) (head_or-keep k (keys h))
  where
    valid-value : (v : Text) → IsValue v → valid_header_value v ≡ ok v
    valid-value v g = rw (g.0, valid_header_value) (ap ok g.1)

abbrev pushes : Text → List Text → List Entry → List Entry
pushes k [] es = es
pushes k (v ∷ vs) es = pushes k vs (push_value k v es)

read_line-line :
    (k v : Text) (h : MsgHdrs)
    → IsName k
    → IsValue v
    → read_line (line k v) h ≡ ok (record (h) { entries = push_value k v h.entries })
unfolding read_line
read_line-line k v h n g =
    ap (λ o. append_pair o h) (cut_colon-name k (space ∷ v) n)
    ∙ ap (λ x. append k x exact h) (trim-space v ∙ g.1)
    ∙ append-exact k v h n g

read_lines-texts :
    (k : Text) (vs : List Text) (ls : List Text) (h : MsgHdrs)
    → IsName k
    → AllValues vs
    → read_lines (texts k vs ++ ls) h
      ≡ read_lines ls (record (h) { entries = pushes k vs h.entries })
unfolding read_lines
read_lines-texts k [] ls h n g = refl
read_lines-texts k (v ∷ vs) ls h n g =
    ap (λ o. o >>= λ x. read_lines (texts k vs ++ ls) x) (read_line-line k v h n g.0)
    ∙ read_lines-texts k vs ls (record (h) { entries = push_value k v h.entries }) n g.1

push_value-Fresh :
    (k v : Text) (vs : List Text) (es : List Entry)
    → Fresh k es
    → push_value k v (es ++ record { key = k; vals = vs } ∷ [])
      ≡ es ++ record { key = k; vals = vs ++ v ∷ [] } ∷ []
unfolding push_value
push_value-Fresh k v vs [] h = rw (eq_text_refl k, push_value) refl
push_value-Fresh k v vs (e ∷ es) h =
    rw (h.0, push_value) (ap (λ x. e ∷ x) (push_value-Fresh k v vs es h.1))

pushes-Fresh :
    (k : Text) (ws vs : List Text) (es : List Entry)
    → Fresh k es
    → pushes k ws (es ++ record { key = k; vals = vs } ∷ [])
      ≡ es ++ record { key = k; vals = vs ++ ws } ∷ []
pushes-Fresh k [] vs es h = ap (λ x. es ++ record { key = k; vals = x } ∷ []) (sym (append-nil vs))
pushes-Fresh k (w ∷ ws) vs es h =
    ap (pushes k ws) (push_value-Fresh k w vs es h)
    ∙ pushes-Fresh k ws (vs ++ w ∷ []) es h
    ∙ ap (λ x. es ++ record { key = k; vals = x } ∷ []) (append_assoc vs (w ∷ []) ws)

pushes-new :
    (k : Text) (vs : List Text) (es : List Entry)
    → is_empty vs ≡ false
    → Fresh k es
    → pushes k vs es ≡ es ++ record { key = k; vals = vs } ∷ []
pushes-new k [] es n h = ground arith
pushes-new k (v ∷ vs) es n h =
    ap (pushes k vs) (push_value-new k v es h) ∙ pushes-Fresh k vs (v ∷ []) es h

-- The keys of the second list are not in the first.
abbrev Apart : List Entry → List Entry → Type 0
Apart ds [] = Unit
Apart ds (e ∷ es) = Fresh e.key ds × Apart ds es

Fresh-snoc :
    (k : Text) (ds : List Entry) (e : Entry)
    → Fresh k ds
    → eq_text k e.key ≡ false
    → Fresh k (ds ++ e ∷ [])
Fresh-snoc k [] e h q = (q, tt)
Fresh-snoc k (d ∷ ds) e h q = (h.0, Fresh-snoc k ds e h.1 q)

Apart-snoc :
    (ds es : List Entry) (e : Entry) → Apart ds es → Fresh e.key es → Apart (ds ++ e ∷ []) es
Apart-snoc ds [] e h q = tt
Apart-snoc ds (x ∷ es) e h q =
    (Fresh-snoc x.key ds e h.0 (eq_text_sym x.key e.key ∙ q.0), Apart-snoc ds es e h.1 q.1)

Apart-nil : (es : List Entry) → Apart [] es
Apart-nil [] = tt
Apart-nil (e ∷ es) = (tt, Apart-nil es)

read_lines-entries :
    (es : List Entry) (h : MsgHdrs)
    → AllValid es
    → Apart h.entries es
    → read_lines (all_texts es ++ [] ∷ [] ∷ []) h ≡ ok (record (h) { entries = h.entries ++ es })
unfolding read_lines read_line cut_colon
read_lines-entries [] h g a = ap (λ x. ok (record (h) { entries = x })) (sym (append-nil h.entries))
read_lines-entries (e ∷ es) h g a =
    let h' = record (h) { entries = h.entries ++ e ∷ [] } in
    ap (λ x. read_lines x h) (append_assoc (texts e.key e.vals) (all_texts es) ([] ∷ [] ∷ []))
    ∙ read_lines-texts e.key e.vals (all_texts es ++ [] ∷ [] ∷ []) h g.0 g.2
    ∙ ap (λ x. read_lines (all_texts es ++ [] ∷ [] ∷ []) (record (h) { entries = x }))
        (pushes-new e.key e.vals h.entries g.1 a.0)
    ∙ read_lines-entries es h' g.4 (Apart-snoc h.entries es e a.1 g.3)
    ∙ ap (λ x. ok (record (h) { entries = x })) (append_assoc h.entries (e ∷ []) es)

printed : MsgHdrs → Text
printed h = status_line h ++ entry_lines h.entries ++ end_lines

of_text-printed : (h : MsgHdrs) → AllValid h.entries → FitsStatus h → of_text (printed h) ≡ ok h
unfolding of_text printed
of_text-printed h g f =
    ap (λ x. of_lines (split_from [] x))
      (append_assoc (status_line h) (entry_lines h.entries) end_lines
        ∙ ap (λ x. status_line h ++ (x ++ end_lines)) (entry_lines-glue h.entries))
    ∙ ap of_lines (
        split_from-glue (status_line h) (all_texts h.entries)
          (status_line-chars h f, all_texts-Plain h.entries g))
    ∙ ap (read_lines (all_texts h.entries ++ [] ∷ [] ∷ [])) (read_status-status_line h f)
    ∙ read_lines-entries h.entries (new_msg_hdrs h.code h.description) g (Apart-nil h.entries)

of_text-nil : of_text [] ≡ ok (new_msg_hdrs (pos 0) [])
unfolding of_text split_from read_status read_code
of_text-nil = refl

is_empty-≡ : (es : List Entry) → is_empty es ≡ true → [] ≡ es
is_empty-≡ [] h = refl
is_empty-≡ (e ∷ es) h = ground arith

new-empty :
    (h : MsgHdrs)
    → FitsStatus h
    → (is_empty h.entries && is_zero h.code) ≡ true
    → new_msg_hdrs (pos 0) [] ≡ h
new-empty h f q =
    FitsStatus-is_zero h f (ground arith)
    ∙ ap (λ x. record (h) { entries = x }) (is_empty-≡ h.entries (ground arith))

-- However headers were made, what toString prints of them is decoded to the same headers, with the keys and
-- the values of each in order, if they have no status, or a positive code with a description that is not
-- empty, on one line and trimmed.
pub of_text-to_text : (h : MsgHdrs) → Built h → FitsStatus h → of_text (to_text h) ≡ ok h
unfolding to_text printed
of_text-to_text h b f = elim (Bool-cases (is_empty h.entries && is_zero h.code)) [
  | inl q ↦ rw (q, to_text) (of_text-nil ∙ ap ok (new-empty h f q))
  | inr q ↦ rw (q, to_text) (of_text-printed h (Built-AllValid h b) f)
]

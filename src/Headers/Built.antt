-- ===== src/Headers/Built.antt =====
-- The headers of core/src/headers.ts that a program can come to hold.
use mathlib.Core.Path.{subst}
use nats_js.Base.{
  if◌then◌else◌, ℤ, ◌≡◌, refl, sym, ap, arith, Bool, true, false, List, [], ◌∷◌, Text, pos, Option,
  none, some, Result, ok, failed, inl, inr, Bool-cases, eq_text, not, ◌&&◌, ltb_ℤ,
}
use nats_js.Base.Errors.{bind-ok}
use nats_js.Headers.Names.{HeaderError, code_required, description_required, Match, exact, trim}
use nats_js.Headers.Canonical.{ok_inj}
use nats_js.Headers.Table.{
  MsgHdrs, Entry, new_msg_hdrs, is_empty, is_zero, headers, append, delete, set, append_all,
  append_fields, from_record,
}
use nats_js.Headers.Wire.{
  version, remove_first, read_code, of_text, of_lines, read_status, read_lines, read_line,
  append_pair, cut_colon, split_from,
}
use nats_js.Headers.Valid.{AllValid, append-AllValid, delete-AllValid}

-- Made by `headers`, read from a text or a record, and changed since.
pub data Built : MsgHdrs → Type 0 where
  by_headers : (c : ℤ) (d : Text) {h : MsgHdrs} → headers c d ≡ ok h → Built h
  by_decode : (s : Text) {h : MsgHdrs} → of_text s ≡ ok h → Built h
  by_record : (r : List Entry) {h : MsgHdrs} → from_record r ≡ ok h → Built h
  by_append :
      (k v : Text) (m : Match) (h : MsgHdrs) {h' : MsgHdrs}
      → Built h
      → append k v m h ≡ ok h'
      → Built h'
  by_set :
      (k v : Text) (m : Match) (h : MsgHdrs) {h' : MsgHdrs}
      → Built h
      → set k v m h ≡ ok h'
      → Built h'
  by_delete :
      (k : Text) (m : Match) (h : MsgHdrs) {h' : MsgHdrs}
      → Built h
      → delete k m h ≡ ok h'
      → Built h'

set-AllValid :
    (k v : Text) (m : Match) (h h' : MsgHdrs)
    → AllValid h.entries
    → set k v m h ≡ ok h'
    → AllValid h'.entries
unfolding set
set-AllValid k v m h h' g e =
    let r = bind-ok (delete k m h) _ h' e in
    append-AllValid k v m r.0 h' (delete-AllValid k m h r.0 g r.1) r.2

append_all-AllValid :
    (k : Text) (vs : List Text) (h h' : MsgHdrs)
    → AllValid h.entries
    → append_all k vs h ≡ ok h'
    → AllValid h'.entries
unfolding append_all
append_all-AllValid k [] h h' g e = subst (λ x. AllValid x.entries) (ok_inj e) g
append_all-AllValid k (v ∷ vs) h h' g e =
    let r = bind-ok (append k v exact h) _ h' e in
    append_all-AllValid k vs r.0 h' (append-AllValid k v exact h r.0 g r.1) r.2

append_fields-AllValid :
    (es : List Entry) (h h' : MsgHdrs)
    → AllValid h.entries
    → append_fields es h ≡ ok h'
    → AllValid h'.entries
unfolding append_fields
append_fields-AllValid [] h h' g e = subst (λ x. AllValid x.entries) (ok_inj e) g
append_fields-AllValid (x ∷ xs) h h' g e =
    let r = bind-ok (append_all x.key x.vals h) _ h' e in
    append_fields-AllValid xs r.0 h' (append_all-AllValid x.key x.vals h r.0 g r.1) r.2

append_pair-AllValid :
    (o : Option (Text × Text)) (h h' : MsgHdrs)
    → AllValid h.entries
    → append_pair o h ≡ ok h'
    → AllValid h'.entries
append_pair-AllValid none h h' g e = subst (λ x. AllValid x.entries) (ok_inj e) g
append_pair-AllValid (some (k, v)) h h' g e = append-AllValid k (trim v) exact h h' g e

read_lines-AllValid :
    (ls : List Text) (h h' : MsgHdrs)
    → AllValid h.entries
    → read_lines ls h ≡ ok h'
    → AllValid h'.entries
unfolding read_lines read_line
read_lines-AllValid [] h h' g e = subst (λ x. AllValid x.entries) (ok_inj e) g
read_lines-AllValid (l ∷ ls) h h' g e =
    let r = bind-ok (read_line l h) _ h' e in
    read_lines-AllValid ls r.0 h' (append_pair-AllValid (cut_colon l) h r.0 g r.1) r.2

read_code-entries : (t : Text) → (read_code t).entries ≡ []
unfolding read_code
read_code-entries [] = refl
read_code-entries (c ∷ t) = refl

read_status-entries : (l : Text) → (read_status l).entries ≡ []
unfolding read_status
read_status-entries l = elim (Bool-cases (eq_text l version)) [
  | inl q ↦ rw (q, read_status) refl
  | inr q ↦ rw (q, read_status) (read_code-entries (trim (remove_first version l)))
]

of_lines-AllValid : (ls : List Text) (h : MsgHdrs) → of_lines ls ≡ ok h → AllValid h.entries
of_lines-AllValid [] h e = subst (λ x. AllValid x.entries) (ok_inj e) tt
of_lines-AllValid (l ∷ ls) h e =
    read_lines-AllValid ls (read_status l) h (subst AllValid (sym (read_status-entries l)) tt) e

unless-ok :
    (a b : Bool) (x h : MsgHdrs) (e f : HeaderError)
    → ◌≡◌ {A = Result HeaderError MsgHdrs}
        (if a then failed e else if b then failed f else ok x)
        (ok h)
    → x ≡ h
unless-ok true b x h e f q = ground arith
unless-ok false true x h e f q = ground arith
unless-ok false false x h e f q = ok_inj q

headers-entries : (c : ℤ) (d : Text) (h : MsgHdrs) → headers c d ≡ ok h → h.entries ≡ []
unfolding headers
headers-entries c d h e =
    ap (λ x. x.entries)
      (sym (
        unless-ok (is_zero c && not (is_empty d)) (ltb_ℤ (pos 0) c && is_empty d) (new_msg_hdrs c d)
          h code_required description_required e))

-- However headers are made and changed, each key is a name that may stand in a header and is there once,
-- and has at least one value; no value has a line end in it or white space around it.
pub Built-AllValid : (h : MsgHdrs) → Built h → AllValid h.entries
unfolding of_text from_record
Built-AllValid h (by_headers c d e) = subst AllValid (sym (headers-entries c d h e)) tt
Built-AllValid h (by_decode s e) = of_lines-AllValid (split_from [] s) h e
Built-AllValid h (by_record r e) = append_fields-AllValid r (new_msg_hdrs (pos 0) []) h tt e
Built-AllValid h (by_append k v m h0 b e) = append-AllValid k v m h0 h (Built-AllValid h0 b) e
Built-AllValid h (by_set k v m h0 b e) = set-AllValid k v m h0 h (Built-AllValid h0 b) e
Built-AllValid h (by_delete k m h0 b e) = delete-AllValid k m h0 h (Built-AllValid h0 b) e

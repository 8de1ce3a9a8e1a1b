-- ===== src/Protocol/Aborts.antt =====
-- When errors of the server keep the client of core/src/protocol.ts from connecting again.
use nats_js.Base.{
  some, ◌≡◌, refl, sym, ap, ◌∙◌, Bool, true, false, not, ◌&&◌, ◌||◌, Option, some, List, [], ◌∷◌,
  if◌then◌else◌, Text, inl, inr, Bool-cases,
}
use nats_js.Protocol.Failures.{
  ServerError, permission_violation, user_authentication_expired, authorization, protocol, is_auth,
  is_permission, was_auth, Failing, handle_auth_error, handle_error, unquote, to_error,
  process_error,
}
use nats_js.Protocol.Kinds.{Kind, permission, auth, other, kind, kind_of, to_error-kind}

unfoldable pub process_errors : List Text → Failing → Failing
unfolding process_error
process_errors [] f = f
process_errors (m ∷ ms) f = process_errors ms (process_error m f)

-- The errors that texts stand for, but for permission violations.
abbrev pub serious : List Text → List ServerError
serious [] = []
serious (m ∷ ms) =
    let rest = serious ms in
    let e = to_error (unquote m) in if is_permission e then rest else e ∷ rest

-- Two authentication errors follow each other, where `b` says that one came just before.
abbrev pub two_in_row : Bool → List ServerError → Bool
two_in_row b [] = false
two_in_row b (e ∷ es) = let rest = two_in_row (is_auth e) es in (b && is_auth e) || rest

abbrev pub last_of : Option ServerError → List ServerError → Option ServerError
last_of l [] = l
last_of l (e ∷ es) = last_of (some e) es

-- The fields that the abort hangs on, after one error.
abbrev Handled : ServerError → Failing → Failing → Type 0
Handled e f g =
    (g.ignore_auth_error_abort ≡ f.ignore_auth_error_abort)
    × (g.last_error ≡ (if is_permission e then f.last_error else some e))
    × (g.abort_reconnect ≡ (
        f.abort_reconnect || (is_auth e && was_auth f.last_error && not f.ignore_auth_error_abort)))

handle_auth_error-fields :
    (e : ServerError) (f : Failing)
    → ((handle_auth_error e f).ignore_auth_error_abort ≡ f.ignore_auth_error_abort)
      × ((handle_auth_error e f).abort_reconnect
          ≡ (f.abort_reconnect || (was_auth f.last_error && not f.ignore_auth_error_abort)))
unfolding handle_auth_error
handle_auth_error-fields e f = elim (Bool-cases f.connecting) [
  | inl q ↦ rw (q, handle_auth_error) (refl, refl)
  | inr q ↦ rw (q, handle_auth_error) (refl, refl)
]

or_false : (b : Bool) → b ≡ (b || false)
or_false true = refl
or_false false = refl

handle_error-Handled : (e : ServerError) (f : Failing) → Handled e f (handle_error e f)
unfolding handle_error
handle_error-Handled (permission_violation m o s q) f = (refl, refl, or_false f.abort_reconnect)
handle_error-Handled (user_authentication_expired s) f =
    let r = handle_auth_error-fields (user_authentication_expired s) f in (r.0, refl, r.1)
handle_error-Handled (authorization s) f =
    let r = handle_auth_error-fields (authorization s) f in (r.0, refl, r.1)
handle_error-Handled (protocol s) f = (refl, refl, or_false f.abort_reconnect)

distribute : (a w n t : Bool) → ((a || (w && n)) || (t && n)) ≡ (a || (((w && true) || t) && n))
distribute true w n t = refl
distribute false true true t = refl
distribute false true false true = refl
distribute false true false false = refl
distribute false false n t = refl

and_false : (b : Bool) → (b && false) ≡ false
and_false true = refl
and_false false = refl

-- An error in front of the serious ones.
abbrev in_front : ServerError → List ServerError → List ServerError
in_front e es = if is_permission e then es else e ∷ es

abbrev aborts : Bool → Option ServerError → Bool → List ServerError → Bool
aborts a l i es = a || (two_in_row (was_auth l) es && not i)

-- The fields after one error say of the errors to come what the fields before it say of all.
in_front-aborts :
    (e : ServerError) (a i : Bool) (l : Option ServerError) (es : List ServerError)
    → (aborts (a || (is_auth e && was_auth l && not i)) (if is_permission e then l else some e) i es
        ≡ aborts a l i (in_front e es))
      × (last_of (if is_permission e then l else some e) es ≡ last_of l (in_front e es))
in_front-aborts (permission_violation m o s q) a i l es =
    (ap (λ x. x || (two_in_row (was_auth l) es && not i)) (sym (or_false a)), refl)
in_front-aborts (user_authentication_expired s) a i l es =
    (distribute a (was_auth l) (not i) (two_in_row true es), refl)
in_front-aborts (authorization s) a i l es =
    (distribute a (was_auth l) (not i) (two_in_row true es), refl)
in_front-aborts (protocol s) a i l es = (
  ap (λ x. x || (two_in_row false es && not i)) (sym (or_false a))
      ∙ ap (λ x. a || ((x || two_in_row false es) && not i)) (sym (and_false (was_auth l))),
  refl,
)

step-aborts :
    (e : ServerError) (f g : Failing) (es : List ServerError)
    → Handled e f g
    → (aborts g.abort_reconnect g.last_error g.ignore_auth_error_abort es
        ≡ aborts f.abort_reconnect f.last_error f.ignore_auth_error_abort (in_front e es))
      × (last_of g.last_error es ≡ last_of f.last_error (in_front e es))
step-aborts e f g es (i, l, a) =
    let r = in_front-aborts e f.abort_reconnect f.ignore_auth_error_abort f.last_error es in
    (
      ap (λ x. aborts x g.last_error g.ignore_auth_error_abort es) a
          ∙ ap
              (λ x.
                aborts
                  (f.abort_reconnect
                    || (is_auth e && was_auth f.last_error && not f.ignore_auth_error_abort))
                  x g.ignore_auth_error_abort es)
              l
          ∙ ap
              (λ x.
                aborts
                  (f.abort_reconnect
                    || (is_auth e && was_auth f.last_error && not f.ignore_auth_error_abort))
                  (if is_permission e then f.last_error else some e) x es)
              i
          ∙ r.0,
      ap (λ x. last_of x es) l ∙ r.1,
    )

process_errors-serious :
    (ms : List Text) (f : Failing)
    → ((process_errors ms f).abort_reconnect ≡ (
        f.abort_reconnect
        || (two_in_row (was_auth f.last_error) (serious ms) && not f.ignore_auth_error_abort)))
      × ((process_errors ms f).last_error ≡ last_of f.last_error (serious ms))
unfolding process_errors process_error
process_errors-serious [] f = (or_false f.abort_reconnect, refl)
process_errors-serious (m ∷ ms) f =
    let e = to_error (unquote m) in
    let r = handle_error-Handled e f in
    let ih = process_errors-serious ms (handle_error e f) in
    let step = step-aborts e f (handle_error e f) (serious ms) r in (ih.0 ∙ step.0, ih.1 ∙ step.1)

-- Two authentication errors follow each other, with nothing but permission violations between them; `b` says that one
-- came just before.
abbrev pub repeats : Bool → List Kind → Bool
repeats b [] = false
repeats b (permission ∷ ks) = repeats b ks
repeats b (auth ∷ ks) = let rest = repeats true ks in b || rest
repeats b (other ∷ ks) = repeats false ks

abbrev pub kinds : List Text → List Kind
kinds [] = []
kinds (m ∷ ms) = kind (unquote m) ∷ kinds ms

repeats_lem :
    (b : Bool) (e : ServerError) (es : List ServerError) (ks : List Kind)
    → ((c : Bool) → two_in_row c es ≡ repeats c ks)
    → two_in_row b (if is_permission e then es else e ∷ es) ≡ repeats b (kind_of e ∷ ks)
unfolding kind_of
repeats_lem b (permission_violation m o s q) es ks ih = ih b
repeats_lem true (user_authentication_expired s) es ks ih = refl
repeats_lem false (user_authentication_expired s) es ks ih = ih true
repeats_lem true (authorization s) es ks ih = refl
repeats_lem false (authorization s) es ks ih = ih true
repeats_lem true (protocol s) es ks ih = ih false
repeats_lem false (protocol s) es ks ih = ih false

repeats-serious : (b : Bool) (ms : List Text) → two_in_row b (serious ms) ≡ repeats b (kinds ms)
repeats-serious b [] = refl
repeats-serious b (m ∷ ms) =
    repeats_lem b (to_error (unquote m)) (serious ms) (kinds ms) (λ c. repeats-serious c ms)
    ∙ ap (λ k. repeats b (k ∷ kinds ms)) (to_error-kind (unquote m))

-- After errors of the server with nothing else between them, the client is to give up exactly if it was before, or
-- if authentication errors are not ignored and two of them came with nothing but permission violations between them;
-- permission violations alone are not kept as the last error. An error is a permission violation, or else an
-- authentication error, if its text has the words for it, in upper or lower case.
pub process_errors-aborts :
    (ms : List Text) (f : Failing)
    → ((process_errors ms f).abort_reconnect ≡ (
        f.abort_reconnect
        || (repeats (was_auth f.last_error) (kinds ms) && not f.ignore_auth_error_abort)))
      × ((process_errors ms f).last_error ≡ last_of f.last_error (serious ms))
process_errors-aborts ms f =
    let r = process_errors-serious ms f in
    (
      r.0
          ∙ ap (λ b. f.abort_reconnect || (b && not f.ignore_auth_error_abort))
              (repeats-serious (was_auth f.last_error) ms),
      r.1,
    )

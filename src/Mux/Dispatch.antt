-- ===== src/Mux/Dispatch.antt =====
-- From an answer to its request in core/src/muxsubscription.ts.
use mathlib.Core.Option.{some_inj}
use nats_js.Base.{
  ℕ, ◌≡◌, refl, ap, ◌∙◌, arith, Option, none, some, List, [], ◌∷◌, ◌++◌, ◌≢◌, Text, Bytes,
  eq_text_refl, eq_text, eq_text-≡, sym, ◌⊎◌, inl, inr, Bool-cases, false, true, length, ◌==◌, ◌&&◌,
  if◌then◌else◌,
}
use nats_js.Mux.{
  Told, Request, Msg, Mux, put, lookup, remove, add, get, cancel, behind, get_token, told,
  tell_token, dispatch, failed, no_responders, answered, is_503,
}

lookup-put : (r : Request) (qs : List Request) → lookup r.token (put r qs) ≡ some r
unfolding lookup put
lookup-put r [] = ground (arith, eq_text_refl r.token)
lookup-put r (q ∷ qs) = ground (arith, eq_text_refl r.token, lookup-put r qs)

lookup-remove : (t : Text) (qs : List Request) → lookup t (remove t qs) ≡ none
unfolding lookup remove
lookup-remove t [] = refl
lookup-remove t (q ∷ qs) = ground (arith, lookup-remove t qs)

behind-append : (p t : Text) → behind p (p ++ t) ≡ some t
unfolding behind
behind-append [] t = refl
behind-append (c ∷ p) t = ground (arith, behind-append p t)

tell_token-some :
    (err : Option ℕ) (msg : Msg) (t : Text) (m : Mux) (r : Request)
    → t ≢ []
    → get t m ≡ some r
    → tell_token err msg t m ≡ some (r, told err msg r)
unfolding tell_token
tell_token-some err msg [] m r n e = ground arith
tell_token-some err msg (c ∷ t) m r n e =
    ap
      (λ o. elim o as (λ _. Option (Request × Told)) [
        | none ↦ none
        | some q ↦ some (q, told err msg q)
      ])
      e

tell_token-none :
    (err : Option ℕ) (msg : Msg) (t : Text) (m : Mux)
    → get t m ≡ none
    → tell_token err msg t m ≡ none
unfolding tell_token
tell_token-none err msg [] m e = refl
tell_token-none err msg (c ∷ t) m e =
    ap
      (λ o. elim o as (λ _. Option (Request × Told)) [
        | none ↦ none
        | some q ↦ some (q, told err msg q)
      ])
      e

-- What is answered to the inbox of a token, in a mux that keeps its inbox.
dispatch-inbox :
    (err : Option ℕ) (msg : Msg) (m : Mux) (t : Text)
    → msg.subject ≡ m.base_inbox ++ t
    → dispatch err msg m ≡ tell_token err msg t m
unfolding dispatch get_token
dispatch-inbox err msg m t e =
    ap
      (λ o. elim o as (λ _. Option (Request × Told)) [
        | none ↦ none
        | some t ↦ tell_token err msg t m
      ])
      (ap (behind m.base_inbox) e ∙ behind-append m.base_inbox t)

-- What else is asked of the mux.
pub data Change : Type 0 where
  adds : Request → Change
  cancels : Request → Change

unfoldable pub change_all : List Change → Mux → Mux
change_all [] m = m
change_all (adds q ∷ cs) m = change_all cs (add q m)
change_all (cancels q ∷ cs) m = change_all cs (cancel q m)

-- Only requests with other tokens are added and cancelled.
abbrev pub Elsewhere : Text → List Change → Type 0
Elsewhere t [] = Unit
Elsewhere t (adds q ∷ cs) = (q.token ≢ t) × Elsewhere t cs
Elsewhere t (cancels q ∷ cs) = (q.token ≢ t) × Elsewhere t cs

not_same : (s t : Text) → s ≢ t → eq_text s t ≡ false
not_same s t n = elim (Bool-cases (eq_text s t)) [
  | inl e ↦ absurd (n (eq_text-≡ s t e))
  | inr e ↦ e
]

differs :
    (q : Request) (r t : Text)
    → eq_text r t ≡ false
    → eq_text q.token r ≡ true
    → eq_text q.token t ≡ false
differs q r t n e = ap (λ x. eq_text x t) (eq_text-≡ q.token r e) ∙ n

lookup-put_other :
    (t : Text) (r : Request) (qs : List Request)
    → eq_text r.token t ≡ false
    → lookup t (put r qs) ≡ lookup t qs
unfolding lookup put
lookup-put_other t r [] n = ground arith
lookup-put_other t r (q ∷ qs) n = ground (arith, lookup-put_other t r qs n, differs q r.token t n)

lookup-remove_other :
    (t s : Text) (qs : List Request) → eq_text s t ≡ false → lookup t (remove s qs) ≡ lookup t qs
unfolding lookup remove
lookup-remove_other t s [] n = refl
lookup-remove_other t s (q ∷ qs) n = ground (arith, lookup-remove_other t s qs n, differs q s t n)

change_all-get :
    (t : Text) (cs : List Change) (m : Mux)
    → Elsewhere t cs
    → (get t (change_all cs m) ≡ get t m) × ((change_all cs m).base_inbox ≡ m.base_inbox)
unfolding change_all get add cancel
change_all-get t [] m h = (refl, refl)
change_all-get t (adds q ∷ cs) m h =
    let r = change_all-get t cs (add q m) h.1 in
    (r.0 ∙ lookup-put_other t q m.reqs (not_same q.token t h.0), r.1)
change_all-get t (cancels q ∷ cs) m h =
    let r = change_all-get t cs (cancel q m) h.1 in
    (r.0 ∙ lookup-remove_other t q.token m.reqs (not_same q.token t h.0), r.1)

-- What a request is to be told: the error, if there is one; that nobody responds, for an empty message with the status
-- 503; or else the message.
abbrev pub Hears : Option ℕ → Msg → Request → Told → Type 0
Hears (some e) msg r t = t ≡ failed e
Hears none msg r t =
    ((msg.data_bytes ≡ []) × (msg.code ≡ some 503) × (t ≡ no_responders r.request_subject))
    ⊎ ((¬ ((msg.data_bytes ≡ []) × (msg.code ≡ some 503))) × (t ≡ answered msg.data_bytes))

told-Hears : (err : Option ℕ) (msg : Msg) (r : Request) → Hears err msg r (told err msg r)
unfolding told
told-Hears (some e) msg r = refl
told-Hears none msg r = choose msg.data_bytes msg.code refl refl
  where
    choose :
        (d : Bytes) (c : Option ℕ)
        → msg.data_bytes ≡ d
        → msg.code ≡ c
        → Hears none msg r
            (if length d == 0 && is_503 c then no_responders r.request_subject else answered d)
    choose (x ∷ d) c e f =
        let z : (length (x ∷ d) == 0) ≡ false = ground arith in
        inr (
          (λ h. let y = sym e ∙ h.0 in cc),
          ap (λ b. if b && is_503 c then no_responders r.request_subject else answered (x ∷ d)) z
              ∙ ap answered (sym e),
        )
    choose [] none e f = inr ((λ h. let y = sym f ∙ h.1 in cc), ap answered (sym e))
    choose [] (some n) e f = elim (Bool-cases (n == 503)) [
      | inl q ↦
          let y : n ≡ 503 = ground arith in
          inl (
            e,
            f ∙ ap some y,
            ap (λ b. if b then no_responders r.request_subject else answered []) q,
          )
      | inr q ↦ inr (
        (λ h. let y = some_inj.0 (sym f ∙ h.1) in ground arith),
        ap (λ b. if b then no_responders r.request_subject else answered []) q
            ∙ ap answered (sym e),
      )
    ]

-- A message to the inbox of a request that was added is given to this request, whatever other requests are added and
-- cancelled meanwhile: it is told the error, if there is one; that nobody responds, if the message is empty and has the
-- status 503; or else the message. Once the request is cancelled, the message is given to none. The token of the
-- request is not empty, and no other request has it.
pub dispatch_lem :
    (err : Option ℕ) (msg : Msg) (m : Mux) (r : Request) (cs : List Change)
    → r.token ≢ []
    → Elsewhere r.token cs
    → msg.subject ≡ m.base_inbox ++ r.token
    → ((t : Told) × (dispatch err msg (change_all cs (add r m)) ≡ some (r, t)) × Hears err msg r t)
      × (dispatch err msg (change_all cs (cancel r (add r m))) ≡ none)
unfolding add get cancel
dispatch_lem err msg m r cs n o e =
    let a = change_all-get r.token cs (add r m) o in
    let c = change_all-get r.token cs (cancel r (add r m)) o in
    (
      (
        told err msg r,
        dispatch-inbox err msg (change_all cs (add r m)) r.token
              (e ∙ ap (λ x. x ++ r.token) (sym a.1))
            ∙ tell_token-some err msg r.token (change_all cs (add r m)) r n
                (a.0 ∙ lookup-put r m.reqs),
        told-Hears err msg r,
      ),
      dispatch-inbox err msg (change_all cs (cancel r (add r m))) r.token
            (e ∙ ap (λ x. x ++ r.token) (sym c.1))
          ∙ tell_token-none err msg r.token (change_all cs (cancel r (add r m)))
              (c.0 ∙ lookup-remove r.token (put r m.reqs)),
    )

-- ===== src/Protocol/Given.antt =====
-- What a subscription of core/src/protocol.ts is given while it waits, and once it is gone.
use nats_js.Base.{
  ℕ, suc, zero, ◌-◌, ◌<◌, ◌≡◌, refl, sym, ap, ◌∙◌, arith, List, [], ◌∷◌, ◌++◌, ◌==◌, Bytes, Text,
  take, inl, inr, Bool-cases, append-nil, append_assoc,
}
use nats_js.Protocol.Subscriptions.{Client, unsubscribe, subscribe, process_msg}
use nats_js.Protocol.Others.{Kept, unsubscribe-Kept, subscribe-Kept}
use nats_js.Protocol.Arrivals.{
  Event, message, subscribes, unsubscribes, messages_for, Untouched, run, Open, Gone, Open-Kept,
  Gone-Kept, process_msg-Kept,
}
use nats_js.Protocol.Limits.{process_msg-Own, process_msg-Gone}

take-nil : (n : ℕ) → take {A = ℕ} n [] ≡ []
take-nil zero = refl
take-nil (suc n) = refl

take-cons : (n r m : ℕ) (ms : List ℕ) → r < n → take (n - r) (m ∷ ms) ≡ m ∷ take (n - suc r) ms
take-cons n r m ms h = let e : n - r ≡ suc (n - suc r) = omega arith in ap (λ x. take x (m ∷ ms)) e

module _ (encode : Text → Bytes) (i s : ℕ) (given_out : 0 < s) where
  run-Gone :
      (es : List Event) (c : Client)
      → Untouched i es
      → Gone encode i s given_out c
      → ((run encode es c).objects i).given ≡ (c.objects i).given
  unfolding run
  run-Gone [] c u g = refl
  run-Gone (message k m size ∷ es) c u g =
      let z = process_msg-Gone encode i s given_out k m size c g in
      run-Gone es (process_msg encode k m size c) u z.0 ∙ z.1
  run-Gone (subscribes j ∷ es) c u g =
      let z = subscribe-Kept encode i s j c u.0 g.0 in
      run-Gone es (subscribe encode j c) u.1
        (Gone-Kept encode i s given_out c (subscribe encode j c) z g)
      ∙ ap (λ y. y.given) z.1
  run-Gone (unsubscribes j max ∷ es) c u g =
      let z = unsubscribe-Kept encode i s j max c u.0 g.0 in
      run-Gone es (unsubscribe encode j max c) u.1
        (Gone-Kept encode i s given_out c (unsubscribe encode j max c) z g)
      ∙ ap (λ y. y.given) z.1

  -- What the subscription is still given.
  abbrev pub More : ℕ → List ℕ → Client → Client → Type 0
  More n ms c d = (d.objects i).given ≡ (c.objects i).given ++ take (n - (c.objects i).received) ms

  More-Kept :
      (n : ℕ) (ms : List ℕ) (c d e : Client) → Kept encode i s c d → More n ms d e → More n ms c e
  More-Kept n ms c d e k h = h ∙ ap (λ y. y.given ++ take (n - y.received) ms) k.1

  pub run-Open :
      (n : ℕ) (es : List Event) (c : Client)
      → Untouched i es
      → Open encode i s given_out n c
      → More n (messages_for s es) c (run encode es c)
  unfolding run
  run-Open n [] c u o =
      let z : take (n - (c.objects i).received) [] ≡ [] = take-nil (n - (c.objects i).received) in
      sym (ap (λ x. (c.objects i).given ++ x) z ∙ append-nil (c.objects i).given)
  run-Open n (message k m size ∷ es) c u o = elim (Bool-cases (k == s)) [
    | inl q ↦
        let z = process_msg-Own encode i s given_out n k m size c q o in
        let d = process_msg encode k m size c in
        let low = o.3 in
        let first = take-cons n (c.objects i).received m (messages_for s es) low in
        rw q
          (elim (z.1)
            as (λ _.
              ((run encode es d).objects i).given
              ≡ (c.objects i).given ++ take (n - (c.objects i).received) (m ∷ messages_for s es)) [
                | inl y ↦
                    run-Open n es d u y.0
                    ∙ ap (λ x. x ++ take (n - (d.objects i).received) (messages_for s es)) z.0
                    ∙ ap (λ x. ((c.objects i).given ++ m ∷ []) ++ take (n - x) (messages_for s es))
                        y.1
                    ∙ append_assoc (c.objects i).given (m ∷ [])
                        (take (n - suc (c.objects i).received) (messages_for s es))
                    ∙ ap (λ x. (c.objects i).given ++ x) (sym first)
                | inr y ↦
                    let last : n - suc (c.objects i).received ≡ 0 = omega (arith, y.1) in
                    run-Gone es d u y.0
                    ∙ z.0
                    ∙ ap (λ x. (c.objects i).given ++ m ∷ take x (messages_for s es)) (sym last)
                    ∙ ap (λ x. (c.objects i).given ++ x) (sym first)
              ])
    | inr q ↦
        let z = process_msg-Kept encode i s given_out k m size c q o.0 in
        let d = process_msg encode k m size c in
        rw q (
          More-Kept n (messages_for s es) c d (run encode es d) z
            (run-Open n es d u (Open-Kept encode i s given_out n c d z o)))
  ]
  run-Open n (subscribes j ∷ es) c u o =
      let z = subscribe-Kept encode i s j c u.0 o.0 in
      More-Kept n (messages_for s es) c (subscribe encode j c)
        (run encode es (subscribe encode j c)) z
        (run-Open n es (subscribe encode j c) u.1
          (Open-Kept encode i s given_out n c (subscribe encode j c) z o))
  run-Open n (unsubscribes j max ∷ es) c u o =
      let z = unsubscribe-Kept encode i s j max c u.0 o.0 in
      More-Kept n (messages_for s es) c (unsubscribe encode j max c)
        (run encode es (unsubscribe encode j max c)) z
        (run-Open n es (unsubscribe encode j max c) u.1
          (Open-Kept encode i s given_out n c (unsubscribe encode j max c) z o))

-- ===== src/Protocol/Arrivals.antt =====
-- What can happen around a subscription of core/src/protocol.ts that has a maximum.
use mathlib.Core.Path.{subst}
use nats_js.Base.{
  ℕ, suc, ◌+◌, ◌<◌, ◌≡◌, refl, sym, ap, ◌∙◌, arith, false, Option, none, some, List, [], ◌∷◌, ◌==◌,
  if◌then◌else◌, Bytes, Text, inl, inr, Bool-cases,
}
use nats_js.Protocol.Subscriptions.{Client, lookup, unsubscribe, subscribe, deliver, process_msg}
use nats_js.Protocol.Others.{Alone, Kept, deliver-Kept}

-- What can happen: a message comes for a sid, a subscription is made, or is unsubscribed.
pub data Event : Type 0 where
  message : ℕ → ℕ → ℕ → Event
  subscribes : ℕ → Event
  unsubscribes : ℕ → Option ℕ → Event

-- The messages for a sid.
abbrev pub messages_for : ℕ → List Event → List ℕ
messages_for s [] = []
messages_for s (message k m size ∷ es) =
    let rest = messages_for s es in if k == s then m ∷ rest else rest
messages_for s (subscribes j ∷ es) = messages_for s es
messages_for s (unsubscribes j max ∷ es) = messages_for s es

-- The program asks nothing more of the subscription `i`.
abbrev pub Untouched : ℕ → List Event → Type 0
Untouched i [] = Unit
Untouched i (message k m size ∷ es) = Untouched i es
Untouched i (subscribes j ∷ es) = ((j == i) ≡ false) × Untouched i es
Untouched i (unsubscribes j max ∷ es) = ((j == i) ≡ false) × Untouched i es

module _ (encode : Text → Bytes) where
  abbrev pub step : Event → Client → Client
  step (message k m size) c = process_msg encode k m size c
  step (subscribes j) c = subscribe encode j c
  step (unsubscribes j max) c = unsubscribe encode j max c

  unfoldable pub run : List Event → Client → Client
  run [] c = c
  run (e ∷ es) c = run es (step e c)

module _ (encode : Text → Bytes) (i s : ℕ) (given_out : 0 < s) where
  -- The subscription waits for messages, up to `n`.
  abbrev pub Open : ℕ → Client → Type 0
  Open n c =
      Alone encode i s c
      × (lookup s c.table ≡ some i)
      × ((c.objects i).max ≡ some n)
      × ((c.objects i).received < n)

  abbrev pub Gone : Client → Type 0
  Gone c = Alone encode i s c × (lookup s c.table ≡ none)

  pub Open-Kept : (n : ℕ) (c d : Client) → Kept encode i s c d → Open n c → Open n d
  Open-Kept n c d k o =
      (k.0, k.2 ∙ o.1, ap (λ y. y.max) k.1 ∙ o.2, subst (λ y. y.received < n) (sym k.1) o.3)

  pub Gone-Kept : (c d : Client) → Kept encode i s c d → Gone c → Gone d
  Gone-Kept c d k g = (k.0, k.2 ∙ g.1)

  -- The counters of the client.
  abbrev pub counted : ℕ → Client → Client
  counted size c = record (c) { in_msgs = suc c.in_msgs; in_bytes = c.in_bytes + size }

  pub process_msg-found :
      (k m size : ℕ) (c : Client) (r : Option ℕ)
      → Alone encode i s c
      → lookup k c.table ≡ r
      → process_msg encode k m size c ≡ elim r as (λ _. Client) [
        | none ↦ counted size c
        | some j ↦ deliver encode j m (counted size c)
      ]
  unfolding process_msg
  process_msg-found k m size c r a e =
      let low = a.2 in
      let z : (c.sid_counter == 0) ≡ false = ground arith in
      rw z (
        ap
          (λ q. elim q as (λ _. Client) [
            | none ↦ counted size c
            | some j ↦ deliver encode j m (counted size c)
          ])
          e)

  -- A message for another sid.
  pub process_msg-Kept :
      (k m size : ℕ) (c : Client)
      → (k == s) ≡ false
      → Alone encode i s c
      → Kept encode i s c (process_msg encode k m size c)
  process_msg-Kept k m size c n a = choose (lookup k c.table) refl
    where
      choose :
          (r : Option ℕ) → lookup k c.table ≡ r → Kept encode i s c (process_msg encode k m size c)
      choose none e =
          subst (Kept encode i s c) (sym (process_msg-found k m size c none a e)) (a, refl, refl)
      choose (some j) e =
          let f : (j == i) ≡ false = elim (Bool-cases (j == i)) [
            | inl q ↦ absurd (a.3 k n (let p : j ≡ i = ground arith in e ∙ ap some p))
            | inr q ↦ q
          ] in
          subst (Kept encode i s c) (sym (process_msg-found k m size c (some j) a e))
            (deliver-Kept encode i s j m (counted size c) f a)

-- ===== src/Protocol/Maximum.antt =====
-- How many messages a subscription of core/src/protocol.ts is given.
use mathlib.Core.Path.{subst}
use nats_js.Base.{
  ℕ, suc, ◌-◌, ◌≤◌, ◌<◌, ◌≡◌, ◌≢◌, refl, sym, ap, ◌∙◌, arith, Bool, true, false, some, List, [],
  ◌++◌, ◌==◌, if◌then◌else◌, Bytes, Text, take,
}
use nats_js.Protocol.Subscriptions.{
  Sub, Client, lookup, put, set_object, add, unsub_line, is_reached, command, unsub, cancel_if,
  unsubscribe, sub, sub_limit, subscribe,
}
use nats_js.Protocol.Table.{lookup-put_other, lookup-put_same}
use nats_js.Protocol.Arrivals.{Event, messages_for, Untouched, run, Open}
use nats_js.Protocol.Limits.{set_object_self, set_self-Alone}
use nats_js.Protocol.Given.{run-Open}

-- A subscription that is not yet in the table, of a client whose sids have all been given out.
abbrev pub IsNew : ℕ → ℕ → Client → Type 0
IsNew i n c =
    ((j : ℕ) → (c.objects j).sid ≤ c.sid_counter)
    × ((k : ℕ) → lookup k c.table ≢ some i)
    × ((c.objects i).max ≡ some n)
    × ((c.objects i).received ≡ 0)
    × ((c.objects i).given ≡ [])

add-Open :
    (encode : Text → Bytes) (i n : ℕ) (c : Client)
    → IsNew i (suc n) c
    → Open encode i (suc c.sid_counter) (omega arith) (suc n) (add i c)
unfolding add
add-Open encode i n c h =
    let x : Sub = record (c.objects i) { sid = suc c.sid_counter } in
    let self = set_object_self encode i (suc c.sid_counter) (omega arith) x c in
    (
      (ap (λ y. y.sid) self, others, omega arith, elsewhere),
      lookup-put_same (suc c.sid_counter) i c.table,
      ap (λ y. y.max) self ∙ h.2,
      subst (λ y. y.received < suc n) (sym self) (let z = h.3 in omega arith),
    )
  where
    others :
        (j : ℕ)
        → (j == i) ≡ false
        → (suc c.sid_counter
            == (if j == i
                then record (c.objects i) { sid = suc c.sid_counter }
                else c.objects j).sid)
          ≡ false
    others j m = rw m (let z = h.0 j in ground arith)

    elsewhere :
        (k : ℕ)
        → (k == suc c.sid_counter) ≡ false
        → ¬ (lookup k (put (suc c.sid_counter) i c.table) ≡ some i)
    elsewhere k m e =
        h.1 k (sym (lookup-put_other k (suc c.sid_counter) i c.table (ground arith)) ∙ e)

module _ (encode : Text → Bytes) (i s : ℕ) (given_out : 0 < s) where
  -- The subscription still waits, and was given the same.
  abbrev StillOpen : ℕ → Client → Client → Type 0
  StillOpen n c d =
      Open encode i s given_out n d
      × ((d.objects i).given ≡ (c.objects i).given)
      × ((d.objects i).received ≡ (c.objects i).received)

  unsubscribe-StillOpen :
      (n : ℕ) (c : Client)
      → Open encode i s given_out n c
      → StillOpen n c (unsubscribe encode i (some n) c)
  unfolding unsubscribe unsub
  unsubscribe-StillOpen n c o = choose c.is_closed
    where
      choose :
          (b : Bool)
          → StillOpen n c (
              let d =
                (if b
                  then c
                  else set_object i
                      (record (c.objects i) { max = some n })
                      (command encode (unsub_line (c.objects i).sid (some n)) c)) in
              cancel_if encode (is_reached (d.objects i).max (d.objects i).received) i d)
      choose true =
          let low = o.3 in
          let e : is_reached (c.objects i).max (c.objects i).received ≡ false =
            ap (λ y. is_reached y (c.objects i).received) o.2 ∙ ground arith in
          rw e (o, refl, refl)
      choose false =
          let low = o.3 in
          let x : Sub = record (c.objects i) { max = some n } in
          let d : Client =
            set_object i x (command encode (unsub_line (c.objects i).sid (some n)) c) in
          let self = set_object_self encode i s given_out x c in
          let e : is_reached (d.objects i).max (d.objects i).received ≡ false =
            ap (λ y. is_reached y.max y.received) self ∙ ground arith in
          rw e (
            (
              set_self-Alone encode i s given_out x c o.0.0 o.0,
              o.1,
              ap (λ y. y.max) self,
              subst (λ y. y.received < n) (sym self) o.3,
            ),
            ap (λ y. y.given) self,
            ap (λ y. y.received) self,
          )

  sub_limit-StillOpen :
      (n : ℕ) (c : Client)
      → Open encode i s given_out (suc n) c
      → StillOpen (suc n) c (sub_limit encode i (c.objects i).max c)
  sub_limit-StillOpen n c o =
      let e : (suc n == 0) ≡ false = ground arith in
      subst (λ y. StillOpen (suc n) c (sub_limit encode i y c)) (sym o.2)
        (rw e (unsubscribe-StillOpen (suc n) c o))

-- A new subscription with a maximum above 0 is given exactly the first messages for its sid, up to its maximum,
-- whatever other messages come and whatever other subscriptions are made or end, while the program asks
-- nothing more of it.
pub run-given :
    (encode : Text → Bytes) (i n : ℕ) (c : Client) (es : List Event)
    → IsNew i (suc n) c
    → Untouched i es
    → ((run encode es (subscribe encode i c)).objects i).given
      ≡ take (suc n) (messages_for (suc c.sid_counter) es)
unfolding subscribe sub add
run-given encode i n c es h u =
    let s = suc c.sid_counter in
    let p : 0 < s = omega arith in
    let a = add-Open encode i n c h in
    let d = sub encode i (add i c) in
    let o = sub_limit-StillOpen encode i s (omega arith) n d a in
    let self = set_object_self encode i s p (record (c.objects i) { sid = s }) c in
    let e = sub_limit encode i (d.objects i).max d in
    let given : (e.objects i).given ≡ [] = o.1 ∙ ap (λ y. y.given) self ∙ h.4 in
    let received : (e.objects i).received ≡ 0 = o.2 ∙ ap (λ y. y.received) self ∙ h.3 in
    run-Open encode i s (omega arith) (suc n) es e u o.0
    ∙ ap (λ x. x ++ take (suc n - (e.objects i).received) (messages_for s es)) given
    ∙ ap (λ x. take (suc n - x) (messages_for s es)) received
    ∙ (let z : suc n - 0 ≡ suc n = omega arith in ap (λ x. take x (messages_for s es)) z)

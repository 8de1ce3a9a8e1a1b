-- ===== src/Protocol/Limits.antt =====
-- A subscription with a maximum in core/src/protocol.ts.
use mathlib.Core.Path.{subst}
use nats_js.Base.{
  ℕ, suc, ◌<◌, ◌≡◌, refl, sym, ap, ◌∙◌, arith, Bool, true, false, none, some, [], ◌∷◌, ◌++◌, leb,
  ◌==◌, if◌then◌else◌, Bytes, Text, inl, inr, ◌⊎◌, Bool-cases,
}
use nats_js.Protocol.Subscriptions.{
  Sub, Client, lookup, remove, set_object, close_sub, cancel, unsub_line, is_reached, is_full,
  command, unsub, cancel_if, unsubscribe, deliver, process_msg,
}
use nats_js.Protocol.Table.{lookup-remove_other, lookup-remove_same}
use nats_js.Protocol.Others.{Alone, close_sub-sid}
use nats_js.Protocol.Arrivals.{Open, Gone, counted, Gone-Kept, process_msg-found, process_msg-Kept}

module _ (encode : Text → Bytes) (i s : ℕ) (given_out : 0 < s) where
  pub set_object_self : (x : Sub) (c : Client) → (set_object i x c).objects i ≡ x
  set_object_self x c = (let e : (i == i) ≡ true = ground arith in rw e refl)

  pub set_self-Alone :
      (x : Sub) (c : Client) → x.sid ≡ s → Alone encode i s c → Alone encode i s (set_object i x c)
  set_self-Alone x c e a =
      (ap (λ y. y.sid) (set_object_self x c) ∙ e, λ j n. rw n (a.1 j n), a.2, a.3)

  removed-Gone :
      (c : Client)
      → Alone encode i s c
      → Gone encode i s given_out (record (c) { table = remove s c.table })
  removed-Gone c a = ((a.0, a.1, a.2, elsewhere), lookup-remove_same s c.table)
    where
      elsewhere : (j : ℕ) → (j == s) ≡ false → ¬ (lookup j (remove s c.table) ≡ some i)
      elsewhere j m e = a.3 j m (sym (lookup-remove_other j s c.table (ground arith)) ∙ e)

  -- The state `d` has the subscription out of the table, with what it was given in `c`.
  abbrev pub Closed : Client → Client → Type 0
  Closed c d = Gone encode i s given_out d × ((d.objects i).given ≡ (c.objects i).given)

  cancel-Closed : (c : Client) → Alone encode i s c → Closed c (cancel i c)
  unfolding cancel
  cancel-Closed c a =
      let x = close_sub (c.objects i) in
      let k = close_sub-sid (c.objects i) in
      let d : Client = set_object i x c in
      let g = removed-Gone d (set_self-Alone x c (k.0 ∙ a.0) a) in
      (
        subst (λ y. Gone encode i s given_out (record (d) { table = remove y c.table })) (sym a.0)
            g,
        ap (λ y. y.given) (set_object_self x c) ∙ k.1,
      )

  unsubscribe-Closed :
      (c : Client)
      → Alone encode i s c
      → is_reached (c.objects i).max (c.objects i).received ≡ true
      → Closed c (unsubscribe encode i none c)
  unfolding unsubscribe unsub
  unsubscribe-Closed c a r = choose c.is_closed
    where
      choose :
          (b : Bool)
          → Closed c (
              let d =
                (if b
                  then c
                  else set_object i
                      (record (c.objects i) { max = none })
                      (command encode (unsub_line (c.objects i).sid none) c)) in
              cancel_if encode (is_reached (d.objects i).max (d.objects i).received) i d)
      choose true = rw r (cancel-Closed c a)
      choose false =
          let x : Sub = record (c.objects i) { max = none } in
          let d : Client = set_object i x (command encode (unsub_line (c.objects i).sid none) c) in
          let e : is_reached (d.objects i).max (d.objects i).received ≡ true =
            ap (λ y. is_reached y.max y.received) (set_object_self x c) in
          let k = cancel-Closed d (set_self-Alone x c a.0 a) in
          rw e (k.0, k.1 ∙ ap (λ y. y.given) (set_object_self x c))

  -- A message for the subscription: it is given, and the subscription waits for more, or has had its number.
  abbrev pub Own : ℕ → ℕ → Client → Client → Type 0
  Own n m c d =
      ((d.objects i).given ≡ (c.objects i).given ++ m ∷ [])
      × ((Open encode i s given_out n d × ((d.objects i).received ≡ suc (c.objects i).received))
          ⊎ (Gone encode i s given_out d × (n ≡ suc (c.objects i).received)))

  deliver-Own :
      (n m : ℕ) (c : Client) → Open encode i s given_out n c → Own n m c (deliver encode i m c)
  unfolding deliver
  deliver-Own n m c o = choose (is_full (c.objects i).max (suc (c.objects i).received)) refl
    where
      choose :
          (b : Bool)
          → is_full (c.objects i).max (suc (c.objects i).received) ≡ b
          → Own n m c (
              let t : Sub = record (c.objects i) {
                received = suc (c.objects i).received;
                timer = false;
                given = (c.objects i).given ++ m ∷ [];
              } in
              if b then unsubscribe encode i none (set_object i t c) else set_object i t c)
      choose true q =
          let t : Sub = record (c.objects i) {
            received = suc (c.objects i).received;
            timer = false;
            given = (c.objects i).given ++ m ∷ [];
          } in
          let d : Client = set_object i t c in
          let full : leb n (suc (c.objects i).received) ≡ true =
            subst (λ y. is_full y (suc (c.objects i).received) ≡ true) o.2 q in
          let e : is_reached (d.objects i).max (d.objects i).received ≡ true =
            ap (λ y. is_reached y.max y.received) (set_object_self t c)
            ∙ ap (λ y. is_reached y (suc (c.objects i).received)) o.2
            ∙ full in
          let k = unsubscribe-Closed d (set_self-Alone t c o.0.0 o.0) e in
          let low = o.3 in (k.1 ∙ ap (λ y. y.given) (set_object_self t c), inr (k.0, ground arith))
      choose false q =
          let t : Sub = record (c.objects i) {
            received = suc (c.objects i).received;
            timer = false;
            given = (c.objects i).given ++ m ∷ [];
          } in
          let self = set_object_self t c in
          let more : leb n (suc (c.objects i).received) ≡ false =
            subst (λ y. is_full y (suc (c.objects i).received) ≡ false) o.2 q in
          (
            ap (λ y. y.given) self,
            inl (
              (
                set_self-Alone t c o.0.0 o.0,
                o.1,
                ap (λ y. y.max) self ∙ o.2,
                subst (λ y. y.received < n) (sym self) (ground arith),
              ),
              ap (λ y. y.received) self,
            ),
          )

  pub process_msg-Own :
      (n k m size : ℕ) (c : Client)
      → (k == s) ≡ true
      → Open encode i s given_out n c
      → Own n m c (process_msg encode k m size c)
  process_msg-Own n k m size c q o =
      let p : k ≡ s = ground arith in
      subst (Own n m c)
        (sym (
          process_msg-found encode i s given_out k m size c (some i) o.0
            (ap (λ y. lookup y c.table) p ∙ o.1)))
        (deliver-Own n m (counted encode i s given_out size c) o)

  pub process_msg-Gone :
      (k m size : ℕ) (c : Client)
      → Gone encode i s given_out c
      → Closed c (process_msg encode k m size c)
  process_msg-Gone k m size c g = elim (Bool-cases (k == s)) [
    | inl q ↦
        let p : k ≡ s = ground arith in
        subst (Closed c)
          (sym (
            process_msg-found encode i s given_out k m size c none g.0
              (ap (λ y. lookup y c.table) p ∙ g.1)))
          (g, refl)
    | inr q ↦
        let z = process_msg-Kept encode i s given_out k m size c q g.0 in
        (
          Gone-Kept encode i s given_out c (process_msg encode k m size c) z g,
          ap (λ y. y.given) z.1,
        )
  ]

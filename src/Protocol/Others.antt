-- ===== src/Protocol/Others.antt =====
-- What happens to other subscriptions leaves a subscription of core/src/protocol.ts alone.
use nats_js.Base.{
  ℕ, suc, ◌≤◌, ◌≡◌, ◌≢◌, refl, sym, ap, ◌∙◌, arith, Bool, true, false, Option, none, some, [], ◌∷◌,
  ◌++◌, ◌==◌, if◌then◌else◌, Bytes, Text, inl, inr, Bool-cases,
}
use nats_js.Protocol.Subscriptions.{
  Sub, Client, lookup, put, remove, set_object, close_sub, cancel, add, unsub_line, is_reached,
  is_full, command, unsub, cancel_if, unsubscribe, sub, sub_limit, subscribe, deliver,
}
use nats_js.Protocol.Table.{
  lookup-put_other, lookup-put_same, lookup-remove_other, lookup-remove_same,
}

abbrev closing : Sub → Bool → Bool → Sub
closing s a b =
    if a
    then s
    else if b
    then record (s) { timer = false; done = true; closed = true }
    else record (s) { timer = false; closings = suc s.closings }

pub close_sub-sid : (s : Sub) → ((close_sub s).sid ≡ s.sid) × ((close_sub s).given ≡ s.given)
unfolding close_sub
close_sub-sid s = choose s.done s.no_iterator
  where
    choose : (a b : Bool) → ((closing s a b).sid ≡ s.sid) × ((closing s a b).given ≡ s.given)
    choose true b = (refl, refl)
    choose false true = (refl, refl)
    choose false false = (refl, refl)

module _ (encode : Text → Bytes) (i s : ℕ) where
  -- The subscription `i` alone has the sid `s`, which has been given out.
  abbrev pub Alone : Client → Type 0
  Alone c =
      ((c.objects i).sid ≡ s)
      × ((j : ℕ) → (j == i) ≡ false → (s == (c.objects j).sid) ≡ false)
      × (s ≤ c.sid_counter)
      × ((k : ℕ) → (k == s) ≡ false → lookup k c.table ≢ some i)

  -- What others do leaves the subscription alone.
  abbrev pub Kept : Client → Client → Type 0
  Kept c d = Alone d × (d.objects i ≡ c.objects i) × (lookup s d.table ≡ lookup s c.table)

  pub Kept-refl : (c : Client) → Alone c → Kept c c
  Kept-refl c a = (a, refl, refl)

  pub Kept-trans : (c d e : Client) → Kept c d → Kept d e → Kept c e
  Kept-trans c d e x y = (y.0, y.1 ∙ x.1, y.2 ∙ x.2)

  set_object-Kept :
      (j : ℕ) (x : Sub) (c : Client)
      → (j == i) ≡ false
      → (s == x.sid) ≡ false
      → Alone c
      → Kept c (set_object j x c)
  set_object-Kept j x c n f a =
      let e : (i == j) ≡ false = ground arith in
      let same : (if i == j then x else c.objects i) ≡ c.objects i = rw e refl in
      ((ap (λ y. y.sid) same ∙ a.0, others, a.2, a.3), same, refl)
    where
      others : (k : ℕ) → (k == i) ≡ false → (s == (if k == j then x else c.objects k).sid) ≡ false
      others k m = elim (Bool-cases (k == j)) [ inl q ↦ rw q f | inr q ↦ rw q (a.1 k m) ]

  remove-Kept :
      (k : ℕ) (c : Client)
      → (k == s) ≡ false
      → Alone c
      → Kept c (record (c) { table = remove k c.table })
  remove-Kept k c n a =
      ((a.0, a.1, a.2, λ j m e. elsewhere j m e), refl, lookup-remove_other s k c.table n)
    where
      elsewhere : (j : ℕ) → (j == s) ≡ false → ¬ (lookup j (remove k c.table) ≡ some i)
      elsewhere j m e = elim (Bool-cases (k == j)) [
        | inl q ↦
            let p : k ≡ j = ground arith in
            let z = ap (λ y. lookup j (remove y c.table)) p ∙ lookup-remove_same j c.table in
            ground arith
        | inr q ↦ a.3 j m (sym (lookup-remove_other j k c.table q) ∙ e)
      ]

  unsub-Kept :
      (j : ℕ) (max : Option ℕ) (c : Client)
      → (j == i) ≡ false
      → Alone c
      → Kept c (unsub encode j max c)
  unfolding unsub
  unsub-Kept j max c n a = choose c.is_closed
    where
      choose :
          (b : Bool)
          → Kept c (
              if b
              then c
              else set_object j
                  (record (c.objects j) { max = max })
                  (command encode (unsub_line (c.objects j).sid max) c))
      choose true = Kept-refl c a
      choose false =
          set_object-Kept j (record (c.objects j) { max = max })
            (command encode (unsub_line (c.objects j).sid max) c) n (a.1 j n) a

  cancel-Kept : (j : ℕ) (c : Client) → (j == i) ≡ false → Alone c → Kept c (cancel j c)
  unfolding cancel
  cancel-Kept j c n a =
      let d : Client = set_object j (close_sub (c.objects j)) c in
      let o = a.1 j n in
      let k =
        set_object-Kept j (close_sub (c.objects j)) c n
          (ap (λ y. s == y) (close_sub-sid (c.objects j)).0 ∙ o) a in
      Kept-trans c d (record (d) { table = remove (c.objects j).sid c.table }) k
        (remove-Kept (c.objects j).sid d (ground arith) k.0)

  pub unsubscribe-Kept :
      (j : ℕ) (max : Option ℕ) (c : Client)
      → (j == i) ≡ false
      → Alone c
      → Kept c (unsubscribe encode j max c)
  unfolding unsubscribe
  unsubscribe-Kept j max c n a = choose (
      is_reached ((unsub encode j max c).objects j).max ((unsub encode j max c).objects j).received)
    where
      choose : (b : Bool) → Kept c (cancel_if encode b j (unsub encode j max c))
      choose true =
          let k = unsub-Kept j max c n a in
          Kept-trans c (unsub encode j max c) (cancel j (unsub encode j max c)) k
            (cancel-Kept j (unsub encode j max c) n k.0)
      choose false = unsub-Kept j max c n a

  add-Kept : (j : ℕ) (c : Client) → (j == i) ≡ false → Alone c → Kept c (add j c)
  unfolding add
  add-Kept j c n a =
      let low = a.2 in
      let f : (s == suc c.sid_counter) ≡ false = ground arith in
      let k = set_object-Kept j (record (c.objects j) { sid = suc c.sid_counter }) c n f a in
      (
        (k.0.0, k.0.1, omega arith, elsewhere),
        k.1,
        lookup-put_other s (suc c.sid_counter) j c.table (ground arith),
      )
    where
      elsewhere :
          (k : ℕ) → (k == s) ≡ false → ¬ (lookup k (put (suc c.sid_counter) j c.table) ≡ some i)
      elsewhere k m e = elim (Bool-cases (suc c.sid_counter == k)) [
        | inl q ↦
            let p : suc c.sid_counter ≡ k = ground arith in
            let z = ap (λ y. lookup k (put y j c.table)) p ∙ lookup-put_same k j c.table in
            ground arith
        | inr q ↦ a.3 k m (sym (lookup-put_other k (suc c.sid_counter) j c.table q) ∙ e)
      ]

  sub_limit-Kept :
      (j : ℕ) (max : Option ℕ) (c : Client)
      → (j == i) ≡ false
      → Alone c
      → Kept c (sub_limit encode j max c)
  sub_limit-Kept j none c n a = Kept-refl c a
  sub_limit-Kept j (some x) c n a = choose (x == 0)
    where
      choose : (b : Bool) → Kept c (if b then c else unsubscribe encode j (some x) c)
      choose true = Kept-refl c a
      choose false = unsubscribe-Kept j (some x) c n a

  pub subscribe-Kept :
      (j : ℕ) (c : Client) → (j == i) ≡ false → Alone c → Kept c (subscribe encode j c)
  unfolding subscribe sub
  subscribe-Kept j c n a =
      let k = add-Kept j c n a in
      let d = sub encode j (add j c) in
      Kept-trans c d (sub_limit encode j (d.objects j).max d) k
        (sub_limit-Kept j (d.objects j).max d n k.0)

  pub deliver-Kept :
      (j m : ℕ) (c : Client) → (j == i) ≡ false → Alone c → Kept c (deliver encode j m c)
  unfolding deliver
  deliver-Kept j m c n a = choose (is_full (c.objects j).max (suc (c.objects j).received))
    where
      choose :
          (b : Bool)
          → Kept c (
              let t : Sub = record (c.objects j) {
                received = suc (c.objects j).received;
                timer = false;
                given = (c.objects j).given ++ m ∷ [];
              } in
              if b then unsubscribe encode j none (set_object j t c) else set_object j t c)
      choose b =
          let t : Sub = record (c.objects j) {
            received = suc (c.objects j).received;
            timer = false;
            given = (c.objects j).given ++ m ∷ [];
          } in
          let k = set_object-Kept j t c n (a.1 j n) a in
          elim b
            as (λ b.
              Kept c
                (if b then unsubscribe encode j none (set_object j t c) else set_object j t c)) [
                  | true ↦
                      Kept-trans c (set_object j t c) (unsubscribe encode j none (set_object j t c))
                        k (unsubscribe-Kept j none (set_object j t c) n k.0)
                  | false ↦ k
                ]

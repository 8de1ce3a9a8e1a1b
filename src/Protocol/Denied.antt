-- ===== src/Protocol/Denied.antt =====
-- The subscription that a permission violation ends in core/src/protocol.ts.
use mathlib.Core.Path.{subst}
use nats_js.Base.{
  ℕ, ◌≡◌, refl, sym, ap, ◌∙◌, arith, Bool, true, false, not, Option, none, some, List, [], ◌∷◌,
  ◌++◌, ◌==◌, if◌then◌else◌, Text, inl, inr, Bool-cases,
}
use nats_js.Protocol.Failures.{Operation}
use nats_js.Protocol.Subscriptions.{Sub, Client, lookup, remove, close_sub}
use nats_js.Protocol.Permissions.{concerns, find, fail_callback, is_mux, end_sub, handle_error}
use nats_js.Protocol.Table.{lookup-remove_other, lookup-remove_same}

-- The test holds for none of the subscriptions of a table.
abbrev pub misses : (Sub → Bool) → List (ℕ × ℕ) → (ℕ → Sub) → Bool
misses p [] o = true
misses p ((k, i) ∷ t) o = let rest = misses p t o in if p (o i) then false else rest

find-first :
    (p : Sub → Bool) (before after : List (ℕ × ℕ)) (n i : ℕ) (o : ℕ → Sub)
    → misses p before o ≡ true
    → p (o i) ≡ true
    → find p (before ++ (n, i) ∷ after) o ≡ some i
unfolding find
find-first p [] after n i o m h = rw h refl
find-first p ((k, j) ∷ t) after n i o m h = elim (Bool-cases (p (o j))) [
  | inl q ↦ absurd (
      let z : false ≡ true = sym (ap (λ b. if b then false else misses p t o) q) ∙ m in
      ground arith)
  | inr q ↦
      rw q (find-first p t after n i o (sym (ap (λ b. if b then false else misses p t o) q) ∙ m) h)
]

-- The subscription is told the error, done, and has no timer.
abbrev pub Ended : Text → Sub → Sub → Type 0
Ended m s t =
    (t.done ≡ true)
    × (t.timer ≡ false)
    × (t.failures ≡ s.failures ++ m ∷ [])
    × (t.sid ≡ s.sid)
    × (t.given ≡ s.given)

close_sub-fail_callback :
    (m : Text) (s : Sub) → s.done ≡ false → Ended m s (close_sub (fail_callback m s))
unfolding close_sub fail_callback
close_sub-fail_callback m s d = elim (Bool-cases s.no_iterator) [
  | inl q ↦ rw (q, d) (refl, refl, refl, refl, refl)
  | inr q ↦ rw (q, d) (refl, refl, refl, refl, refl)
]

-- The subscription `i` alone is ended, and its sid is out of the table; `j` is another one, and `k` another sid.
abbrev pub Ends : Text → ℕ → ℕ → ℕ → Option ℕ → Client → Client × Bool → Type 0
Ends m i j k mux c (d, b) =
    Ended m (c.objects i) (d.objects i)
    × (lookup (c.objects i).sid d.table ≡ none)
    × (d.objects j ≡ c.objects j)
    × (lookup k d.table ≡ lookup k c.table)
    × (b ≡ not (is_mux i mux))

end_sub-Ends :
    (m : Text) (i j k : ℕ) (mux : Option ℕ) (c : Client)
    → (c.objects i).done ≡ false
    → (j == i) ≡ false
    → ((c.objects i).sid == k) ≡ false
    → Ends m i j k mux c (end_sub m i mux c)
unfolding end_sub
end_sub-Ends m i j k mux c d f g =
    let s = close_sub (fail_callback m (c.objects i)) in
    let e = close_sub-fail_callback m (c.objects i) d in
    let same : (i == i) ≡ true = ground arith in
    let at : s ≡ (if i == i then s else c.objects i) = rw same refl in
    (
      subst (Ended m (c.objects i)) at e,
      ap (λ x. lookup x (remove s.sid c.table)) (sym e.3) ∙ lookup-remove_same s.sid c.table,
      rw f refl,
      lookup-remove_other k s.sid c.table (ap (λ x. x == k) e.3 ∙ g),
      refl,
    )

-- If some subscription of the table is the first that a permission violation concerns, and it is not closed, then it
-- alone is ended: it is told the error, once, is closed, has no timer, keeps its messages, and its sid is out of the
-- table; other subscriptions are what they were, and so are the places of other sids; the result says whether it is
-- not that of the mux.
pub handle_error-Ends :
    (m : Text) (op : Operation) (subject : Text) (queue : Option Text) (mux : Option ℕ) (c : Client)
    (before after : List (ℕ × ℕ)) (n i j k : ℕ)
    → c.table ≡ before ++ (n, i) ∷ after
    → misses (concerns op subject queue) before c.objects ≡ true
    → concerns op subject queue (c.objects i) ≡ true
    → (c.objects i).done ≡ false
    → (j == i) ≡ false
    → ((c.objects i).sid == k) ≡ false
    → Ends m i j k mux c (handle_error m op subject queue mux c)
unfolding handle_error
handle_error-Ends m op subject queue mux c before after n i j k t b h d f g =
    let p = concerns op subject queue in
    let found : find p c.table c.objects ≡ some i =
      ap (λ x. find p x c.objects) t ∙ find-first p before after n i c.objects b h in
    subst
      (λ r.
        Ends m i j k mux c
          (elim r as (λ _. Client × Bool) [ none ↦ (c, false) | some x ↦ end_sub m x mux c ]))
      (sym found) (end_sub-Ends m i j k mux c d f g)

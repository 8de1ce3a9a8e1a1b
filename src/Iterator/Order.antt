-- ===== src/Iterator/Order.antt =====
-- What `next` of core/src/queued_iterator.ts answers, for what was pushed.
use mathlib.Core.Path.{ap₂, subst}
use nats_js.Base.{
  ◌==◌, if◌then◌else◌, inl, inr, ◌⊎◌, ◌&&◌, not, ◌≡◌, refl, sym, ap, ◌∙◌, arith, ℕ, suc, Bool, true,
  false, Option, none, some, List, [], ◌∷◌, ◌++◌, append-nil, length,
}
use nats_js.Iterator.{Iter, Item}
use nats_js.Iterator.Step.{
  next_round, take_batch, Answer, yielded, finished, threw, waits, drain_batch, end_batch, next,
  rounds, round, swap_in, values,
}
use nats_js.Iterator.Batch.{waiting, Yields, drain_batch-Yields}

and_left : (a b : Bool) → (a && b) ≡ true → a ≡ true
and_left a b h = ground arith

module _ {T E : Type 0} where
  -- When a call of `next` may finish: from a `yield`, once the batch of this `yield` is through, and what was queued
  -- after it is dropped; else only if nothing waits.
  abbrev pub Finishes : Bool → Iter T E → Type 0
  Finishes true it = values it.batch ≡ []
  Finishes false it = waiting it ≡ []

  -- What a call of `next` answers, for what waits.
  abbrev pub Delivers : Bool → Iter T E → Iter T E × Answer T E → Type 0
  Delivers inside it (it', yielded v) = waiting it ≡ v ∷ waiting it'
  Delivers inside it (it', waits) = (waiting it ≡ []) × (waiting it' ≡ [])
  Delivers inside it (it', finished) = Finishes inside it
  Delivers inside it (it', threw e) = Unit

  Finishes-same :
      (inside : Bool) (it g : Iter T E)
      → values it.batch ≡ []
      → waiting it ≡ waiting g
      → waiting g ≡ []
      → Finishes inside it
  Finishes-same true it g b e h = b
  Finishes-same false it g b e h = e ∙ h

  Delivers-same :
      (inside : Bool) (it g : Iter T E) (r : Iter T E × Answer T E)
      → values it.batch ≡ []
      → waiting it ≡ waiting g
      → Delivers false g r
      → Delivers inside it r
  Delivers-same inside it g (r, yielded v) b e h = e ∙ h
  Delivers-same inside it g (r, waits) b e h = (e ∙ h.0, h.1)
  Delivers-same inside it g (r, finished) b e h = Finishes-same inside it g b e h
  Delivers-same inside it g (r, threw x) b e h = tt

  next_round-Delivers :
      (inside closed : Bool) (again : Iter T E → Iter T E × Answer T E) (it g : Iter T E)
      → Finishes inside it
      → values it.batch ≡ []
      → waiting it ≡ waiting g
      → Delivers false g (again g)
      → Delivers inside it (next_round closed again g)
  unfolding next_round
  next_round-Delivers inside true again it g f b e h = f
  next_round-Delivers inside false again it g f b e h = Delivers-same inside it g (again g) b e h

  end_batch-Delivers :
      (inside : Bool) (again : Iter T E → Iter T E × Answer T E) (it : Iter T E)
      (r : Iter T E × Option (Answer T E))
      → Yields it r
      → (values it.batch ≡ [] → Finishes inside it)
      → ((g : Iter T E) → values g.batch ≡ [] → g.yields ≡ it.yields → Delivers false g (again g))
      → Delivers inside it (end_batch again r)
  unfolding end_batch
  end_batch-Delivers inside again it (g, some (yielded v)) h f more = h
  end_batch-Delivers inside again it (g, some finished) h f more = absurd h
  end_batch-Delivers inside again it (g, some (threw x)) h f more = tt
  end_batch-Delivers inside again it (g, some waits) h f more = absurd h
  end_batch-Delivers inside again it (g, none) h f more =
      next_round-Delivers inside g.is_done again it g (f h.0) h.0
        (ap₂ (λ s t. s ++ values t) (h.0 ∙ sym h.1) (sym h.2)) (more g h.1 h.2)

  -- A round takes what is queued.
  round-taken :
      (again : Iter T E → Iter T E × Answer T E) (it : Iter T E)
      → values it.batch ≡ []
      → ((g : Iter T E) → values g.batch ≡ [] → g.yields ≡ [] → Delivers false g (again g))
      → Delivers false it (end_batch again (drain_batch (swap_in it).batch (swap_in it)))
  round-taken again it b more =
      Delivers-same false it (swap_in it)
        (end_batch again (drain_batch (swap_in it).batch (swap_in it))) b
        (unfold swap_in in ap (λ s. s ++ values it.yields) b ∙ sym (append-nil (values it.yields)))
        (end_batch-Delivers false again (swap_in it) (drain_batch (swap_in it).batch (swap_in it))
          (drain_batch-Yields (swap_in it).batch (swap_in it) refl)
          (λ e. unfold swap_in in (append-nil (values it.yields) ∙ unfold swap_in in e))
          (λ g gb gy. more g gb (gy ∙ unfold swap_in in refl)))

  take_batch-Delivers :
      (idle : Bool) (e : Option E) (again : Iter T E → Iter T E × Answer T E) (it : Iter T E)
      → (idle ≡ true → waiting it ≡ [])
      → values it.batch ≡ []
      → ((g : Iter T E) → values g.batch ≡ [] → g.yields ≡ [] → Delivers false g (again g))
      → Delivers false it (take_batch idle e again it)
  unfolding take_batch
  take_batch-Delivers true e again it w b more = (w refl, w refl)
  take_batch-Delivers false (some e) again it w b more = tt
  take_batch-Delivers false none again it w b more = round-taken again it b more

  no_values : (xs : List (Item T E)) → (length xs == 0) ≡ true → values xs ≡ []
  no_values [] h = refl
  no_values (x ∷ xs) h = ground arith

  idle_waiting :
      (it : Iter T E)
      → values it.batch ≡ []
      → ((length it.yields == 0) && not it.is_done) ≡ true
      → waiting it ≡ []
  idle_waiting it b h =
      ap₂ (λ s t. s ++ t) b
        (no_values it.yields (and_left (length it.yields == 0) (not it.is_done) h))

  round-Delivers :
      (again : Iter T E → Iter T E × Answer T E) (it : Iter T E)
      → values it.batch ≡ []
      → ((g : Iter T E) → values g.batch ≡ [] → g.yields ≡ [] → Delivers false g (again g))
      → Delivers false it (round again it)
  unfolding round
  round-Delivers again it b more = take_batch-Delivers _ it.err again it (idle_waiting it b) b more

  stopped_round :
      (again : Iter T E → Iter T E × Answer T E) (it g : Iter T E)
      → waiting it ≡ []
      → g.is_done ≡ true
      → Delivers false it (end_batch again (drain_batch [] g))
  unfolding end_batch drain_batch
  stopped_round again it g w d =
      subst (λ c. Delivers false it (next_round c again (record g { batch = [] }))) (sym d) w

  empty_round :
      (d : Bool) (e : Option E) (again : Iter T E → Iter T E × Answer T E) (it : Iter T E)
      → it.is_done ≡ d
      → waiting it ≡ []
      → it.yields ≡ []
      → Delivers false it (take_batch (not d) e again it)
  unfolding take_batch
  empty_round false e again it d w y = (w, w)
  empty_round true (some e) again it d w y = tt
  empty_round true none again it d w y =
      subst (λ ys. Delivers false it (end_batch again (drain_batch ys (swap_in it)))) (sym y)
        (stopped_round again it (swap_in it) w (unfold swap_in in d))

  -- With nothing queued a round asks for no other.
  round-empty :
      (again : Iter T E → Iter T E × Answer T E) (it : Iter T E)
      → values it.batch ≡ []
      → it.yields ≡ []
      → Delivers false it (round again it)
  unfolding round
  round-empty again it b y =
      subst (λ c. Delivers false it (take_batch c it.err again it))
        (sym (ap (λ ys. (length ys == 0) && not it.is_done) y))
        (empty_round it.is_done it.err again it refl (ap₂ (λ s t. s ++ values t) b y) y)

  rounds-Delivers :
      (n : ℕ) (it : Iter T E) → values it.batch ≡ [] → Delivers false it (rounds (suc (suc n)) it)
  unfolding rounds
  rounds-Delivers n it b =
      round-Delivers (rounds (suc n)) it b (λ k kb ky. round-empty (rounds n) k kb ky)

  -- A batch is only held while the generator stands at its `yield`.
  abbrev pub IsPlaced : Iter T E → Type 0
  IsPlaced it = (it.inside ≡ true) ⊎ (values it.batch ≡ [])

  -- If a batch is held only at a `yield`, and a call of `next` answers a value, it is the one that waits first, and
  -- the others are left in their order; it waits for more only if nothing is left to be yielded. From the beginning,
  -- or from its wait, it finishes only if nothing is left; from a `yield`, only if nothing is left of the batch. Two
  -- rounds are enough.
  pub next-Delivers :
      (n : ℕ) (it : Iter T E) → IsPlaced it → Delivers it.inside it (next (suc (suc n)) it)
  unfolding next
  next-Delivers n it placed = choose it.inside refl placed
    where
      choose :
          (b : Bool)
          → it.inside ≡ b
          → (b ≡ true) ⊎ (values it.batch ≡ [])
          → Delivers b it (
              if b
              then end_batch (rounds (suc (suc n))) (drain_batch it.batch it)
              else rounds (suc (suc n)) it)
      choose true e p =
          end_batch-Delivers true (rounds (suc (suc n))) it (drain_batch it.batch it)
            (drain_batch-Yields it.batch it refl) (λ h. h) (λ g gb gy. rounds-Delivers n g gb)
      choose false e (inl q) = ground arith
      choose false e (inr q) = rounds-Delivers n it q

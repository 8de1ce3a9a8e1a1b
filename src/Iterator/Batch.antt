-- ===== src/Iterator/Batch.antt =====
-- What a batch of core/src/queued_iterator.ts yields, for what waits.
use mathlib.Core.Path.{ap₂}
use nats_js.Base.{
  ◌≡◌, refl, sym, ap, ◌∙◌, arith, ◌+◌, ◌-◌, false, Option, none, some, List, [], ◌∷◌, ◌++◌,
  append_assoc, length,
}
use nats_js.Iterator.{Iter, Item, Effect, value, call, run_effect, stop, push}
use nats_js.Iterator.Step.{
  Answer, yielded, finished, threw, waits, drain_batch, values, calls, after_call,
}

module _ {T E : Type 0} where
  -- What is still to be yielded.
  abbrev pub waiting : Iter T E → List T
  waiting it = values it.batch ++ values it.yields

  values-append : (xs ys : List (Item T E)) → values (xs ++ ys) ≡ values xs ++ values ys
  values-append [] ys = refl
  values-append (value v ∷ xs) ys = ap (◌∷◌ v) (values-append xs ys)
  values-append (call f ∷ xs) ys = values-append xs ys

  pub calls-append : (xs ys : List (Item T E)) → calls (xs ++ ys) ≡ calls xs + calls ys
  calls-append [] ys = omega arith
  calls-append (value v ∷ xs) ys = calls-append xs ys
  calls-append (call f ∷ xs) ys = omega (arith, calls-append xs ys)

  pub length-values : (xs : List (Item T E)) → length xs ≡ length (values xs) + calls xs
  length-values [] = omega arith
  length-values (value v ∷ xs) = omega (arith, length-values xs)
  length-values (call f ∷ xs) = omega (arith, length-values xs)

  -- A value that an open iterator is given waits behind the others.
  waiting-push :
      (it : Iter T E) (v : T)
      → it.is_done ≡ false
      → it.did_break ≡ false
      → waiting (push (value v) it) ≡ waiting it ++ v ∷ []
  unfolding push
  waiting-push it v d b = ground (
    arith,
    values-append it.yields (value v ∷ []),
    append_assoc (values it.batch) (values it.yields) (v ∷ []),
  )

  -- What a batch answers, for what it holds.
  abbrev pub Yields : Iter T E → Iter T E × Option (Answer T E) → Type 0
  Yields it (it', some (yielded v)) = waiting it ≡ v ∷ waiting it'
  Yields it (it', none) =
      (values it.batch ≡ []) × (values it'.batch ≡ []) × (it'.yields ≡ it.yields)
  Yields it (it', some waits) = ⊥
  Yields it (it', some finished) = ⊥
  Yields it _ = Unit

  pub run_effect-keeps :
      (f : Effect E) (it : Iter T E)
      → ((run_effect f it).0.batch ≡ it.batch)
        × ((run_effect f it).0.yields ≡ it.yields)
        × ((run_effect f it).0.inflight ≡ it.inflight)
        × ((run_effect f it).0.pending_filtered ≡ it.pending_filtered)
  unfolding run_effect stop
  run_effect-keeps f it = ground arith

  Yields-same :
      (it g : Iter T E) (r : Iter T E × Option (Answer T E))
      → values it.batch ≡ values g.batch
      → it.yields ≡ g.yields
      → Yields g r
      → Yields it r
  Yields-same it g (r, some (yielded v)) b y h = ap₂ (λ s t. s ++ values t) b y ∙ h
  Yields-same it g (r, some finished) b y h = h
  Yields-same it g (r, some (threw e)) b y h = tt
  Yields-same it g (r, some waits) b y h = h
  Yields-same it g (r, none) b y h = (b ∙ h.0, h.1, h.2 ∙ sym y)

  -- The iterator as a callback of the batch finds it, and as it leaves it.
  abbrev pub called : Effect E → List (Item T E) → Iter T E → Iter T E × Option E
  called f rest it =
      run_effect f (record it { batch = rest; pending_filtered = it.pending_filtered - 1 })

  Yields-call :
      (f : Effect E) (rest : List (Item T E)) (it : Iter T E) (set : Option E)
      → Yields it (drain_batch rest (called f rest it).0)
      → after_call (called f rest it).1 (called f rest it).0.err (called f rest it).0 ≡ set
      → Yields it (drain_batch (call f ∷ rest) it)
  unfolding drain_batch
  Yields-call f rest it none h e = rw (e, drain_batch) h
  Yields-call f rest it (some x) h e = rw (e, drain_batch) tt

  pub drain_batch-Yields :
      (batch : List (Item T E)) (it : Iter T E)
      → it.batch ≡ batch
      → Yields it (drain_batch batch it)
  drain_batch-Yields [] it e = unfold drain_batch in (ap values e, refl, refl)
  drain_batch-Yields (value v ∷ rest) it e =
      unfold drain_batch in ap (λ b. values b ++ values it.yields) e
  drain_batch-Yields (call f ∷ rest) it e =
      let keeps =
        run_effect-keeps f
          (record it { batch = rest; pending_filtered = it.pending_filtered - 1 }) in
      Yields-call f rest it _
        (Yields-same it (called f rest it).0 (drain_batch rest (called f rest it).0)
          (ap values e ∙ ap values (sym keeps.0)) (sym keeps.1)
          (drain_batch-Yields rest (called f rest it).0 keeps.0))
        refl

-- ===== src/Iterator/Pending.antt =====
-- `getPending` of core/src/queued_iterator.ts, against the values that are still to be yielded.
use nats_js.Base.{
  ◌≡◌, refl, ap, ◌∙◌, arith, ℕ, suc, ◌+◌, ◌-◌, ◌≤◌, Option, none, some, List, [], ◌∷◌, length,
  length-append,
}
use nats_js.Iterator.{Iter, Item, Effect, value, call, get_pending, push}
use nats_js.Iterator.Step.{Answer, drain_batch, swap_in, after_call, values, calls}
use nats_js.Iterator.Batch.{waiting, length-values, calls-append, run_effect-keeps, called}

module _ {T E : Type 0} where
  -- The counters, when `ran` callbacks of the batch have been run: a callback leaves `pendingFiltered`
  -- when it is run, and `inflight` only with its batch.
  pub record IsCounted (it : Iter T E) (ran : ℕ) : Type 0 where
    pub in_flight : it.inflight ≡ length it.batch + ran
    pub filtered : it.pending_filtered ≡ calls it.batch + calls it.yields

  get_pending-IsCounted :
      (it : Iter T E) (ran : ℕ) → IsCounted it ran → get_pending it ≡ length (waiting it) + ran
  unfolding get_pending
  get_pending-IsCounted it ran c = omega (
    arith,
    length-values it.batch,
    length-values it.yields,
    length-append (values it.batch) (values it.yields),
  )

  -- A new batch has run no callback.
  swap_in-IsCounted :
      (it : Iter T E) {ran : ℕ} → it.batch ≡ [] → IsCounted it ran → IsCounted (swap_in it) 0
  unfolding swap_in
  swap_in-IsCounted it e c = record {
    in_flight = omega arith;
    filtered = omega (arith, ap calls e);
  }

  push-IsCounted :
      (v : Item T E) (it : Iter T E) (ran : ℕ) → IsCounted it ran → IsCounted (push v it) ran
  unfolding push
  push-IsCounted (value v) it ran c = ground (arith, calls-append it.yields (value v ∷ []))
  push-IsCounted (call f) it ran c = ground (arith, calls-append it.yields (call f ∷ []))

  called-IsCounted :
      (f : Effect E) (rest : List (Item T E)) (it : Iter T E) (ran : ℕ)
      → it.batch ≡ call f ∷ rest
      → IsCounted it ran
      → IsCounted (called f rest it).0 (suc ran)
  called-IsCounted f rest it ran e c =
      let k =
        run_effect-keeps f
          (record it { batch = rest; pending_filtered = it.pending_filtered - 1 }) in
      record {
        in_flight = omega (arith, k.2, ap length e, ap length k.0);
        filtered = omega (arith, k.3, ap calls e, ap calls k.0, ap calls k.1);
      }

  -- How many callbacks a batch has run when `drain_batch` returns.
  abbrev pub Ran : List (Item T E) → ℕ → Iter T E × Option (Answer T E) → Type 0
  Ran batch ran r =
      (calls r.0.batch ≤ calls batch) × IsCounted r.0 (ran + (calls batch - calls r.0.batch))

  Ran-call :
      (f : Effect E) (rest : List (Item T E)) (it : Iter T E) (ran : ℕ) (set : Option E)
      → IsCounted (called f rest it).0 (suc ran)
      → (called f rest it).0.batch ≡ rest
      → Ran rest (suc ran) (drain_batch rest (called f rest it).0)
      → after_call (called f rest it).1 (called f rest it).0.err (called f rest it).0 ≡ set
      → Ran (call f ∷ rest) ran (drain_batch (call f ∷ rest) it)
  unfolding drain_batch
  Ran-call f rest it ran none c b h e =
      rw (e, drain_batch)
        (
          omega (arith, h.0),
          record { in_flight = omega (arith, h.0, h.1.in_flight); filtered = h.1.filtered },
        )
  Ran-call f rest it ran (some x) c b h e =
      rw (e, drain_batch)
        (
          omega (arith, ap calls b),
          record { in_flight = omega (arith, ap calls b, c.in_flight); filtered = c.filtered },
        )

  drain_batch-Ran :
      (batch : List (Item T E)) (it : Iter T E) (ran : ℕ)
      → it.batch ≡ batch
      → IsCounted it ran
      → Ran batch ran (drain_batch batch it)
  drain_batch-Ran [] it ran e c =
      unfold drain_batch in
      (
        omega arith,
        record {
          in_flight = omega (arith, c.in_flight, ap length e);
          filtered = omega (arith, c.filtered, ap calls e);
        },
      )
  drain_batch-Ran (value v ∷ rest) it ran e c =
      unfold drain_batch in
      (
        omega arith,
        record {
          in_flight = omega (arith, c.in_flight, ap length e);
          filtered = omega (arith, c.filtered, ap calls e);
        },
      )
  drain_batch-Ran (call f ∷ rest) it ran e c =
      let k =
        run_effect-keeps f
          (record it { batch = rest; pending_filtered = it.pending_filtered - 1 }) in
      let c' = called-IsCounted f rest it ran e c in
      Ran-call f rest it ran _ c' k.0 (drain_batch-Ran rest (called f rest it).0 (suc ran) k.0 c')
        refl

  -- If the counters are right when a batch begins, `getPending` then counts the values that are still to be
  -- yielded, and with them each callback that the batch has run.
  pub get_pending-drain_batch :
      (it : Iter T E)
      → IsCounted it 0
      → get_pending (drain_batch it.batch it).0
        ≡ length (waiting (drain_batch it.batch it).0)
          + (calls it.batch - calls (drain_batch it.batch it).0.batch)
  get_pending-drain_batch it c =
      get_pending-IsCounted (drain_batch it.batch it).0 _ (drain_batch-Ran it.batch it 0 refl c).1
      ∙ omega arith

-- ===== src/Iterator/Step.antt =====
-- `iterate` of core/src/queued_iterator.ts.
use nats_js.Base.{
  ◌||◌, ◌&&◌, not, ◌==◌, ℕ, zero, suc, ◌+◌, ◌-◌, Bool, true, false, Option, none, some, List, [],
  ◌∷◌, length, if◌then◌else◌,
}
use nats_js.Iterator.{Iter, Item, value, call, run_effect, stop}

-- What a call of the generator's `next` answers: a value, the end, an error, or not yet, where the
-- generator waits for the signal that `push` and `stop` give.
pub data Answer (T E : Type 0) : Type 0 where
  yielded : T → Answer T E
  finished : Answer T E
  threw : E → Answer T E
  waits : Answer T E

module _ {T E : Type 0} where
  -- `finally`: the iterator is marked, and stopped.
  unfoldable pub leave : Answer T E → Iter T E → Iter T E × Answer T E
  unfolding stop
  leave a it = (stop none (record it { did_break = true; batch = []; inside = true }), a)

  -- After a callback: what it threw, or an error that it set, ends the loop.
  unfoldable pub after_call : Option E → Option E → Iter T E → Option E
  after_call (some e) set it = some e
  after_call none set it = set

  -- One item of the batch: a value is yielded, a callback is run.
  unfoldable pub drain_batch : List (Item T E) → Iter T E → Iter T E × Option (Answer T E)
  unfolding run_effect after_call
  drain_batch [] it = (record it { batch = [] }, none)
  drain_batch (value v ∷ rest) it = (
    record it {
      batch = rest;
      processed = it.processed + 1;
      inflight = it.inflight - 1;
      inside = true;
    },
    some (yielded v),
  )
  drain_batch (call f ∷ rest) it =
      let ran =
        run_effect f (record it { batch = rest; pending_filtered = it.pending_filtered - 1 }) in
      elim (after_call ran.1 ran.0.err ran.0) [
        | some e ↦ (ran.0, some (threw e))
        | none ↦ drain_batch rest ran.0
      ]

  -- The batch is swapped in.
  unfoldable pub swap_in : Iter T E → Iter T E
  swap_in it = record it { inflight = length it.yields; batch = it.yields; yields = [] }

  -- `if (this.done) break`; otherwise the next round.
  unfoldable pub next_round :
      Bool → (Iter T E → Iter T E × Answer T E) → Iter T E → Iter T E × Answer T E
  unfolding leave
  next_round true again it = leave finished it
  next_round false again it = again it

  -- What the loop does with the outcome of a batch.
  unfoldable pub end_batch :
      (Iter T E → Iter T E × Answer T E) → Iter T E × Option (Answer T E) → Iter T E × Answer T E
  unfolding next_round
  end_batch again (it, some (threw e)) = leave (threw e) it
  end_batch again (it, some a) = (it, a)
  end_batch again (it, none) = next_round it.is_done again it

  -- The wait for the signal, the look at the error, and the batch.
  unfoldable pub take_batch :
      Bool → Option E → (Iter T E → Iter T E × Answer T E) → Iter T E → Iter T E × Answer T E
  unfolding end_batch drain_batch swap_in
  take_batch true e again it = (record it { inside = false }, waits)
  take_batch false (some e) again it = leave (threw e) it
  take_batch false none again it =
      let taken = swap_in it in end_batch again (drain_batch taken.batch taken)

  -- One round of `while (true)`. With no items queued the signal is resolved only once the iterator is
  -- stopped.
  unfoldable pub round : (Iter T E → Iter T E × Answer T E) → Iter T E → Iter T E × Answer T E
  unfolding take_batch
  round again it = take_batch ((length it.yields == 0) && not it.is_done) it.err again it

  -- The rounds that follow one another with no `yield`. A callback of the model pushes nothing, so
  -- that a second round finds the queue empty, and two rounds are enough.
  unfoldable pub rounds : ℕ → Iter T E → Iter T E × Answer T E
  rounds zero it = (record it { inside = false }, waits)
  rounds (suc n) it = round (rounds n) it

  -- A call of `next`: from a `yield` the batch goes on; from the beginning, and from the `await` once the signal is
  -- resolved, a round begins, which waits as long as the signal is not. The test for an empty queue is made again
  -- behind the `await`, where it only says whether the signal is resolved.
  unfoldable pub next : ℕ → Iter T E → Iter T E × Answer T E
  unfolding end_batch drain_batch
  next fuel it =
      if it.inside then end_batch (rounds fuel) (drain_batch it.batch it) else rounds fuel it

  -- `iterate` called: the two guards. `invalid` is the error that they throw.
  unfoldable pub iterate : E → Iter T E → Iter T E × Option E
  iterate invalid it =
      if it.no_iterator || it.yielding
      then (it, some invalid)
      else (record it { yielding = true }, none)

  -- `break` in the consumer's loop.
  unfoldable pub break_loop : Iter T E → Iter T E
  unfolding leave
  break_loop it = (leave finished it).0

-- The values that are queued or in the batch, in order.
abbrev pub values : {T E : Type 0} → List (Item T E) → List T
values [] = []
values (value v ∷ items) = v ∷ values items
values (call f ∷ items) = values items

abbrev pub calls : {T E : Type 0} → List (Item T E) → ℕ
calls [] = 0
calls (value v ∷ items) = calls items
calls (call f ∷ items) = suc (calls items)

-- ===== src/Iterator.antt =====
-- core/src/queued_iterator.ts: the queue between the protocol and a `for await` loop. The generator
-- `iterate` is cut at its `yield` and at its `await`: `next` is the call that runs it up to the next of
-- these, or to its end. A queued callback is modelled by what it does to the iterator.
pub mod Step
pub mod Batch
pub mod Order
pub mod Pending
use nats_js.Base.{
  ℕ, ◌+◌, ◌-◌, Bool, true, false, Option, none, some, List, [], ◌∷◌, ◌++◌, length, if◌then◌else◌,
  ltb,
}

-- What a callback that was pushed does: nothing, throw, or stop the iterator (with an error or not).
pub data Effect (E : Type 0) : Type 0 where
  nothing : Effect E
  throws : E → Effect E
  stops : Option E → Effect E

-- `(T | CallbackFn)`
pub data Item (T E : Type 0) : Type 0 where
  value : T → Item T E
  call : Effect E → Item T E

-- `batch` is what is left of the generator's local `yields`. `inside` says that the generator stands at its `yield`,
-- or has ended; otherwise it stands at its beginning or its `await`. `closed` is what `iterClosed` was resolved with. `pending_filtered` is never
-- negative, since each decrement answers the push of a callback.
pub record Iter (T E : Type 0) : Type 0 where
  pub inflight : ℕ
  pub processed : ℕ
  pub received : ℕ
  pub filtered : ℕ
  pub pending_filtered : ℕ
  pub no_iterator : Bool
  pub is_done : Bool
  pub did_break : Bool
  pub yielding : Bool
  pub yields : List (Item T E)
  pub batch : List (Item T E)
  pub inside : Bool
  pub err : Option E
  pub closed : Option (Option E)

module _ {T E : Type 0} where
  abbrev pub new_iter : Iter T E
  new_iter = record {
    inflight = 0;
    processed = 0;
    received = 0;
    filtered = 0;
    pending_filtered = 0;
    no_iterator = false;
    is_done = false;
    did_break = false;
    yielding = false;
    yields = [];
    batch = [];
    inside = false;
    err = none;
    closed = none;
  }

  unfoldable pub stop : Option E → Iter T E → Iter T E
  stop e it = if it.is_done then it else record it { err = e; is_done = true; closed = some e }

  -- A callback that throws hands its error to whoever calls it.
  unfoldable pub run_effect : Effect E → Iter T E → Iter T E × Option E
  unfolding stop
  run_effect nothing it = (it, none)
  run_effect (throws e) it = (it, some e)
  run_effect (stops e) it = (stop e it, none)

  -- `push` after a `break`: a callback is run, and what it throws is ignored.
  unfoldable pub push_broken : Item T E → Iter T E → Iter T E
  unfolding run_effect
  push_broken (value v) it = it
  push_broken (call f) it = (run_effect f it).0

  unfoldable pub enqueue : Item T E → Iter T E → Iter T E
  enqueue (value v) it = record it { yields = it.yields ++ value v ∷ [] }
  enqueue (call f) it = record it {
    yields = it.yields ++ call f ∷ [];
    pending_filtered = it.pending_filtered + 1;
  }

  unfoldable pub push : Item T E → Iter T E → Iter T E
  unfolding push_broken enqueue
  push v it = if it.is_done then it else if it.did_break then push_broken v it else enqueue v it

  unfoldable pub get_processed : Iter T E → ℕ
  get_processed it = if it.no_iterator then it.received else it.processed

  -- `this.yields.length + this.inflight - this.pendingFiltered`
  unfoldable pub get_pending : Iter T E → ℕ
  get_pending it = length it.yields + it.inflight - it.pending_filtered

  unfoldable pub get_received : Iter T E → ℕ
  get_received it = it.received - it.filtered

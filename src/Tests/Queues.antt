-- ===== src/Tests/Queues.antt =====
-- The queues of core/src/databuffer.ts and core/src/queued_iterator.ts.
use mathlib.Core.List.{flatten}
use nats_js.Base.{ℕ, ◌≡◌, refl, false, [], ◌∷◌, ◌++◌, none, some, inr, length, ◌+◌, ◌-◌}
use nats_js.Buffers.DataBuffer.{DataBuffer, drain, fill, contents}
use nats_js.Buffers.DataBuffer.Contents
use nats_js.Buffers.DataBuffer.Contents.{Drains, drain-Drains, contents-fill}
use nats_js.Iterator.{Iter, value, call, nothing, push, stop, new_iter, get_pending}
use nats_js.Iterator.Step.{
  next, drain_batch, rounds, round, take_batch, calls, swap_in, yielded, threw,
}
use nats_js.Iterator.Batch.{waiting}
use nats_js.Iterator.Order.{Delivers, next-Delivers}
use nats_js.Iterator.Pending
use nats_js.Iterator.Pending.{get_pending-drain_batch}

abbrev chunks : DataBuffer
chunks = record { buffers = (1 ∷ 2 ∷ []) ∷ (3 ∷ []) ∷ []; byte_length = 3 }

chunks-IsCounted : Contents.IsCounted chunks
unfolding flatten
chunks-IsCounted = refl

drain-Drains_example : Drains (some 2) chunks (drain (some 2) chunks)
drain-Drains_example = drain-Drains (some 2) chunks chunks-IsCounted

contents-fill_example :
    (contents (fill (4 ∷ []) ([] ∷ (5 ∷ []) ∷ []) chunks)
      ≡ contents chunks ++ (4 ∷ [] ++ flatten ([] ∷ (5 ∷ []) ∷ [])))
    × Contents.IsCounted (fill (4 ∷ []) ([] ∷ (5 ∷ []) ∷ []) chunks)
contents-fill_example = contents-fill (4 ∷ []) ([] ∷ (5 ∷ []) ∷ []) chunks chunks-IsCounted

abbrev three : Iter ℕ ℕ
three = push (value 7) (push (call nothing) (push (call nothing) new_iter))

next-Delivers_example : Delivers false three (next 2 three)
unfolding push
next-Delivers_example = next-Delivers 0 three (inr refl)

-- What was queued before the iterator was stopped is still yielded, and an error is thrown.
stopped_yields : (next 2 (stop none three)).1 ≡ yielded 7
unfolding next drain_batch rounds round take_batch swap_in push stop
stopped_yields = refl

stopped_throws : (next 2 (stop (some 9) three)).1 ≡ threw 9
unfolding next drain_batch rounds round take_batch swap_in push stop
stopped_throws = refl

abbrev running : Iter ℕ ℕ
running = swap_in three

running-IsCounted : Pending.IsCounted running 0
unfolding push swap_in
running-IsCounted = record { in_flight = refl; filtered = refl }

get_pending-drain_batch_example :
    get_pending (drain_batch running.batch running).0
    ≡ length (waiting (drain_batch running.batch running).0)
      + (calls running.batch - calls (drain_batch running.batch running).0.batch)
get_pending-drain_batch_example = get_pending-drain_batch running running-IsCounted

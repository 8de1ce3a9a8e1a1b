-- ===== src/Requests/Many.antt =====
-- `RequestManyEnd` and `RequestMany` of core/src/request.ts.
use mathlib.Core.List.{map}
use nats_js.Base.{
  ◌≡◌, Bool, true, false, Option, none, some, List, [], ◌∷◌, ◌++◌, if◌then◌else◌, Bytes,
}
use nats_js.Requests.Enders.{
  Fault, Verdict, go_on, finish, fail, Options, Timer, Ender, timer, start_ender, stop_ender,
  ender_msg, new_enders,
}

-- The calls of the user's callback: a message, an error, and the end that has neither.
pub data Callback : Type 0 where
  delivered : Bytes → Callback
  failed : Fault → Callback
  ended : Callback

-- `done` is that of `RequestManyEnd`, `resolved` the deferred of `RequestMany`, `told` whether what waits for
-- the deferred has run, and `registered` whether the mux subscription has the request.
pub record Many : Type 0 where
  pub enders : List Ender
  pub done : Bool
  pub registered : Bool
  pub resolved : Bool
  pub told : Bool
  pub calls : List Callback

-- A request as it starts, when the connection has added it to the mux subscription.
unfoldable pub new_many : Options → Many
unfolding start_ender new_enders
new_many o = record {
  enders = map start_ender (new_enders o);
  done = false;
  registered = true;
  resolved = false;
  told = false;
  calls = [];
}

unfoldable pub stop : Many → Many
unfolding stop_ender
stop r = record r { done = true; enders = map stop_ender r.enders }

abbrev pub call_failed : Option Fault → Many → Many
call_failed none r = r
call_failed (some e) r = record r { calls = r.calls ++ failed e ∷ [] }

-- `RequestMany.cancel`
unfoldable pub cancel : Option Fault → Many → Many
unfolding stop
cancel err r = record (stop (call_failed err r)) { registered = false; resolved = true }

-- `RequestManyEnd.end`, whose `onEnd` is `cancel`.
unfoldable pub end : Option Fault → Many → Many
unfolding stop cancel
end err r = if r.done then r else cancel err (stop r)

-- The loop over the enders: the first that does not answer true is the last that is asked.
unfoldable pub msg_enders : Bytes → List Ender → List Ender × Verdict
unfolding ender_msg
msg_enders m [] = ([], go_on)
msg_enders m (e ∷ es) =
    let r = ender_msg m e in
    elim r.1 [
      | go_on ↦ let rest = msg_enders m es in (r.0 ∷ rest.0, rest.1)
      | finish ↦ (r.0 ∷ es, finish)
      | fail f ↦ (r.0 ∷ es, fail f)
    ]

-- What follows the loop, or ends it.
unfoldable pub conclude : Verdict → Many → Many
unfolding end
conclude go_on r = r
conclude finish r = end none r
conclude (fail e) r = end (some e) r

-- `RequestManyEnd.msg`; nothing in the loop but its own `end` sets `done`.
unfoldable pub msg : Bytes → Many → Many
unfolding msg_enders conclude
msg m r =
    if r.done then r else let a = msg_enders m r.enders in conclude a.1 (record r { enders = a.0 })

unfoldable pub resolver : Option Fault → Bytes → Many → Many
unfolding cancel msg
resolver (some e) m r = cancel (some e) r
resolver none m r = msg m (record r { calls = r.calls ++ delivered m ∷ [] })

-- What waits for the deferred: the callback is called without a message and without an error.
unfoldable pub tell : Many → Many
tell r = record r { told = true; calls = r.calls ++ ended ∷ [] }

pub data Mem {ℓ} {A : Type ℓ} (a : A) : List A → Type ℓ where
  found : {xs : List A} → Mem a (a ∷ xs)
  further : {b : A} {xs : List A} → Mem a xs → Mem a (b ∷ xs)

-- What may happen: a timer that is set; while the mux subscription has the request, an answer, an error,
-- or its cancellation; once it has ended, a cancellation without an error; and the deferred's continuation, once.
pub data Happens : Many → Many → Type 0 where
  fires : {r : Many} {t : Timer} → Mem (timer t) r.enders → t.armed ≡ true → Happens r (end t.err r)
  answers :
      {r : Many} (err : Option Fault) (m : Bytes)
      → r.registered ≡ true
      → Happens r (resolver err m r)
  cancels : {r : Many} (err : Option Fault) → r.registered ≡ true → Happens r (cancel err r)
  cancels_ended : {r : Many} → r.registered ≡ false → Happens r (cancel none r)
  tells : {r : Many} → r.resolved ≡ true → r.told ≡ false → Happens r (tell r)

pub data Reaches (r : Many) : Many → Type 0 where
  here : Reaches r r
  then_ : {q s : Many} → Reaches r q → Happens q s → Reaches r s

-- ===== src/Requests/Course.antt =====
-- The course of a request many in core/src/request.ts: what its callback sees, and in what state it rests.
use mathlib.Core.List.{map}
use mathlib.Core.Path.{subst}
use nats_js.Base.{
  ◌≡◌, refl, sym, arith, true, false, Option, none, some, List, [], ◌∷◌, ◌++◌, if◌then◌else◌, Bytes,
  ◌⊎◌, inl, inr,
}
use nats_js.Requests.Enders.{
  Fault, Verdict, go_on, finish, fail, Options, Ender, timer, check, stop_ender, stop_timer,
}
use nats_js.Requests.Many.{
  Callback, delivered, failed, ended, Many, new_many, stop, cancel, end, msg_enders, msg, conclude,
  resolver, tell, Happens, fires, answers, cancels, cancels_ended, tells, Reaches, here, then_,
}

-- Where the calls of a callback stand: messages come, an error came, the end came.
pub data Phase : Type 0 where
  coming broken closed : Phase

-- Messages, then at most one error, then at most one end, which is the last call.
pub data Called : List Callback → Phase → Type 0 where
  nothing : Called [] coming
  a_message :
      {cs : List Callback} (m : Bytes) → Called cs coming → Called (cs ++ delivered m ∷ []) coming
  an_error :
      {cs : List Callback} (e : Fault) → Called cs coming → Called (cs ++ failed e ∷ []) broken
  an_end : {cs : List Callback} → Called cs coming → Called (cs ++ ended ∷ []) closed
  an_end_after : {cs : List Callback} → Called cs broken → Called (cs ++ ended ∷ []) closed

-- No timer is set.
abbrev pub Quiet : List Ender → Type 0
Quiet [] = Unit
Quiet (timer t ∷ es) = (t.armed ≡ false) × Quiet es
Quiet (check c ∷ es) = Quiet es

-- The stages of a request: under way, over, and over with its callback told.
pub data Stage (r : Many) : Type 0 where
  going :
      r.done ≡ false
      → r.registered ≡ true
      → r.resolved ≡ false
      → r.told ≡ false
      → Called r.calls coming
      → Stage r
  over :
      (p : Phase)
      → r.done ≡ true
      → r.registered ≡ false
      → r.resolved ≡ true
      → Quiet r.enders
      → Called r.calls p
      → ((r.told ≡ false) × ((p ≡ coming) ⊎ (p ≡ broken))) ⊎ ((r.told ≡ true) × (p ≡ closed))
      → Stage r

Quiet-stop_ender : (es : List Ender) → Quiet (map stop_ender es)
unfolding stop_ender stop_timer
Quiet-stop_ender [] = tt
Quiet-stop_ender (timer t ∷ es) = (refl, Quiet-stop_ender es)
Quiet-stop_ender (check c ∷ es) = Quiet-stop_ender es

cancel-Stage :
    (err : Option Fault) (r : Many) → r.told ≡ false → Called r.calls coming → Stage (cancel err r)
unfolding cancel stop
cancel-Stage none r t c =
    over coming refl refl refl (Quiet-stop_ender r.enders) c (inl (t, inl refl))
cancel-Stage (some e) r t c =
    over broken refl refl refl (Quiet-stop_ender r.enders) (an_error e c) (inl (t, inr refl))

end-Stage : (err : Option Fault) (r : Many) → Stage r → Stage (end err r)
unfolding end stop
end-Stage err r (going d g v t c) =
    subst (λ x. Stage (if x then r else cancel err (stop r))) (sym d)
      (cancel-Stage err (stop r) t c)
end-Stage err r (over p d g v q c s) =
    subst (λ x. Stage (if x then r else cancel err (stop r))) (sym d) (over p d g v q c s)

-- The new states of the enders do not matter to the stage of a request under way.
conclude-Stage : (v : Verdict) (q : Many) → Stage q → Stage (conclude v q)
unfolding conclude
conclude-Stage go_on q s = s
conclude-Stage finish q s = end-Stage none q s
conclude-Stage (fail e) q s = end-Stage (some e) q s

msg-Stage :
    (m : Bytes) (r : Many)
    → r.done ≡ false
    → r.registered ≡ true
    → r.resolved ≡ false
    → r.told ≡ false
    → Called r.calls coming
    → Stage (msg m r)
unfolding msg
msg-Stage m r d g v t c =
    let a = msg_enders m r.enders in
    let q = record r { enders = a.0 } in
    subst (λ x. Stage (if x then r else conclude a.1 q)) (sym d)
      (conclude-Stage a.1 q (going d g v t c))

resolver-Stage :
    (err : Option Fault) (m : Bytes) (r : Many)
    → r.registered ≡ true
    → Stage r
    → Stage (resolver err m r)
unfolding resolver
resolver-Stage none m r h (going d g v t c) = msg-Stage m _ d g v t (a_message m c)
resolver-Stage (some e) m r h (going d g v t c) = cancel-Stage (some e) r t c
resolver-Stage err m r h (over p d g v q c s) = ground arith

tell-Stage :
    (r : Many) (p : Phase)
    → r.done ≡ true
    → r.registered ≡ false
    → r.resolved ≡ true
    → Quiet r.enders
    → Called r.calls p
    → ((r.told ≡ false) × ((p ≡ coming) ⊎ (p ≡ broken))) ⊎ ((r.told ≡ true) × (p ≡ closed))
    → r.told ≡ false
    → Stage (tell r)
unfolding tell
tell-Stage r coming d g v q c s f = over closed d g v q (an_end c) (inr (refl, refl))
tell-Stage r broken d g v q c s f = over closed d g v q (an_end_after c) (inr (refl, refl))
tell-Stage r closed d g v q c s f = ground arith

cancel_ended-Stage :
    (r : Many) (p : Phase)
    → Called r.calls p
    → ((r.told ≡ false) × ((p ≡ coming) ⊎ (p ≡ broken))) ⊎ ((r.told ≡ true) × (p ≡ closed))
    → Stage (cancel none r)
unfolding cancel stop
cancel_ended-Stage r p c s = over p refl refl refl (Quiet-stop_ender r.enders) c s

Happens-Stage : {r s : Many} → Happens r s → Stage r → Stage s
unfolding tell
Happens-Stage {r = r} (fires {t = t} m a) s = end-Stage t.err r s
Happens-Stage {r = r} (answers err m g) s = resolver-Stage err m r g s
Happens-Stage {r = r} (cancels err h) (going d g v t c) = cancel-Stage err r t c
Happens-Stage {r = r} (cancels err h) (over p d g v q c s) = ground arith
Happens-Stage {r = r} (cancels_ended h) (going d g v t c) = ground arith
Happens-Stage {r = r} (cancels_ended h) (over p d g v q c s) = cancel_ended-Stage r p c s
Happens-Stage (tells v f) (going d g w t c) = ground arith
Happens-Stage {r = r} (tells v f) (over p d g w q c s) = tell-Stage r p d g w q c s f

-- In every state that a request many comes to, its callback has seen messages, then at most one error, then at
-- most one end, with nothing after. As long as it is not done, it is registered and its callback has seen
-- only messages. Once it is done, no timer is set, the mux subscription has lost it, and its deferred is resolved;
-- the callback has the end exactly if what waits for the deferred has run.
pub Reaches-Stage : (o : Options) {r : Many} → Reaches (new_many o) r → Stage r
unfolding new_many
Reaches-Stage o here = going refl refl refl refl nothing
Reaches-Stage o (then_ p h) = Happens-Stage h (Reaches-Stage o p)

-- ===== src/Requests/Limits.antt =====
-- A request many of core/src/request.ts and its longest wait.
use nats_js.Base.{
  ℕ, ◌≡◌, refl, ap, ◌∙◌, arith, Bool, true, false, Option, none, some, List, ◌∷◌, if◌then◌else◌,
  Bytes, ◌⊎◌, inl, inr,
}
use nats_js.Requests.Enders.{
  Fault, Verdict, go_on, finish, fail, Options, max_mode, Ender, timer, finite_wait, new_enders,
  start_ender, ender_msg, new_timer, arm,
}
use nats_js.Requests.Many.{
  Many, new_many, stop, cancel, end, msg_enders, msg, resolver, conclude, tell, Happens, fires,
  answers, cancels, cancels_ended, tells, Reaches, here, then_,
}

abbrev limit : ℕ → Ender
limit ms = timer (record { ms = ms; mode = max_mode; err = none; armed = true })

-- Done, or with the timer of `maxWait` set.
abbrev pub Limited : ℕ → Many → Type 0
Limited ms r = (r.done ≡ true) ⊎ ((es : List Ender) × (r.enders ≡ limit ms ∷ es))

end-done : (err : Option Fault) (r : Many) → (end err r).done ≡ true
unfolding end cancel stop
end-done err r = ground arith

new_many-Limited :
    (o : Options) (ms : ℕ) → finite_wait o.max_wait ≡ some ms → Limited ms (new_many o)
unfolding new_many new_enders start_ender new_timer arm
new_many-Limited o ms e = rw e (inr (_, refl))

conclude-Limited : (ms : ℕ) (v : Verdict) (r : Many) → Limited ms r → Limited ms (conclude v r)
unfolding conclude
conclude-Limited ms go_on r h = h
conclude-Limited ms finish r h = inl (end-done none r)
conclude-Limited ms (fail e) r h = inl (end-done (some e) r)

msg_enders-limit :
    (ms : ℕ) (m : Bytes) (es : List Ender)
    → (fs : List Ender) × ((msg_enders m (limit ms ∷ es)).0 ≡ limit ms ∷ fs)
unfolding msg_enders ender_msg
msg_enders-limit ms m es = (_, refl)

msg-Limited : (ms : ℕ) (m : Bytes) (r : Many) → Limited ms r → Limited ms (msg m r)
unfolding msg
msg-Limited ms m r h = at (r.done) refl h
  where
    at :
        (d : Bool)
        → r.done ≡ d
        → Limited ms r
        → Limited ms (
            if d
            then r
            else conclude
                (msg_enders m r.enders).1
                (record r { enders = (msg_enders m r.enders).0 }))
    at true e h = inl e
    at false e (inl f) = ground arith
    at false e (inr (es, f)) =
        let l = msg_enders-limit ms m es in
        conclude-Limited ms (msg_enders m r.enders).1
          (record r { enders = (msg_enders m r.enders).0 })
          (inr (l.0, ap (λ x. (msg_enders m x).0) f ∙ l.1))

Happens-Limited : (ms : ℕ) {r s : Many} → Happens r s → Limited ms r → Limited ms s
unfolding resolver cancel stop tell
Happens-Limited ms {r = r} (fires {t = t} m a) h = inl (end-done t.err r)
Happens-Limited ms {r = r} (answers none m g) h = msg-Limited ms m _ h
Happens-Limited ms {r = r} (answers (some e) m g) h = inl refl
Happens-Limited ms {r = r} (cancels none g) h = inl refl
Happens-Limited ms {r = r} (cancels (some e) g) h = inl refl
Happens-Limited ms {r = r} (cancels_ended g) h = inl refl
Happens-Limited ms {r = r} (tells v f) h = h

-- With a finite `maxWait`, a request many is in every state that it comes to done, or its timer for `maxWait`
-- is set and has no error to end it with.
pub Reaches-Limited :
    (o : Options) (ms : ℕ) {r : Many}
    → finite_wait o.max_wait ≡ some ms
    → Reaches (new_many o) r
    → Limited ms r
Reaches-Limited o ms e here = new_many-Limited o ms e
Reaches-Limited o ms e (then_ p h) = Happens-Limited ms h (Reaches-Limited o ms e p)

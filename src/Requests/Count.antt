-- ===== src/Requests/Count.antt =====
-- A request many of core/src/request.ts whose strategy is a count.
use mathlib.Core.List.{map}
use mathlib.Core.Path.{subst}
use nats_js.Base.{
  ℕ, zero, suc, append-nil, append_assoc, ◌≡◌, refl, sym, ap, ◌∙◌, arith, true, false, not, Option,
  none, some, List, [], ◌∷◌, ◌++◌, if◌then◌else◌, Bytes, ℤ, pos, negsuc, length, take, leb,
}
use nats_js.Requests.Enders.{
  useful_stall, stall_timeout, Check, when_some, timed_out, Fault, Verdict, go_on, finish, fail,
  Options, Timer, Mode, max_mode, first_mode, stall_mode, by_count, request_many_strategy, positive,
  Ender, timer, check, counting, pred_ℤ, is_zero, while_true, finite_wait, new_enders, start_ender,
  ender_msg, new_timer, arm, run_check, stop_timer,
}
use nats_js.Requests.Many.{
  delivered, Many, new_many, stop, cancel, end, msg_enders, msg, resolver, conclude,
}

-- The last ender counts, and stands at `c`.
data Counts (c : ℤ) : List Ender → Type 0 where
  last : Counts c (check (counting c) ∷ [])
  after : {t : Timer} {es : List Ender} → Counts c es → Counts c (timer t ∷ es)

ender_msg-timer : (m : Bytes) (t : Timer) → (u : Timer) × (ender_msg m (timer t) ≡ (timer u, go_on))
unfolding ender_msg arm stop_timer
ender_msg-timer m t = at t.mode
  where
    at :
        (mode : Mode)
        → (u : Timer) × ((elim mode as (λ _. Ender × Verdict) [
          | max_mode ↦ (timer t, go_on)
          | first_mode ↦ (timer (stop_timer t), go_on)
          | stall_mode ↦ (timer (arm t), go_on)
        ])
            ≡ (timer u, go_on))
    at max_mode = (_, refl)
    at first_mode = (_, refl)
    at stall_mode = (_, refl)

msg_enders-timer :
    (m : Bytes) (t : Timer) (es : List Ender)
    → (u : Timer) × (msg_enders m (timer t ∷ es)
        ≡ (timer u ∷ (msg_enders m es).0, (msg_enders m es).1))
unfolding msg_enders
msg_enders-timer m t es =
    let e = ender_msg-timer m t in
    (
      e.0,
      ap
          (λ a. elim a.1 as (λ _. List Ender × Verdict) [
            | go_on ↦ (a.0 ∷ (msg_enders m es).0, (msg_enders m es).1)
            | finish ↦ (a.0 ∷ es, finish)
            | fail f ↦ (a.0 ∷ es, fail f)
          ])
          e.1,
    )

-- What the enders of a count at `c` do with a message.
abbrev Counted : ℤ → List Ender × Verdict → Type 0
Counted c a = Counts (pred_ℤ c) a.0 × (a.1 ≡ while_true (not (is_zero (pred_ℤ c))))

msg_enders-Counts :
    (c : ℤ) (m : Bytes) {es : List Ender} → Counts c es → Counted c (msg_enders m es)
unfolding msg_enders ender_msg run_check
msg_enders-Counts (pos zero) m last = (last, refl)
msg_enders-Counts (pos (suc zero)) m last = (last, refl)
msg_enders-Counts (pos (suc (suc n))) m last = (last, refl)
msg_enders-Counts (negsuc n) m last = (last, refl)
msg_enders-Counts c m (after {t = t} {es = es} k) =
    let r = msg_enders-Counts c m k in
    let e = msg_enders-timer m t es in subst (λ a. Counted c a) (sym e.1) (after r.0, r.1)

-- The messages that arrive one after the other, while the mux subscription has the request.
unfoldable pub answer_all : List Bytes → Many → Many
unfolding resolver
answer_all [] r = r
answer_all (m ∷ ms) r = answer_all ms (if r.registered then resolver none m r else r)

Counts-when_some :
    (c : ℤ) (x : Option ℕ) (mode : Mode) (err : Option Fault) {es : List Ender}
    → Counts c es
    → Counts c (when_some x (λ ms. new_timer ms mode err) ++ es)
unfolding new_timer
Counts-when_some c none mode err k = k
Counts-when_some c (some n) mode err k = after k

start_ender-timer : (t : Timer) → (u : Timer) × (start_ender (timer t) ≡ timer u)
unfolding start_ender arm
start_ender-timer t = at t.mode
  where
    at :
        (mode : Mode)
        → (u : Timer) × ((elim mode as (λ _. Ender) [
          | max_mode ↦ timer (arm t)
          | first_mode ↦ timer (arm t)
          | stall_mode ↦ timer t
        ])
            ≡ timer u)
    at max_mode = (_, refl)
    at first_mode = (_, refl)
    at stall_mode = (_, refl)

Counts-start_ender : (c : ℤ) {es : List Ender} → Counts c es → Counts c (map start_ender es)
unfolding start_ender
Counts-start_ender c last = last
Counts-start_ender c (after {t = t} {es = es} k) =
    let u = start_ender-timer t in
    subst (λ e. Counts c (e ∷ map start_ender es)) (sym u.1) (after (Counts-start_ender c k))

request_many_strategy-count :
    (o : Options) (n : ℕ)
    → o.strategy ≡ by_count
    → o.max_messages ≡ some (suc n)
    → request_many_strategy o ≡ counting (pos (suc n))
unfolding request_many_strategy positive
request_many_strategy-count o n e f = rw (request_many_strategy, e, f) (positive_lem)
  where
    positive_lem :
        (elim (positive (some (suc n))) as (λ _. Check) [
          | none ↦ counting (negsuc 0)
          | some k ↦ counting (pos k)
        ])
        ≡ counting (pos (suc n))
    positive_lem = ground arith

new_many-Counts :
    (o : Options) (n : ℕ)
    → o.strategy ≡ by_count
    → o.max_messages ≡ some (suc n)
    → Counts (pos (suc n)) (new_many o).enders
unfolding new_many new_enders
new_many-Counts o n e f =
    let c = pos (suc n) in
    let k = subst (λ x. Counts c (check x ∷ [])) (sym (request_many_strategy-count o n e f)) last in
    Counts-start_ender c (
      Counts-when_some c (finite_wait o.max_wait) max_mode none (
        Counts-when_some c (positive o.timeout) first_mode (some timed_out) (
          Counts-when_some c (useful_stall (stall_timeout o) (finite_wait o.max_wait)) stall_mode
            none k)))

msg-Counts :
    (m : Bytes) (n : ℕ) (r : Many)
    → r.done ≡ false
    → Counts (pos (suc n)) r.enders
    → (es : List Ender) × Counts (pos n) es
      × (msg m r ≡ conclude (while_true (not (is_zero (pos n)))) (record r { enders = es }))
unfolding msg
msg-Counts m n r d k =
    let a = msg_enders m r.enders in
    let h = msg_enders-Counts (pos (suc n)) m k in
    let q = record r { enders = a.0 } in
    (
      a.0,
      h.0,
      subst (λ x. (if x then r else conclude a.1 q) ≡ conclude a.1 q) (sym d) refl
          ∙ ap (λ v. conclude v q) h.1,
    )

answer_all-over : (ms : List Bytes) (r : Many) → r.registered ≡ false → answer_all ms r ≡ r
unfolding answer_all
answer_all-over [] r g = refl
answer_all-over (m ∷ ms) r g =
    subst (λ x. answer_all ms (if x then resolver none m r else r) ≡ r) (sym g)
      (answer_all-over ms r g)

answer_all-cons :
    (m : Bytes) (ms : List Bytes) (r q : Many)
    → r.registered ≡ true
    → resolver none m r ≡ q
    → answer_all (m ∷ ms) r ≡ answer_all ms q
unfolding answer_all
answer_all-cons m ms r q g e =
    subst (λ x. answer_all ms (if x then resolver none m r else r) ≡ answer_all ms q) (sym g)
      (ap (answer_all ms) e)

end-going : (r : Many) → r.done ≡ false → end none r ≡ cancel none (stop r)
unfolding end
end-going r d =
    subst (λ x. (if x then r else cancel none (stop r)) ≡ cancel none (stop r)) (sym d) refl

-- What `n + 1` more messages leave.
abbrev Outcome : List Bytes → ℕ → Many → Many → Type 0
Outcome ms n r q =
    (q.calls ≡ r.calls ++ map delivered (take (suc n) ms)) × (q.done ≡ leb (suc n) (length ms))

answer_all-Counts :
    (ms : List Bytes) (n : ℕ) (r : Many)
    → r.done ≡ false
    → r.registered ≡ true
    → Counts (pos (suc n)) r.enders
    → Outcome ms n r (answer_all ms r)
unfolding answer_all resolver conclude cancel stop
answer_all-Counts [] n r d g k = (sym (append-nil r.calls), d ∙ ground arith)
answer_all-Counts (m ∷ ms) zero r d g k =
    let r2 = record r { calls = r.calls ++ delivered m ∷ [] } in
    let x = msg-Counts m zero r2 d k in
    let q = record r2 { enders = x.0 } in
    let e =
      answer_all-cons m ms r (cancel none (stop q)) g (x.2 ∙ end-going q d)
      ∙ answer_all-over ms (cancel none (stop q)) refl in
    subst (Outcome (m ∷ ms) zero r) (sym e) (refl, ground arith)
answer_all-Counts (m ∷ ms) (suc n) r d g k =
    let r2 = record r { calls = r.calls ++ delivered m ∷ [] } in
    let x = msg-Counts m (suc n) r2 d k in
    let q = record r2 { enders = x.0 } in
    let h = answer_all-Counts ms n q d g x.1 in
    subst (Outcome (m ∷ ms) (suc n) r) (sym (answer_all-cons m ms r q g x.2)) (
      h.0 ∙ append_assoc r.calls (delivered m ∷ []) (map delivered (take (suc n) ms)),
      h.1 ∙ ground arith,
    )

-- With the strategy `count` and `maxMessages` of `n + 1`, messages that arrive before a timer fires are given to the
-- callback up to the first `n + 1`, and the request is done exactly when these have arrived.
pub answer_all-count :
    (o : Options) (n : ℕ) (ms : List Bytes)
    → o.strategy ≡ by_count
    → o.max_messages ≡ some (suc n)
    → ((answer_all ms (new_many o)).calls ≡ map delivered (take (suc n) ms))
      × ((answer_all ms (new_many o)).done ≡ leb (suc n) (length ms))
unfolding new_many
answer_all-count o n ms e f =
    answer_all-Counts ms n (new_many o) refl refl (new_many-Counts o n e f)

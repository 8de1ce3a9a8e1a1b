-- ===== src/Requests/Enders.antt =====
-- The conditions that end a request many, in core/src/request.ts.
use nats_js.Base.{
  ℕ, zero, suc, Bool, true, false, not, Option, none, some, List, [], ◌∷◌, ◌++◌, ltb, if◌then◌else◌,
  Bytes, ℤ, pos, negsuc, length,
}

pub data Fault : Type 0 where
  timed_out no_responders : Fault
  other : ℕ → Fault

-- What a function of the strategy answers to a message: true, false or an error; an error that it throws
-- is made the answer.
pub data Verdict : Type 0 where
  go_on finish : Verdict
  fail : Fault → Verdict

pub data Strategy : Type 0 where
  no_strategy by_timer by_stall by_count by_sentinel : Strategy
  by_functions : List (Bytes → Verdict) → Strategy

pub data MaxWait : Type 0 where
  unset infinite : MaxWait
  millis : ℕ → MaxWait

-- `RequestManyOptions`; a message is its payload.
pub record Options : Type 0 where
  pub strategy : Strategy
  pub max_wait : MaxWait
  pub timeout : Option ℕ
  pub stall : Option ℕ
  pub max_messages : Option ℕ

pub data Mode : Type 0 where
  max_mode first_mode stall_mode : Mode

-- `armed` is whether `timer` is set.
pub record Timer : Type 0 where
  pub ms : ℕ
  pub mode : Mode
  pub err : Option Fault
  pub armed : Bool

-- What the strategy is made to; the count of `count` is kept by its closure.
pub data Check : Type 0 where
  counting : ℤ → Check
  until_empty always : Check
  guarding : List (Bytes → Verdict) → Check

pub data Ender : Type 0 where
  timer : Timer → Ender
  check : Check → Ender

-- A positive number of the options.
unfoldable pub positive : Option ℕ → Option ℕ
positive none = none
positive (some n) = if ltb 0 n then some n else none

-- `none` for the 0 of the source.
unfoldable pub stall_timeout : Options → Option ℕ
unfolding positive
stall_timeout o = elim (positive o.stall) [
  | some n ↦ some n
  | none ↦ elim (o.strategy) [
    | by_stall ↦ some 300
    | no_strategy ↦ none
    | by_timer ↦ none
    | by_count ↦ none
    | by_sentinel ↦ none
    | by_functions fs ↦ none
  ]
]

unfoldable pub request_many_strategy : Options → Check
unfolding positive
request_many_strategy o = elim (o.strategy) [
  | by_functions fs ↦ guarding fs
  | by_count ↦ elim (positive o.max_messages) [
    | some n ↦ counting (pos n)
    | none ↦ counting (negsuc 0)
  ]
  | by_sentinel ↦ until_empty
  | no_strategy ↦ always
  | by_timer ↦ always
  | by_stall ↦ always
]

unfoldable pub guard : List (Bytes → Verdict) → Bytes → Verdict
guard [] m = go_on
guard (f ∷ fs) m = elim (f m) [ go_on ↦ guard fs m | finish ↦ finish | fail e ↦ fail e ]

abbrev pub pred_ℤ : ℤ → ℤ
pred_ℤ (pos zero) = negsuc 0
pred_ℤ (pos (suc n)) = pos n
pred_ℤ (negsuc n) = negsuc (suc n)

abbrev pub is_zero : ℤ → Bool
is_zero (pos zero) = true
is_zero (pos (suc n)) = false
is_zero (negsuc n) = false

abbrev pub while_true : Bool → Verdict
while_true b = if b then go_on else finish

unfoldable pub run_check : Bytes → Check → Check × Verdict
unfolding guard
run_check m (counting n) = (counting (pred_ℤ n), while_true (not (is_zero (pred_ℤ n))))
run_check m until_empty = (until_empty, while_true (ltb 0 (length m)))
run_check m always = (always, go_on)
run_check m (guarding fs) = (guarding fs, guard fs m)

unfoldable pub new_timer : ℕ → Mode → Option Fault → Ender
new_timer ms mode err = timer (record { ms = ms; mode = mode; err = err; armed = false })

unfoldable pub arm : Timer → Timer
arm t = record t { armed = true }

unfoldable pub stop_timer : Timer → Timer
stop_timer t = record t { armed = false }

unfoldable pub start_ender : Ender → Ender
unfolding arm
start_ender (timer t) = elim (t.mode) [
  | max_mode ↦ timer (arm t)
  | first_mode ↦ timer (arm t)
  | stall_mode ↦ timer t
]
start_ender (check c) = check c

unfoldable pub stop_ender : Ender → Ender
unfolding stop_timer
stop_ender (timer t) = timer (stop_timer t)
stop_ender (check c) = check c

unfoldable pub ender_msg : Bytes → Ender → Ender × Verdict
unfolding arm stop_timer run_check
ender_msg m (timer t) = elim (t.mode) [
  | max_mode ↦ (timer t, go_on)
  | first_mode ↦ (timer (stop_timer t), go_on)
  | stall_mode ↦ (timer (arm t), go_on)
]
ender_msg m (check c) = let r = run_check m c in (check r.0, r.1)

abbrev pub when_some : Option ℕ → (ℕ → Ender) → List Ender
when_some none f = []
when_some (some n) f = f n ∷ []

unfoldable pub finite_wait : MaxWait → Option ℕ
finite_wait unset = some 1000
finite_wait infinite = none
finite_wait (millis n) = some n

-- A stall that cannot fire before `maxWait` is left out.
unfoldable pub useful_stall : Option ℕ → Option ℕ → Option ℕ
useful_stall none wait = none
useful_stall (some s) none = some s
useful_stall (some s) (some w) = if ltb s w then some s else none

-- The constructor of `RequestManyEnd`.
unfoldable pub new_enders : Options → List Ender
unfolding new_timer positive stall_timeout request_many_strategy finite_wait useful_stall
new_enders o =
    when_some (finite_wait o.max_wait) (λ ms. new_timer ms max_mode none)
    ++ (when_some (positive o.timeout) (λ ms. new_timer ms first_mode (some timed_out))
        ++ (when_some (useful_stall (stall_timeout o) (finite_wait o.max_wait))
              (λ ms. new_timer ms stall_mode none)
            ++ check (request_many_strategy o) ∷ []))

-- ===== src/Parser/Simulation.antt =====
-- The loop of `parse` against the byte-wise parser: the bytes that a state of `Parser` holds, by
-- indices into the buffer or in a buffer of its own, and the invariant of the loop.
use nats_js.Base.{
  ◌∷◌, ◌++◌, arith, sym, append-nil, append_assoc, take-append-drop, length-take, length-append,
  take, drop-drop, ◌-◌, ◌≡◌, ap, ◌∙◌, ℕ, suc, ◌+◌, ◌≤◌, Bytes, pos, pos_part, Option, none, some,
  [], ◌==◌, length, get_elem?, drop, slice, drop-get_elem?,
}
use nats_js.Parser.Defs.{
  State, minus_err_arg, msg_arg, msg_payload, info_arg, Parser, done, fail, stuck,
}
use nats_js.Parser.Step.{Round, argument}
use nats_js.Parser.Wire.{going, Wire, Progress, failed, take_byte, run, ◌then_run◌, run_cons}

-- The bytes of the payload in hand.
abbrev pub payload : Option Bytes → Parser → Bytes → ℕ → Bytes
payload none p buf i = slice buf p.start i
payload (some bytes) p buf i = bytes

-- The bytes of the argument or payload in hand, when the index is `i`.
abbrev pub held : State → Parser → Bytes → ℕ → Bytes
held msg_arg p buf i = argument p.arg_buf p buf i
held minus_err_arg p buf i = argument p.arg_buf p buf i
held info_arg p buf i = argument p.arg_buf p buf i
held msg_payload p buf i = payload p.msg_buf p buf i
held _ p buf i = []

abbrev pub view : State → Parser → Bytes → ℕ → Wire
view state p buf i = record {
  state = state;
  hdr = p.hdr;
  ma = p.ma;
  text = held state p buf i;
  after_cr = p.dropped == 1;
  out = p.out;
}

-- An argument that is read from the buffer begins before the index.
abbrev pub Begun : Option Bytes → Parser → ℕ → Type 0
Begun none p i = p.start + p.dropped ≤ i
Begun (some _) p i = Unit

-- A payload in a buffer of its own is not too long; otherwise the index stands behind its end.
abbrev pub Counted : Option Bytes → Parser → Bytes → ℕ → Type 0
Counted none p buf i = (p.start + pos_part p.ma.size ≡ i) × (p.start ≤ length buf)
Counted (some bytes) p buf i = length bytes ≤ pos_part p.ma.size

pub record ArgInv (p : Parser) (i : ℕ) : Type 0 where
  pub dropped_le : p.dropped ≤ 1
  pub begun : Begun p.arg_buf p i
  pub no_payload : p.msg_buf ≡ none

pub record PayloadInv (p : Parser) (buf : Bytes) (i : ℕ) : Type 0 where
  pub dropped_zero : p.dropped ≡ 0
  pub size_pos : p.ma.size ≡ pos (pos_part p.ma.size)
  pub counted : Counted p.msg_buf p buf i

pub record IdleInv (p : Parser) : Type 0 where
  pub dropped_zero : p.dropped ≡ 0
  pub no_arg : p.arg_buf ≡ none
  pub no_payload : p.msg_buf ≡ none

abbrev pub Inv : State → Parser → Bytes → ℕ → Type 0
Inv msg_arg p buf i = ArgInv p i
Inv minus_err_arg p buf i = ArgInv p i
Inv info_arg p buf i = ArgInv p i
Inv msg_payload p buf i = PayloadInv p buf i
Inv _ p buf i = IdleInv p

-- What is left to say when the index is `i`: the byte-wise parser, from the view, on the rest.
abbrev pub ahead : State → Parser → Bytes → ℕ → Progress
ahead state p buf i = run (view state p buf i) (drop i buf)

-- One round keeps the invariant and says the same of the bytes that are left.
abbrev pub Follows : Bytes → ℕ → Progress → Round → Type 0
Follows buf i before (done (q, j)) =
    Inv q.state q buf (suc j) × (i ≤ j) × (before ≡ ahead q.state q buf (suc j))
Follows buf i before (fail e out) = before ≡ failed e.label e.state out
Follows buf i before stuck = ⊥

-- At the byte `b` the byte-wise parser takes `b` and goes on behind it.
pub ahead-take_byte :
    (state : State) (p : Parser) (buf : Bytes) (i : ℕ) {b : ℕ}
    → get_elem? buf i ≡ some b
    → ahead state p buf i ≡ (take_byte state (view state p buf i) b then_run drop (suc i) buf)
ahead-take_byte state p buf i {b} h =
    ap (run (view state p buf i)) (drop-get_elem? buf i h) ∙ run_cons (view state p buf i) b _

payload_more :
    (b : ℕ) (w : Wire)
    → w.state ≡ msg_payload
    → w.ma.size ≡ pos (pos_part w.ma.size)
    → suc (length w.text) ≤ pos_part w.ma.size
    → take_byte w.state w b ≡ going (record w { text = w.text ++ b ∷ [] })
unfolding take_byte
payload_more b w e n h = ground arith

pub payload_bulk :
    (xs ys : Bytes) (w : Wire)
    → w.state ≡ msg_payload
    → w.ma.size ≡ pos (pos_part w.ma.size)
    → length w.text + length xs ≤ pos_part w.ma.size
    → run w (xs ++ ys) ≡ run (record w { text = w.text ++ xs }) ys
payload_bulk [] ys w e n h = rw append-nil
payload_bulk (x ∷ xs) ys w e n h =
    run_cons w x (xs ++ ys)
    ∙ ap (λ q. q then_run (xs ++ ys)) (payload_more x w e n (omega arith))
    ∙ payload_bulk xs ys (record w { text = w.text ++ x ∷ [] }) e n
        (omega (arith, length-append w.text (x ∷ [])))
    ∙ ap (λ t. run (record w { text = t }) ys) (append_assoc w.text (x ∷ []) xs)

-- The bytes that a payload still lacks are taken one by one, and to the same effect at once.
pub ahead_bulk :
    (buf : Bytes) (a n : ℕ) (w : Wire)
    → w.state ≡ msg_payload
    → w.ma.size ≡ pos (pos_part w.ma.size)
    → length w.text + n ≤ pos_part w.ma.size
    → run w (drop a buf)
      ≡ run (record w { text = w.text ++ slice buf a (a + n) }) (drop (a + n) buf)
ahead_bulk buf a n w e s h =
    let width : a + n - a ≡ n = omega arith in
    rw width (
      ap (run w) (sym (take-append-drop n (drop a buf)))
      ∙ payload_bulk (take n (drop a buf)) (drop n (drop a buf)) w e s
          (omega (arith, length-take n (drop a buf)))
      ∙ ap (run (record w { text = w.text ++ take n (drop a buf) })) (drop-drop a n buf))

-- ===== src/Parser/Wire.antt =====
-- What `Parser` promises: a parser that takes one byte at a time, keeps the bytes of the argument
-- or payload that it is in, and knows nothing of buffers and indices.
use nats_js.Base.{
  arith, ◌≡◌, refl, sym, ap, ◌∙◌, ℕ, Bytes, ℤ, pos, negsuc, Option, none, some, List, [], ◌∷◌, ◌++◌,
  Bool, true, false, leb_ℤ, ◌==◌, if◌then◌else◌, length,
}
use nats_js.Parser.Defs.{
  State, op_start, op_plus, op_plus_ok, op_minus, op_minus_err_spc, minus_err_arg, op_m, op_msg_spc,
  msg_arg, msg_payload, msg_end, op_h, op_p, op_ping, op_pong, op_i, op_info_spc, info_arg, cr, nl,
  either, blank, MsgArg, new_msg_arg, Event, ok, ping, pong, err, info, msg, Label, parse_error,
}
use nats_js.Parser.Args.{ArgsResult, args, bad, process_msg_args}
use nats_js.Parser.Step.{keyword}

-- `text` holds the argument or the payload read so far, and `after_cr` says that the last byte of an
-- argument was a carriage return, which is not part of it.
pub record Wire : Type 0 where
  pub state : State
  pub hdr : ℤ
  pub ma : MsgArg
  pub text : Bytes
  pub after_cr : Bool
  pub out : List Event

-- `stray` is an argument line in which a carriage return does not end the line. The protocol has no
-- such line, and the source's treatment of it depends on where its buffers end.
pub data Progress : Type 0 where
  going : Wire → Progress
  failed : Label → State → List Event → Progress
  stray : Progress

unfoldable pub take_start : Wire → ℕ → Progress
take_start w b =
    if either b b'M' b'm'
    then going (record w { state = op_m; hdr = negsuc 0; ma = new_msg_arg })
    else if either b b'H' b'h'
    then going (record w { state = op_h; hdr = pos 0; ma = new_msg_arg })
    else if either b b'P' b'p'
    then going (record w { state = op_p })
    else if b == b'+'
    then going (record w { state = op_plus })
    else if b == b'-'
    then going (record w { state = op_minus })
    else if either b b'I' b'i'
    then going (record w { state = op_i })
    else failed parse_error w.state w.out

unfoldable pub take_spc : State → Wire → ℕ → Progress
take_spc next w b = if blank b then going w else going (record w { state = next; text = b ∷ [] })

-- A byte of an argument line; `line_end` is what the line feed does.
unfoldable pub take_arg : (Wire → Progress) → Wire → ℕ → Progress
take_arg line_end w b =
    if b == nl
    then line_end w
    else if w.after_cr
    then stray
    else if b == cr
    then going (record w { after_cr = true })
    else going (record w { text = w.text ++ b ∷ [] })

unfoldable pub end_msg : ArgsResult → Wire → Progress
end_msg (bad label) w = failed label w.state w.out
end_msg (args ma) w = going (record w { state = msg_payload; ma = ma; text = []; after_cr = false })

unfoldable pub end_arg : (Bytes → Event) → Wire → Progress
end_arg kind w =
    going
      (record w { state = op_start; text = []; after_cr = false; out = w.out ++ kind w.text ∷ [] })

-- The byte behind a complete payload delivers the message.
unfoldable pub take_payload : Wire → ℕ → Progress
take_payload w b =
    if leb_ℤ w.ma.size (pos (length w.text))
    then going (record w { state = msg_end; text = []; out = w.out ++ msg w.ma w.text ∷ [] })
    else going (record w { text = w.text ++ b ∷ [] })

unfoldable pub take_op_end : Event → Wire → ℕ → Progress
take_op_end e w b =
    if b == nl then going (record w { state = op_start; out = w.out ++ e ∷ [] }) else going w

unfoldable pub take_keyword : Option State → Wire → Progress
take_keyword none w = failed parse_error w.state w.out
take_keyword (some next) w = going (record w { state = next })

unfoldable pub take_byte : State → Wire → ℕ → Progress
unfolding take_start take_spc take_arg end_msg end_arg take_payload take_op_end take_keyword keyword
take_byte op_start w b = take_start w b
take_byte op_msg_spc w b = take_spc msg_arg w b
take_byte op_minus_err_spc w b = take_spc minus_err_arg w b
take_byte op_info_spc w b = take_spc info_arg w b
take_byte msg_arg w b = take_arg (λ v. end_msg (process_msg_args v.hdr v.ma v.text) v) w b
take_byte minus_err_arg w b = take_arg (end_arg err) w b
take_byte info_arg w b = take_arg (end_arg info) w b
take_byte msg_payload w b = take_payload w b
take_byte msg_end w b = if b == nl then going (record w { state = op_start }) else going w
take_byte op_plus_ok w b = take_op_end ok w b
take_byte op_pong w b = take_op_end pong w b
take_byte op_ping w b = take_op_end ping w b
take_byte state w b = take_keyword (keyword state b) w

unfoldable pub run : Wire → Bytes → Progress
run w [] = going w
run w (b ∷ bs) = elim (take_byte w.state w b) [
  | going v ↦ run v bs
  | failed label state out ↦ failed label state out
  | stray ↦ stray
]

infixl 5 ◌then_run◌
abbrev pub ◌then_run◌ : Progress → Bytes → Progress
going w then_run bs = run w bs
failed label state out then_run bs = failed label state out
stray then_run bs = stray

pub run_cons :
    (w : Wire) (b : ℕ) (bs : Bytes) → run w (b ∷ bs) ≡ (take_byte w.state w b then_run bs)
unfolding run
run_cons w b bs = ground arith

then_run-append :
    (q : Progress) (xs ys : Bytes)
    → ((v : Wire) → run v (xs ++ ys) ≡ (run v xs then_run ys))
    → (q then_run (xs ++ ys)) ≡ ((q then_run xs) then_run ys)
then_run-append (going v) xs ys ih = ih v
then_run-append (failed label state out) xs ys ih = refl
then_run-append stray xs ys ih = refl

-- Bytes may be taken in any two portions.
pub run-append : (w : Wire) (xs ys : Bytes) → run w (xs ++ ys) ≡ (run w xs then_run ys)
run-append w [] ys = unfold run in refl
run-append w (x ∷ xs) ys =
    run_cons w x (xs ++ ys)
    ∙ then_run-append (take_byte w.state w x) xs ys (λ v. run-append v xs ys)
    ∙ ap (λ q. q then_run ys) (sym (run_cons w x xs))

abbrev pub new_wire : Wire
new_wire = record {
  state = op_start;
  hdr = pos 0;
  ma = new_msg_arg;
  text = [];
  after_cr = false;
  out = [];
}

-- ===== src/Parser/Ops/Lines.antt =====
-- The byte-wise parser over one line of text, and over a payload.
use nats_js.Base.{
  ℕ, ◌≡◌, ap, ◌∙◌, arith, Bytes, ℤ, List, [], ◌∷◌, ◌++◌, false, append-nil, append_assoc,
}
use nats_js.Parser.Defs.{State, msg_arg, minus_err_arg, info_arg, MsgArg, Event}
use nats_js.Parser.Wire.{Wire, going, take_byte, run, ◌then_run◌, run_cons}
use nats_js.Parser.Ops.{AllNot, line_byte}

-- The parser in the middle of an argument line.
abbrev pub in_line : State → ℤ → MsgArg → List Event → Bytes → Wire
in_line state hdr ma out text = record {
  state = state;
  hdr = hdr;
  ma = ma;
  text = text;
  after_cr = false;
  out = out;
}

pub data IsArg : State → Type 0 where
  of_msg : IsArg msg_arg
  of_err : IsArg minus_err_arg
  of_info : IsArg info_arg

module _ (hdr : ℤ) (ma : MsgArg) (out : List Event) where
  take_plain :
      {state : State} (text : Bytes) (b : ℕ)
      → IsArg state
      → line_byte b ≡ false
      → take_byte state (in_line state hdr ma out text) b
        ≡ going (in_line state hdr ma out (text ++ b ∷ []))
  unfolding take_byte
  take_plain text b of_msg h = ground arith
  take_plain text b of_err h = ground arith
  take_plain text b of_info h = ground arith

  pub run-in_line :
      {state : State} (text xs rest : Bytes)
      → IsArg state
      → AllNot line_byte xs
      → run (in_line state hdr ma out text) (xs ++ rest)
        ≡ run (in_line state hdr ma out (text ++ xs)) rest
  run-in_line text [] rest a h = rw append-nil
  run-in_line {state} text (x ∷ xs) rest a h =
      run_cons (in_line state hdr ma out text) x (xs ++ rest)
      ∙ ap (λ q. q then_run (xs ++ rest)) (take_plain text x a h.0)
      ∙ run-in_line (text ++ x ∷ []) xs rest a h.1
      ∙ ap (λ t. run (in_line state hdr ma out t) rest) (append_assoc text (x ∷ []) xs)

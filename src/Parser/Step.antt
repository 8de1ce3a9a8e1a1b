-- ===== src/Parser/Step.antt =====
-- One round of the loop in `Parser.parse` (core/src/parser.ts): the arms of its `switch`. A round gets
-- the index `i` and returns the parser and the index as the arm leaves it.
use nats_js.Base.{
  ℕ, ◌+◌, ◌-◌, Bytes, pos, negsuc, pos_part, sub_ℕ, leb_ℤ, Option, none, some, [], ◌∷◌, ◌++◌, ltb,
  ◌==◌, if◌then◌else◌, length, drop, slice, min,
}
use nats_js.Parser.Defs.{
  State, op_start, op_plus, op_plus_o, op_plus_ok, op_minus, op_minus_e, op_minus_er, op_minus_err,
  op_minus_err_spc, minus_err_arg, op_m, op_ms, op_msg, op_msg_spc, msg_arg, msg_payload, msg_end,
  op_h, op_p, op_pi, op_pin, op_ping, op_po, op_pon, op_pong, op_i, op_in, op_inf, op_info,
  op_info_spc, info_arg, cr, nl, either, blank, new_msg_arg, Event, ok, ping, pong, err, info, msg,
  Label, parse_error, Parser, Result, done, fail,
}
use nats_js.Parser.Args.{ArgsResult, args, bad, process_msg_args}

-- What a round leaves: the parser and the index.
abbrev pub Round : Type 0
Round = Result (Parser × ℕ)

abbrev pub push : Event → Parser → Parser
push e p = record p { out = p.out ++ e ∷ [] }

-- The arms that only read one letter, or one blank, of an operation's name.
unfoldable pub keyword : State → ℕ → Option State
keyword op_h b = if either b b'M' b'm' then some op_m else none
keyword op_m b = if either b b'S' b's' then some op_ms else none
keyword op_ms b = if either b b'G' b'g' then some op_msg else none
keyword op_msg b = if blank b then some op_msg_spc else none
keyword op_plus b = if either b b'O' b'o' then some op_plus_o else none
keyword op_plus_o b = if either b b'K' b'k' then some op_plus_ok else none
keyword op_minus b = if either b b'E' b'e' then some op_minus_e else none
keyword op_minus_e b = if either b b'R' b'r' then some op_minus_er else none
keyword op_minus_er b = if either b b'R' b'r' then some op_minus_err else none
keyword op_minus_err b = if blank b then some op_minus_err_spc else none
keyword op_p b =
    if either b b'I' b'i' then some op_pi else if either b b'O' b'o' then some op_po else none
keyword op_po b = if either b b'N' b'n' then some op_pon else none
keyword op_pon b = if either b b'G' b'g' then some op_pong else none
keyword op_pi b = if either b b'N' b'n' then some op_pin else none
keyword op_pin b = if either b b'G' b'g' then some op_ping else none
keyword op_i b = if either b b'N' b'n' then some op_in else none
keyword op_in b = if either b b'F' b'f' then some op_inf else none
keyword op_inf b = if either b b'O' b'o' then some op_info else none
keyword op_info b = if blank b then some op_info_spc else none
keyword _ b = none

-- `throw this.fail(buf.subarray(i))`
abbrev pub fail_at : Label → Bytes → Parser → Round
fail_at label bytes p = fail (record { label = label; state = p.state; at = bytes }) p.out

unfoldable pub step_keyword : State → Parser → Bytes → ℕ → ℕ → Round
unfolding keyword
step_keyword state p buf i b = elim (keyword state b) [
  | some next ↦ done (record p { state = next }, i)
  | none ↦ fail_at parse_error (drop i buf) p
]

-- case State.OP_START
unfoldable pub step_start : Parser → Bytes → ℕ → ℕ → Round
step_start p buf i b =
    if either b b'M' b'm'
    then done (record p { state = op_m; hdr = negsuc 0; ma = new_msg_arg }, i)
    else if either b b'H' b'h'
    then done (record p { state = op_h; hdr = pos 0; ma = new_msg_arg }, i)
    else if either b b'P' b'p'
    then done (record p { state = op_p }, i)
    else if b == b'+'
    then done (record p { state = op_plus }, i)
    else if b == b'-'
    then done (record p { state = op_minus }, i)
    else if either b b'I' b'i'
    then done (record p { state = op_i }, i)
    else fail_at parse_error (drop i buf) p

-- case State.OP_MSG_SPC, OP_MINUS_ERR_SPC, OP_INFO_SPC; `next` is the state of the argument
unfoldable pub step_spc : State → Parser → ℕ → ℕ → Round
step_spc next p i b =
    if blank b then done (p, i) else done (record p { state = next; start = i }, i)

-- `this.argBuf ? this.argBuf.bytes() : buf.subarray(this.as, i - this.drop)`. Where `argBuf` is not
-- set the argument began in `buf`, and `i - this.drop` is not negative.
unfoldable pub argument : Option Bytes → Parser → Bytes → ℕ → Bytes
argument none p buf i = slice buf p.start (i - p.dropped)
argument (some bytes) p buf i = bytes

-- The default of the argument arms: `if (this.argBuf) this.argBuf.writeByte(b)`.
unfoldable pub write_byte : Option Bytes → ℕ → Option Bytes
write_byte none b = none
write_byte (some bytes) b = some (bytes ++ b ∷ [])

-- At the end of a MSG or HMSG line. The index jumps over the payload, whose size is not negative
-- once the arguments are accepted.
unfoldable pub start_payload : ArgsResult → Parser → Bytes → ℕ → Round
start_payload (bad label) p arg i = fail_at label arg p
start_payload (args ma) p arg i = done (
  record p { ma = ma; dropped = 0; start = i + 1; state = msg_payload },
  i + 1 + pos_part ma.size - 1,
)

-- case cc.NL of State.MSG_ARG
unfoldable pub end_msg_arg : Parser → Bytes → ℕ → Round
unfolding process_msg_args start_payload
end_msg_arg p arg i = start_payload (process_msg_args p.hdr p.ma arg) p arg i

-- case State.MSG_ARG
unfoldable pub step_msg_arg : Parser → Bytes → ℕ → ℕ → Round
unfolding end_msg_arg argument write_byte
step_msg_arg p buf i b =
    if b == cr
    then done (record p { dropped = 1 }, i)
    else if b == nl
    then end_msg_arg p (argument p.arg_buf p buf i) i
    else done (record p { arg_buf = write_byte p.arg_buf b }, i)

-- case State.MINUS_ERR_ARG and State.INFO_ARG; `kind` makes the event
unfoldable pub step_arg : (Bytes → Event) → Parser → Bytes → ℕ → ℕ → Round
unfolding argument write_byte
step_arg kind p buf i b =
    if b == cr
    then done (record p { dropped = 1 }, i)
    else if b == nl
    then done (
      record p {
        out = p.out ++ kind (argument p.arg_buf p buf i) ∷ [];
        arg_buf = none;
        dropped = 0;
        start = i + 1;
        state = op_start;
      },
      i,
    )
    else done (record p { arg_buf = write_byte p.arg_buf b }, i)

-- A message is complete: it is pushed, and both buffers are let go.
abbrev pub deliver : Bytes → Parser → Parser
deliver bytes p = record p {
  out = p.out ++ msg p.ma bytes ∷ [];
  arg_buf = none;
  msg_buf = none;
  state = msg_end;
}

-- case State.MSG_PAYLOAD. With a buffer, the bytes that are still missing are copied at once; there
-- is at least one to copy, unless `toCopy` is 0, when the single byte is written.
unfoldable pub step_payload : Option Bytes → Parser → Bytes → ℕ → ℕ → Round
step_payload none p buf i b =
    if leb_ℤ p.ma.size (sub_ℕ i p.start)
    then done (deliver (slice buf p.start i) p, i)
    else done (p, i)
step_payload (some bytes) p buf i b =
    if leb_ℤ p.ma.size (pos (length bytes))
    then done (deliver bytes p, i)
    else let to_copy = min (pos_part p.ma.size - length bytes) (length buf - i) in
      if ltb 0 to_copy
      then done (record p { msg_buf = some (bytes ++ slice buf i (i + to_copy)) }, i + to_copy - 1)
      else done (record p { msg_buf = some (bytes ++ b ∷ []) }, i)

-- case State.MSG_END
unfoldable pub step_msg_end : Parser → ℕ → ℕ → Round
step_msg_end p i b =
    if b == nl
    then done (record p { dropped = 0; start = i + 1; state = op_start }, i)
    else done (p, i)

-- case State.OP_PLUS_OK, OP_PONG, OP_PING
unfoldable pub step_op_end : Event → Parser → ℕ → ℕ → Round
step_op_end e p i b =
    if b == nl
    then done (record p { out = p.out ++ e ∷ []; dropped = 0; state = op_start }, i)
    else done (p, i)

-- `switch (this.state)`
unfoldable pub step : State → Parser → Bytes → ℕ → ℕ → Round
unfolding step_start step_spc step_msg_arg step_arg step_payload step_msg_end step_op_end
    step_keyword
step op_start p buf i b = step_start p buf i b
step op_msg_spc p buf i b = step_spc msg_arg p i b
step op_minus_err_spc p buf i b = step_spc minus_err_arg p i b
step op_info_spc p buf i b = step_spc info_arg p i b
step msg_arg p buf i b = step_msg_arg p buf i b
step minus_err_arg p buf i b = step_arg err p buf i b
step info_arg p buf i b = step_arg info p buf i b
step msg_payload p buf i b = step_payload p.msg_buf p buf i b
step msg_end p buf i b = step_msg_end p i b
step op_plus_ok p buf i b = step_op_end ok p i b
step op_pong p buf i b = step_op_end pong p i b
step op_ping p buf i b = step_op_end ping p i b
step state p buf i b = step_keyword state p buf i b

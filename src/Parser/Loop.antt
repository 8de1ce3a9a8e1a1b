-- ===== src/Parser/Loop.antt =====
-- `Parser.parse` of core/src/parser.ts: the loop over a buffer, and what is kept of an operation that
-- the buffer does not complete. A round never moves the index back, so that one unit of fuel for each
-- byte, and one for the test that ends the loop, are enough.
use nats_js.Base.{
  ℕ, zero, suc, ◌+◌, ◌-◌, Bytes, Option, none, some, List, [], ◌∷◌, ◌++◌, length, get_elem?, drop,
  slice,
}
use nats_js.Parser.Defs.{
  State, msg_arg, minus_err_arg, info_arg, msg_payload, MsgArg, Parser, Result, done, stuck, ◌>>=◌,
}
use nats_js.Parser.Step.{Round, step}

-- for (i = 0; i < buf.length; i++)
unfoldable pub loop : ℕ → Parser → Bytes → ℕ → Round
loop zero p buf i = stuck
loop (suc fuel) p buf i = elim (get_elem? buf i) [
  | none ↦ done (p, i)
  | some b ↦ step p.state p buf i b >>= λ r. loop fuel r.0 buf (suc r.1)
]

-- `cloneMsgArg`: the subject and the reply keep their bytes, in a buffer of their own.
unfoldable pub clone_msg_arg : MsgArg → Bytes
clone_msg_arg ma = elim ma.reply [ none ↦ ma.subject | some reply ↦ ma.subject ++ reply ]

-- The part of an argument that the buffer holds, when the buffer ends inside it.
unfoldable pub keep_arg : State → Option Bytes → Parser → Bytes → ℕ → Parser
keep_arg msg_arg none p buf i = record p { arg_buf = some (slice buf p.start (i - p.dropped)) }
keep_arg minus_err_arg none p buf i = record p {
  arg_buf = some (slice buf p.start (i - p.dropped));
}
keep_arg info_arg none p buf i = record p { arg_buf = some (slice buf p.start (i - p.dropped)) }
keep_arg _ _ p buf i = p

-- The part of a payload that the buffer holds. `subarray` clamps a beginning behind the end.
unfoldable pub keep_payload : State → Option Bytes → Parser → Bytes → Parser
unfolding clone_msg_arg
keep_payload msg_payload none p buf = record p {
  arg_buf = elim p.arg_buf [ none ↦ some (clone_msg_arg p.ma) | some a ↦ some a ];
  msg_buf = some (drop p.start buf);
}
keep_payload _ _ p buf = p

-- What `parse` does after its loop, with the index that the loop has reached.
unfoldable pub suspend : Parser → Bytes → ℕ → Parser
unfolding keep_arg keep_payload
suspend p buf i = let q = keep_arg p.state p.arg_buf p buf i in keep_payload q.state q.msg_buf q buf

unfoldable pub parse : Parser → Bytes → Result Parser
unfolding loop suspend
parse p buf = loop (length buf + 1) p buf 0 >>= λ r. done (suspend r.0 buf r.1)

-- The calls of `parse` for the buffers that the transport hands over, up to the first error.
unfoldable pub parse_all : Parser → List Bytes → Result Parser
parse_all p [] = done p
parse_all p (buf ∷ bufs) = parse p buf >>= λ q. parse_all q bufs

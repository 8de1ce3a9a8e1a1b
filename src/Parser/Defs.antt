-- ===== src/Parser/Defs.antt =====
-- The types of core/src/parser.ts: `State`, `cc`, `MsgArg`, `ParserEvent`, and the fields of
-- `Parser`. The dispatcher is the list `out` of the events pushed so far. A `DenoBuffer` is the list
-- of its bytes here (Buffers models the class itself).
use nats_js.Base.{ℕ, Bytes, ℤ, pos, negsuc, Option, none, List, [], Bool, ◌||◌, ◌==◌}

pub data State : Type 0 where
  op_start op_plus op_plus_o op_plus_ok : State
  op_minus op_minus_e op_minus_er op_minus_err op_minus_err_spc minus_err_arg : State
  op_m op_ms op_msg op_msg_spc msg_arg msg_payload msg_end op_h : State
  op_p op_pi op_pin op_ping op_po op_pon op_pong : State
  op_i op_in op_inf op_info op_info_spc info_arg : State

-- The object `cc` of character codes.
abbrev pub cr : ℕ
cr = 13

abbrev pub nl : ℕ
nl = 10

abbrev pub space : ℕ
space = 32

abbrev pub tab : ℕ
tab = 9

-- `case cc.M: case cc.m:`
abbrev pub either : ℕ → ℕ → ℕ → Bool
either b upper lower = b == upper || b == lower

-- `case cc.SPACE: case cc.TAB:`
abbrev pub blank : ℕ → Bool
blank b = b == space || b == tab

-- A missing `reply` is `none`; the numbers are -1 until they are read.
pub record MsgArg : Type 0 where
  pub subject : Bytes
  pub reply : Option Bytes
  pub sid : ℤ
  pub hdr : ℤ
  pub size : ℤ

abbrev pub new_msg_arg : MsgArg
new_msg_arg = record { subject = []; reply = none; sid = negsuc 0; hdr = negsuc 0; size = negsuc 0 }

pub data Event : Type 0 where
  ok ping pong : Event
  err info : Bytes → Event
  msg : MsgArg → Bytes → Event

-- The text of an error before the state's number.
pub data Label : Type 0 where
  parse_error : Label
  args_parse_error args_bad_sid args_bad_size : Label
  header_args_parse_error header_args_bad_sid header_args_bad_hdr header_args_bad_size : Label

-- What `fail` puts into the message: the label, `this.state`, and the bytes at hand.
pub record ParseError : Type 0 where
  pub label : Label
  pub state : State
  pub at : Bytes

-- `start` is the field `as`, and `dropped` the field `drop`.
pub record Parser : Type 0 where
  pub state : State
  pub start : ℕ
  pub dropped : ℕ
  pub hdr : ℤ
  pub ma : MsgArg
  pub arg_buf : Option Bytes
  pub msg_buf : Option Bytes
  pub out : List Event

-- `new Parser(dispatcher)`. `ma` is not set by the constructor; every message begins with a new one.
abbrev pub new_parser : Parser
new_parser = record {
  state = op_start;
  start = 0;
  dropped = 0;
  hdr = pos 0;
  ma = new_msg_arg;
  arg_buf = none;
  msg_buf = none;
  out = [];
}

-- A thrown error leaves the events that were pushed before it. `stuck` is a loop without fuel.
pub data Result {ℓ} (A : Type ℓ) : Type ℓ where
  done : A → Result A
  fail : ParseError → List Event → Result A
  stuck : Result A

infixl 5 ◌>>=◌
abbrev pub ◌>>=◌ {ℓ κ} : {A : Type ℓ} {B : Type κ} → Result A → (A → Result B) → Result B
done a >>= f = f a
fail e out >>= f = fail e out
stuck >>= f = stuck

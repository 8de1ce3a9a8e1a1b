-- ===== src/Parser/Args.antt =====
-- `protoParseInt`, `processMsgArgs` and `processHeaderMsgArgs` of core/src/parser.ts.
use nats_js.Base.{
  Bool-cases, inl, inr, ◌≡◌, arith, pos_part, ℕ, ◌+◌, ◌-◌, ◌*◌, Bytes, ℤ, pos, negsuc, Option, none,
  some, List, [], ◌∷◌, ◌++◌, Bool, true, false, ◌||◌, ltb, leb_ℤ, ltb_ℤ, ◌==◌, if◌then◌else◌,
  length,
}
use nats_js.Parser.Defs.{
  cr, nl, blank, MsgArg, Label, args_parse_error, args_bad_sid, args_bad_size,
  header_args_parse_error, header_args_bad_sid, header_args_bad_hdr, header_args_bad_size,
}

abbrev pub max_64mb : ℕ
max_64mb = 64 * 1024 * 1024

-- The loop over the digits of `protoParseInt`.
unfoldable pub digits : ℕ → Bytes → Option ℕ
digits n [] = some n
digits n (c ∷ cs) = if ltb c 48 || ltb 57 c then none else digits (n * 10 + (c - 48)) cs

-- `max !== undefined && n > max ? -1 : n`
unfoldable pub capped : Option ℕ → ℕ → ℤ
capped none n = pos n
capped (some max) n = if ltb max n then negsuc 0 else pos n

unfoldable pub proto_parse_int : Bytes → Option ℕ → ℤ
unfolding digits capped
proto_parse_int a max =
    if length a == 0 || ltb 15 (length a)
    then negsuc 0
    else elim (digits 0 a) [ none ↦ negsuc 0 | some n ↦ capped max n ]

-- The characters that separate the arguments.
abbrev pub separator : ℕ → Bool
separator b = blank b || b == cr || b == nl

-- The loop that collects the arguments: `word` is `arg.subarray(start, i)`, `none` while `start` is -1.
unfoldable pub split_args : Option Bytes → Bytes → List Bytes
split_args none [] = []
split_args (some word) [] = word ∷ []
split_args none (b ∷ bs) = split_args (if separator b then none else some (b ∷ [])) bs
split_args (some word) (b ∷ bs) = elim (separator b) [
  | true ↦ word ∷ split_args none bs
  | false ↦ split_args (some (word ++ b ∷ [])) bs
]

pub data ArgsResult : Type 0 where
  args : MsgArg → ArgsResult
  bad : Label → ArgsResult

-- The checks after the `switch` of `processMsgArgs`.
unfoldable pub check_args : MsgArg → ArgsResult
check_args ma =
    if ltb_ℤ ma.sid (pos 0)
    then bad args_bad_sid
    else if ltb_ℤ ma.size (pos 0)
    then bad args_bad_size
    else args ma

unfoldable pub msg_args : MsgArg → List Bytes → ArgsResult
msg_args ma (subject ∷ sid ∷ size ∷ []) = check_args (record ma {
  subject = subject;
  sid = proto_parse_int sid none;
  reply = none;
  size = proto_parse_int size (some max_64mb);
})
msg_args ma (subject ∷ sid ∷ reply ∷ size ∷ []) = check_args (record ma {
  subject = subject;
  sid = proto_parse_int sid none;
  reply = some reply;
  size = proto_parse_int size (some max_64mb);
})
msg_args ma _ = bad args_parse_error

-- The checks after the `switch` of `processHeaderMsgArgs`.
unfoldable pub check_header_args : MsgArg → ArgsResult
check_header_args ma =
    if ltb_ℤ ma.sid (pos 0)
    then bad header_args_bad_sid
    else if ltb_ℤ ma.hdr (pos 0) || ltb_ℤ ma.size ma.hdr
    then bad header_args_bad_hdr
    else if ltb_ℤ ma.size (pos 0)
    then bad header_args_bad_size
    else args ma

unfoldable pub header_msg_args : MsgArg → List Bytes → ArgsResult
header_msg_args ma (subject ∷ sid ∷ hdr ∷ size ∷ []) = check_header_args (record ma {
  subject = subject;
  sid = proto_parse_int sid none;
  reply = none;
  hdr = proto_parse_int hdr (some max_64mb);
  size = proto_parse_int size (some max_64mb);
})
header_msg_args ma (subject ∷ sid ∷ reply ∷ hdr ∷ size ∷ []) = check_header_args (record ma {
  subject = subject;
  sid = proto_parse_int sid none;
  reply = some reply;
  hdr = proto_parse_int hdr (some max_64mb);
  size = proto_parse_int size (some max_64mb);
})
header_msg_args ma _ = bad header_args_parse_error

unfoldable pub process_header_msg_args : MsgArg → Bytes → ArgsResult
unfolding header_msg_args check_header_args
process_header_msg_args ma arg = header_msg_args ma (split_args none arg)

-- `hdr` is the parser's field, which says whether the message has headers.
unfoldable pub process_msg_args : ℤ → MsgArg → Bytes → ArgsResult
unfolding process_header_msg_args msg_args check_args
process_msg_args hdr ma arg =
    if leb_ℤ (pos 0) hdr then process_header_msg_args ma arg else msg_args ma (split_args none arg)

msg_args-size :
    (ma : MsgArg) (l : List Bytes) {ma' : MsgArg}
    → msg_args ma l ≡ args ma'
    → ma'.size ≡ pos (pos_part ma'.size)
unfolding msg_args check_args
msg_args-size ma (a ∷ b ∷ c ∷ []) h = ground arith
msg_args-size ma (a ∷ b ∷ c ∷ d ∷ []) h = ground arith
msg_args-size ma _ h = cc

header_msg_args-size :
    (ma : MsgArg) (l : List Bytes) {ma' : MsgArg}
    → header_msg_args ma l ≡ args ma'
    → ma'.size ≡ pos (pos_part ma'.size)
unfolding header_msg_args check_header_args
header_msg_args-size ma (a ∷ b ∷ c ∷ d ∷ []) h = ground arith
header_msg_args-size ma (a ∷ b ∷ c ∷ d ∷ e ∷ []) h = ground arith
header_msg_args-size ma _ h = cc

-- Accepted arguments have a size that is not negative.
pub process_msg_args-size :
    (hdr : ℤ) (ma : MsgArg) (arg : Bytes) {ma' : MsgArg}
    → process_msg_args hdr ma arg ≡ args ma'
    → ma'.size ≡ pos (pos_part ma'.size)
unfolding process_msg_args
process_msg_args-size hdr ma arg {ma'} h = elim (Bool-cases (leb_ℤ (pos 0) hdr)) [
  | inl with_headers ↦
      header_msg_args-size ma (split_args none arg) {ma' = ma'} (rw with_headers at h)
  | inr without ↦ msg_args-size ma (split_args none arg) {ma' = ma'} (rw without at h)
]

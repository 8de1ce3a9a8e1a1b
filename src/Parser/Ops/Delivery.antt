-- ===== src/Parser/Ops/Delivery.antt =====
-- What a server writes, against the events of the parser, for any cuts of the transport.
use mathlib.Core.List.{flatten}
use nats_js.Base.{
  ◌≡◌, refl, sym, ap, ◌∙◌, Bytes, ℤ, pos, negsuc, List, [], ◌∷◌, ◌++◌, append-nil, append_assoc,
  length,
}
use nats_js.Parser.Defs.{
  op_msg_spc, op_start, MsgArg, new_msg_arg, Event, new_parser, Parser, Result, done, fail, stuck,
}
use nats_js.Parser.Loop.{parse_all}
use nats_js.Parser.Wire.{Wire, going, new_wire, run}
use nats_js.Parser.Chunks.{outcome, parse_all-refines}
use nats_js.Parser.Ops.{
  ServerOp, written, word, head_line, crlf, Announces, of_ok, of_ping, of_pong, of_err, of_info,
  of_msg, of_hmsg,
}
use nats_js.Parser.Ops.Heads.{
  accepted, process_msg_args-head_line, process_msg_args-head_line_hdr, head_line-IsText,
  head_line-append, line_word, IsWord-line,
}
use nats_js.Parser.Ops.Reads.{
  idle, run-ok, run-ping, run-pong, run-err, run-info, run-line, run-in_payload, run-msg_name,
  run-hmsg_name,
}

-- The parser is between two operations again, and has pushed one event.
abbrev Pushes : Wire → Bytes → List Event → Bytes → Type 0
Pushes w bytes out rest = (hdr : ℤ) × (ma : MsgArg) × (run w bytes ≡ run (idle hdr ma out) rest)

run-written :
    {op : ServerOp} {e : Event} (hdr : ℤ) (ma : MsgArg) (out : List Event) (rest : Bytes)
    → Announces op e
    → Pushes (idle hdr ma out) (written op rest) (out ++ e ∷ []) rest
run-written hdr ma out rest of_ok = (hdr, ma, run-ok hdr ma out rest)
run-written hdr ma out rest of_ping = (hdr, ma, run-ping hdr ma out rest)
run-written hdr ma out rest of_pong = (hdr, ma, run-pong hdr ma out rest)
run-written hdr ma out rest (of_err text h) = (hdr, ma, run-err hdr ma out text rest h)
run-written hdr ma out rest (of_info text h) = (hdr, ma, run-info hdr ma out text rest h)
run-written hdr ma out rest (of_msg h sid payload ok) = (
  negsuc 0,
  accepted h sid (negsuc 0) (length payload),
  run-msg_name hdr ma out _
      ∙ ap (run (record (idle (negsuc 0) new_msg_arg out) { state = op_msg_spc }))
          (head_line-append h h.size (crlf (payload ++ crlf rest)))
      ∙ run-line (negsuc 0) new_msg_arg out (head_line h h.size) (payload ++ crlf rest)
          (head_line-IsText h h.size ok (IsWord-line h.size ok.size_digits.0.0))
          (process_msg_args-head_line h sid (length payload) ok)
      ∙ run-in_payload (negsuc 0) (accepted h sid (negsuc 0) (length payload)) out payload rest
          refl,
)
run-written hdr ma out rest (of_hmsg h sid hdr_word hdr_size payload ok w fits) = (
  pos 0,
  accepted h sid (pos hdr_size) (length payload),
  run-hmsg_name hdr ma out _
      ∙ ap (run (record (idle (pos 0) new_msg_arg out) { state = op_msg_spc })) (
          ap (head_line h)
            (sym (append_assoc hdr_word (b' ' ∷ h.size) (crlf (payload ++ crlf rest))))
          ∙ head_line-append h (word hdr_word h.size) (crlf (payload ++ crlf rest)))
      ∙ run-line (pos 0) new_msg_arg out (head_line h (word hdr_word h.size)) (payload ++ crlf rest)
          (head_line-IsText h (word hdr_word h.size) ok
            (line_word hdr_word _ w.0.0 (refl, IsWord-line h.size ok.size_digits.0.0)))
          (process_msg_args-head_line_hdr h sid (length payload) ok hdr_word hdr_size w fits)
      ∙ run-in_payload (pos 0) (accepted h sid (pos hdr_size) (length payload)) out payload rest
          refl,
)

-- The operations of a connection, one behind the other.
abbrev pub written_all : List ServerOp → Bytes
written_all [] = []
written_all (op ∷ ops) = written op (written_all ops)

abbrev pub AnnouncesAll : List ServerOp → List Event → Type 0
AnnouncesAll [] [] = Unit
AnnouncesAll (op ∷ ops) (e ∷ es) = Announces op e × AnnouncesAll ops es
AnnouncesAll _ _ = ⊥

run-written_all :
    (ops : List ServerOp) (es : List Event) (hdr : ℤ) (ma : MsgArg) (out : List Event)
    → AnnouncesAll ops es
    → (hdr' : ℤ) × (ma' : MsgArg) × (run (idle hdr ma out) (written_all ops)
        ≡ going (idle hdr' ma' (out ++ es)))
run-written_all [] [] hdr ma out h = (hdr, ma, rw append-nil (unfold run in refl))
run-written_all [] (e ∷ es) hdr ma out h = absurd h
run-written_all (op ∷ ops) [] hdr ma out h = absurd h
run-written_all (op ∷ ops) (e ∷ es) hdr ma out h =
    let (hdr₁, ma₁, one) = run-written hdr ma out (written_all ops) h.0 in
    let (hdr₂, ma₂, more) = run-written_all ops es hdr₁ ma₁ (out ++ e ∷ []) h.1 in
    (hdr₂, ma₂, one ∙ more ∙ ap (λ t. going (idle hdr₂ ma₂ t)) (append_assoc out (e ∷ []) es))

outcome_going :
    (r : Result Parser) {w : Wire}
    → outcome r ≡ going w
    → (p : Parser) × (r ≡ done p) × (p.out ≡ w.out) × (p.state ≡ w.state)
outcome_going (done p) h = (p, refl, cc, cc)
outcome_going (fail e out) h = cc
outcome_going stuck h = cc

-- Whatever operations a server writes, with numbers of at most 15 digits and sizes of at most 64 MB, headers no longer
-- than their payload, and texts that do not begin with a blank, and however the transport cuts their bytes into buffers,
-- the parser accepts the buffers, has pushed exactly the events of the operations, in order, with their
-- arguments and payloads, and stands at the start of an operation.
pub parse_all-written_all :
    (bufs : List Bytes) (ops : List ServerOp) (es : List Event)
    → AnnouncesAll ops es
    → flatten bufs ≡ written_all ops
    → (p : Parser) × (parse_all new_parser bufs ≡ done p) × (p.out ≡ es) × (p.state ≡ op_start)
parse_all-written_all bufs ops es h cut =
    let (hdr, ma, reads) = run-written_all ops es (pos 0) new_msg_arg [] h in
    let all = ap (run new_wire) cut ∙ reads in
    outcome_going (parse_all new_parser bufs) (parse_all-refines bufs (λ s. cc) ∙ all)

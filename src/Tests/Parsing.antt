-- ===== src/Tests/Parsing.antt =====
-- The parser of core/src/parser.ts on operations that are cut by the transport.
use mathlib.Core.List.{flatten}
use nats_js.Base.{
  ap, Bool, true, false, ◌≡◌, ◌≢◌, refl, arith, Bytes, codes, List, [], ◌∷◌, ◌++◌, none, some, pos,
  negsuc,
}
use nats_js.Parser.Defs.{Event, Parser, new_parser, done, op_start, cr, nl}
use nats_js.Parser.Args.{proto_parse_int, process_msg_args, split_args}
use nats_js.Parser.Loop.{parse_all}
use nats_js.Parser.Wire.{Progress, new_wire, run, stray, take_byte}
use nats_js.Parser.Chunks.{outcome, parse_all-refines}
use nats_js.Parser.Ops.{ServerOp, Head, IsHead, of_msg, of_hmsg, of_ping, of_info}
use nats_js.Parser.Ops.Delivery.{AnnouncesAll, parse_all-written_all}

abbrev head : Head
head = record { subject = codes "foo"; sid = codes "9"; reply = none; size = codes "5" }

abbrev headed : Head
headed = record {
  subject = codes "a.b";
  sid = codes "12";
  reply = some (codes "_R");
  size = codes "4";
}

abbrev ops : List ServerOp
ops =
    ServerOp.info (codes "{}")
    ∷ ServerOp.msg head (codes "he" ++ cr ∷ nl ∷ codes "o")
    ∷ ServerOp.hmsg headed (codes "2") (codes "HHpp")
    ∷ ServerOp.ping
    ∷ []

abbrev events : List Event
events =
    Event.info (codes "{}")
    ∷ Event.msg
        (record { subject = codes "foo"; reply = none; sid = pos 9; hdr = negsuc 0; size = pos 5 })
        (codes "he" ++ cr ∷ nl ∷ codes "o")
    ∷ Event.msg
        (record {
          subject = codes "a.b";
          reply = some (codes "_R");
          sid = pos 12;
          hdr = pos 2;
          size = pos 4;
        })
        (codes "HHpp")
    ∷ Event.ping
    ∷ []

abbrev cut : List Bytes
cut =
    (codes "INFO {}" ++ cr ∷ [])
    ∷ (nl ∷ codes "MSG fo")
    ∷ (codes "o 9 5" ++ cr ∷ nl ∷ codes "he")
    ∷ (cr ∷ nl ∷ codes "o" ++ cr ∷ nl ∷ codes "HMSG a.b 12 _R 2 4" ++ cr ∷ nl ∷ codes "H")
    ∷ (codes "Hpp" ++ cr ∷ nl ∷ codes "PI")
    ∷ (codes "NG" ++ cr ∷ nl ∷ [])
    ∷ []

is_head : IsHead head 9 5
is_head = record {
  subject_word = (refl, (refl, (refl, tt)));
  reply_word = tt;
  sid_digits = ((refl, tt), (refl, tt), omega arith, refl);
  size_digits = (((refl, tt), (refl, tt), omega arith, refl), omega arith);
}

is_headed : IsHead headed 12 4
is_headed = record {
  subject_word = (refl, (refl, (refl, tt)));
  reply_word = (refl, (refl, tt));
  sid_digits = ((refl, (refl, tt)), (refl, (refl, tt)), omega arith, refl);
  size_digits = (((refl, tt), (refl, tt), omega arith, refl), omega arith);
}

announced : AnnouncesAll ops events
announced = (
  of_info (codes "{}") (refl, (refl, tt)),
  (
    of_msg head 9 _ is_head,
    (
      of_hmsg headed 12 (codes "2") 2 (codes "HHpp") is_headed
          (((refl, tt), (refl, tt), omega arith, refl), omega arith) (omega arith),
      (of_ping, tt),
    ),
  ),
)

parse_all-written_all_example :
    (p : Parser) × (parse_all new_parser cut ≡ done p) × (p.out ≡ events) × (p.state ≡ op_start)
unfolding flatten
parse_all-written_all_example = parse_all-written_all cut ops events announced refl

-- A message whose size is not a number.
abbrev bad_size : List Bytes
bad_size = (codes "PING" ++ cr ∷ []) ∷ (nl ∷ codes "MSG foo 9 x5" ++ cr ∷ nl ∷ []) ∷ []

abbrev is_stray : Progress → Bool
is_stray stray = true
is_stray _ = false

no_stray : run new_wire (flatten bad_size) ≢ stray
unfolding run flatten proto_parse_int take_byte process_msg_args split_args
no_stray e = let h : false ≡ true = ap is_stray e in ground arith

parse_all-refines_example :
    outcome (parse_all new_parser bad_size) ≡ run new_wire (flatten bad_size)
parse_all-refines_example = parse_all-refines bad_size no_stray

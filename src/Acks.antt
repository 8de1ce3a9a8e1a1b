-- ===== src/Acks.antt =====
-- The acknowledgements of a message in jetstream/src/jsmsg.ts.
pub mod Final
use nats_js.Base.{
  ℕ, Bool, true, false, not, Option, none, some, List, [], ◌∷◌, ◌++◌, ◌==◌, if◌then◌else◌, Bytes,
  codes, eq_text, length,
}

abbrev pub ack_bytes : Bytes
ack_bytes = codes "+ACK"

abbrev pub nak_bytes : Bytes
nak_bytes = codes "-NAK"

abbrev pub wpi_bytes : Bytes
wpi_bytes = codes "+WPI"

abbrev pub nxt_bytes : Bytes
nxt_bytes = codes "+NXT"

abbrev pub term_bytes : Bytes
term_bytes = codes "+TERM"

-- `JsMsgImpl`: `has_reply` is whether the message has a subject to answer to, and `sent` what was sent to it.
pub record JsMsg : Type 0 where
  pub has_reply : Bool
  pub did_ack : Bool
  pub sent : List Bytes

abbrev pub new_js_msg : Bool → JsMsg
new_js_msg has_reply = record { has_reply = has_reply; did_ack = false; sent = [] }

unfoldable pub is_wip : Bytes → Bool
is_wip p = eq_text p wpi_bytes

-- `msg.respond`: without a reply subject nothing is sent.
unfoldable pub respond : Bytes → JsMsg → JsMsg
respond p m = if m.has_reply then record m { sent = m.sent ++ p ∷ [] } else m

unfoldable pub do_ack : Bytes → JsMsg → JsMsg
unfolding is_wip respond
do_ack p m = if m.did_ack then m else respond p (record m { did_ack = not (is_wip p) })

-- `ackAck`, up to the wait for the answer.
unfoldable pub ack_ack : JsMsg → JsMsg
unfolding respond
ack_ack m = if m.did_ack then m else respond ack_bytes (record m { did_ack = true })

unfoldable pub ack : JsMsg → JsMsg
unfolding do_ack
ack m = do_ack ack_bytes m

-- The delay, if there is one, is the text that `JSON.stringify` makes of it.
unfoldable pub nak : Option Bytes → JsMsg → JsMsg
unfolding do_ack
nak none m = do_ack nak_bytes m
nak (some delay) m = do_ack (codes "-NAK " ++ delay) m

unfoldable pub working : JsMsg → JsMsg
unfolding do_ack
working m = do_ack wpi_bytes m

-- `next`, with the text of its options.
unfoldable pub next : Bytes → JsMsg → JsMsg
unfolding respond
next options m = respond (nxt_bytes ++ b' ' ∷ options) m

unfoldable pub term : Bytes → JsMsg → JsMsg
unfolding do_ack
term [] m = do_ack term_bytes m
term (c ∷ reason) m = do_ack (codes "+TERM " ++ c ∷ reason) m

-- ===== src/Protocol/Publish.antt =====
-- `publish` of core/src/protocol.ts, with the encoding of texts as a parameter.
use nats_js.Base.{
  ℕ, suc, ◌+◌, Bool, true, false, Option, none, some, List, [], ◌∷◌, ◌++◌, ltb, if◌then◌else◌,
  Bytes, Text, codes, length, print_ℕ, Result, ok, failed,
}
use nats_js.Base.Errors.{◌>>=◌}
use nats_js.Headers.Names.{HeaderError, exact}
use nats_js.Headers.Table.{MsgHdrs, new_msg_hdrs, set}
use nats_js.Headers.Wire.{to_text}
use nats_js.Base.{pos}
use nats_js.Protocol.Outbound.{Link, send_command}

pub data PublishError : Type 0 where
  bad_header : HeaderError → PublishError
  max_payload_exceeded : PublishError

-- What `publish` reads of the server's info.
pub record Info : Type 0 where
  pub headers : Bool
  pub max_payload : ℕ

pub record PublishOptions : Type 0 where
  pub reply : Text
  pub headers : Option MsgHdrs
  pub trace_destination : Option Text
  pub trace_only : Bool

pub record Publisher : Type 0 where
  pub link : Link
  pub info : Option Info
  pub out_bytes : ℕ
  pub out_msgs : ℕ

abbrev pub or_new : Option MsgHdrs → MsgHdrs
or_new none = new_msg_hdrs (pos 0) []
or_new (some h) = h

abbrev pub with_only : Bool → MsgHdrs → Result HeaderError MsgHdrs
with_only true h = set (codes "Nats-Trace-Only") (codes "true") exact h
with_only false h = ok h

abbrev pub with_dest : Option Text → MsgHdrs → Result HeaderError MsgHdrs
with_dest none h = ok h
with_dest (some d) h = set (codes "Nats-Trace-Dest") d exact h

abbrev pub some_of : Result HeaderError MsgHdrs → Result HeaderError (Option MsgHdrs)
some_of (ok h) = ok (some h)
some_of (failed e) = failed e

-- `traceHeaders`: the headers of the caller, or a copy of them with what traces.
unfoldable pub trace_headers : PublishOptions → Result HeaderError (Option MsgHdrs)
trace_headers o = elim (o.trace_destination) [
  | none ↦ if o.trace_only then some_of (with_only true (or_new o.headers)) else ok o.headers
  | some d ↦ some_of (with_only o.trace_only (or_new o.headers) >>= with_dest (some d))
]

-- `max_payload` is kept to once the info is known.
abbrev pub too_long : Option Info → ℕ → Bool
too_long none n = false
too_long (some i) n = ltb i.max_payload n

abbrev pub spaced : Text → Text
spaced [] = []
spaced (c ∷ cs) = c ∷ cs ++ codes " "

-- The line before the payload; `hlen` is none without headers.
abbrev pub pub_line : Text → Text → Option ℕ → ℕ → Text
pub_line subject reply none len =
    codes "PUB " ++ (subject ++ (codes " " ++ (spaced reply ++ (print_ℕ len ++ codes "\r\n"))))
pub_line subject reply (some hlen) len =
    codes "HPUB "
    ++ (subject
        ++ (codes " "
            ++ (spaced reply ++ (print_ℕ hlen ++ (codes " " ++ (print_ℕ len ++ codes "\r\n"))))))

module _ (encode : Text → Bytes) where
  abbrev pub header_bytes : Option MsgHdrs → Bytes
  header_bytes none = []
  header_bytes (some h) = encode (to_text h)

  abbrev pub header_length : Option MsgHdrs → Option ℕ
  header_length none = none
  header_length (some h) = some (length (encode (to_text h)))

  abbrev pub payloads : Option MsgHdrs → Bytes → List Bytes
  payloads none data_bytes = data_bytes ∷ codes "\r\n" ∷ []
  payloads (some h) data_bytes = encode (to_text h) ∷ data_bytes ∷ codes "\r\n" ∷ []

  -- What follows once the headers are known.
  unfoldable pub publish_with :
      Text → Bytes → PublishOptions → Option MsgHdrs → Publisher → Result PublishError Publisher
  unfolding send_command
  publish_with subject data_bytes o hdrs p =
      let len = length data_bytes + length (header_bytes hdrs) in
      if too_long p.info len
      then failed max_payload_exceeded
      else ok (record (p) {
        out_bytes = p.out_bytes + len;
        out_msgs = suc p.out_msgs;
        link =
            send_command (encode (pub_line subject o.reply (header_length hdrs) len))
              (payloads hdrs data_bytes) p.link;
      })

  unfoldable pub publish_traced :
      Text
      → Bytes
      → PublishOptions
      → Result HeaderError (Option MsgHdrs)
      → Publisher
      → Result PublishError Publisher
  unfolding publish_with
  publish_traced subject data_bytes o (failed e) p = failed (bad_header e)
  publish_traced subject data_bytes o (ok hdrs) p = publish_with subject data_bytes o hdrs p

  -- The error for headers that the server does not support is made and not thrown.
  unfoldable pub publish : Text → Bytes → PublishOptions → Publisher → Result PublishError Publisher
  unfolding publish_traced trace_headers
  publish subject data_bytes o p = publish_traced subject data_bytes o (trace_headers o) p

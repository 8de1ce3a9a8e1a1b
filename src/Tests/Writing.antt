-- ===== src/Tests/Writing.antt =====
-- What the protocol handler of core/src/protocol.ts writes, and its subscriptions.
use mathlib.Core.List.{flatten}
use nats_js.Base.{
  ℕ, ◌≡◌, ◌↔◌, refl, true, false, not, ◌&&◌, ◌||◌, List, [], ◌∷◌, ◌++◌, codes, none, some, pos, inl,
  Text, length, failed,
}
use nats_js.Buffers.DataBuffer.{contents}
use nats_js.Buffers.DataBuffer.Contents.{IsCounted}
use nats_js.Headers.Table.{MsgHdrs, new_msg_hdrs, set}
use nats_js.Headers.Wire.{to_text}
use nats_js.Protocol.Outbound.{
  Link, new_link, Event, command, microtask, flushed, got_pong, got_info, connects, step, run,
}
use nats_js.Protocol.Ordered.{stream, all_written, stream-run}
use nats_js.Protocol.Pongs.{asked, all_asks, asked-run}
use nats_js.Protocol.Flowing.{Reaches, starts, steps, Reaches-contents}
use nats_js.Protocol.Publish.{
  PublishOptions, Publisher, publish, trace_headers, max_payload_exceeded, header_bytes,
}
use nats_js.Protocol.Failures.{Failing, was_auth}
use nats_js.Protocol.Aborts.{
  process_errors, serious, repeats, kinds, last_of, process_errors-aborts,
}
use nats_js.Protocol.Published.{IsPublished, Fits, publish-IsPublished, publish-failed}

abbrev written_text : Text → List ℕ
written_text t = t

abbrev link : Link
link = new_link 16

abbrev events : List Event
events =
    got_info (codes "CONNECT {}\r\n")
    ∷ command (codes "SUB a 1\r\n") []
    ∷ connects []
    ∷ command (codes "PUB a 2\r\n") (codes "hi" ∷ codes "\r\n" ∷ [])
    ∷ microtask
    ∷ flushed 7
    ∷ got_pong
    ∷ []

stream-run_example :
    (stream (run events link) ≡ stream link ++ all_written events)
    × IsCounted (run events link).outbound
unfolding flatten
stream-run_example = stream-run events link (tt, (tt, (tt, (tt, (tt, (tt, (tt, tt))))))) refl

asked-run_example : asked (run events link) ≡ asked link ++ all_asks events
asked-run_example = asked-run events link

joined : Reaches (step (connects []) (step (got_info []) link))
joined =
    steps (step (got_info []) link) (connects []) (steps link (got_info []) (starts 16) (inl refl))
      tt

Reaches-contents_example : contents (step (connects []) (step (got_info []) link)).outbound ≡ []
unfolding step
Reaches-contents_example =
    Reaches-contents (step (connects []) (step (got_info []) link)) joined refl refl refl

abbrev options : PublishOptions
options = record {
  reply = codes "r";
  headers = some (new_msg_hdrs (pos 0) []);
  trace_destination = none;
  trace_only = true;
}

abbrev traced : MsgHdrs
traced = record (new_msg_hdrs (pos 0) []) {
  entries = record { key = codes "Nats-Trace-Only"; vals = codes "true" ∷ [] } ∷ [];
}

abbrev publisher : ℕ → Publisher
publisher n = record {
  link = link;
  info = some (record { headers = true; max_payload = n });
  out_bytes = 0;
  out_msgs = 0;
}

abbrev published : Publisher
published = record (publisher 100) {
  out_bytes = 37;
  out_msgs = 1;
  link =
      step
        (command (codes "HPUB s r 35 37\r\n")
          (codes "NATS/1.0\r\nNats-Trace-Only: true\r\n\r\n" ∷ codes "hi" ∷ codes "\r\n" ∷ []))
        link;
}

publish-IsPublished_example :
    IsPublished written_text
      (codes "s")
      (codes "hi")
      options
      (some traced)
      (publisher 100)
      published
unfolding publish trace_headers step flatten set to_text
publish-IsPublished_example =
    publish-IsPublished written_text (codes "s") (codes "hi") options (some traced) (publisher 100)
      published refl refl refl

publish-failed_example :
    (publish written_text (codes "s") (codes "hi") options (publisher 36)
      ≡ failed max_payload_exceeded)
    ↔ (¬ Fits
        (some (record { headers = true; max_payload = 36 }))
        (length (header_bytes written_text (some traced) ++ codes "hi")))
unfolding trace_headers set
publish-failed_example =
    publish-failed written_text (codes "s") (codes "hi") options (some traced) (publisher 36) refl

abbrev failing : Failing
failing = record {
  ignore_auth_error_abort = false;
  last_error = none;
  abort_reconnect = false;
  connecting = false;
  refused = [];
  disconnects = 0;
}

abbrev refusals : List Text
refusals =
    codes "'Authorization Violation'"
    ∷ codes "'Permissions Violation for Publish to \"a\"'"
    ∷ codes "'User Authentication Expired'"
    ∷ []

gives_up : (process_errors refusals failing).abort_reconnect ≡ true
unfolding process_errors
gives_up = refl

process_errors-aborts_example :
    ((process_errors refusals failing).abort_reconnect ≡ (
      failing.abort_reconnect
      || (repeats (was_auth failing.last_error) (kinds refusals)
          && not failing.ignore_auth_error_abort)))
    × ((process_errors refusals failing).last_error ≡ last_of failing.last_error (serious refusals))
process_errors-aborts_example = process_errors-aborts refusals failing

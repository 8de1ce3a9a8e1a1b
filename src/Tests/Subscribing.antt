-- ===== src/Tests/Subscribing.antt =====
-- The subscriptions of core/src/protocol.ts.
use nats_js.Base.{ℕ, ◌≡◌, refl, true, false, List, [], ◌∷◌, codes, none, some, arith, Text, take}
use nats_js.Protocol.Outbound.{new_link}
use nats_js.Protocol.Subscriptions.{Sub, Client, lookup, subscribe, process_msg}
use nats_js.Protocol.Failures.{subscription}
use nats_js.Protocol.Permissions.{handle_error}
use nats_js.Protocol.Denied.{Ends, handle_error-Ends}
use nats_js.Protocol.Arrivals.{Event, message, subscribes, unsubscribes, messages_for, run}
use nats_js.Protocol.Maximum.{run-given}

abbrev unencoded : Text → List ℕ
unencoded t = t

abbrev two_messages : Sub
two_messages = record {
  sid = 0;
  subject = codes "a.*";
  queue = none;
  request_subject = none;
  max = some 2;
  received = 0;
  timer = false;
  no_iterator = true;
  done = false;
  closed = false;
  closings = 0;
  given = [];
  failures = [];
}

abbrev client : Client
client = record {
  objects = λ j. two_messages;
  table = [];
  sid_counter = 0;
  is_closed = false;
  link = new_link 16;
  in_msgs = 0;
  in_bytes = 0;
}

abbrev arrivals : List Event
arrivals =
    message 1 10 5
    ∷ subscribes 4
    ∷ message 2 11 5
    ∷ message 1 12 5
    ∷ message 1 13 5
    ∷ unsubscribes 4 (some 9)
    ∷ []

run-given_example :
    ((run unencoded arrivals (subscribe unencoded 3 client)).objects 3).given
    ≡ take 2 (messages_for 1 arrivals)
unfolding lookup
run-given_example =
    run-given unencoded 3 1 client arrivals
      (λ j. omega arith, λ k e. ground arith, refl, refl, refl) (refl, (refl, tt))

two_given : ((run unencoded arrivals (subscribe unencoded 3 client)).objects 3).given ≡ 10 ∷ 12 ∷ []
unfolding run subscribe process_msg
two_given = refl

abbrev subscribed : Client
subscribed = subscribe unencoded 4 (subscribe unencoded 3 client)

handle_error-Ends_example :
    Ends
      (codes "no")
      3
      4
      2
      none
      subscribed
      (handle_error (codes "no") subscription (codes "a.*") none none subscribed)
unfolding subscribe
handle_error-Ends_example =
    handle_error-Ends (codes "no") subscription (codes "a.*") none none subscribed [] ((2, 4) ∷ [])
      1 3 4 2 refl refl refl refl refl refl

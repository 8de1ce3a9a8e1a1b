-- ===== src/Tests/Requesting.antt =====
-- Requests of core/src/request.ts and core/src/muxsubscription.ts, the pool of core/src/servers.ts, and acknowledgements.
use mathlib.Core.List.{map}
use nats_js.Base.{
  List, ◌≤◌, ◌+◌, ap, eq_text, ◌≢◌, arith, true, ℕ, ◌≡◌, refl, false, [], ◌∷◌, none, some, length,
  take, leb, codes,
}
use nats_js.Requests.Enders.{Options, by_count, millis, finite_wait}
use nats_js.Requests.Many.{
  Many, new_many, resolver, delivered, Reaches, here, then_, answers, tells, tell,
}
use nats_js.Requests.Course.{Stage, Reaches-Stage}
use nats_js.Requests.Limits.{Limited, Reaches-Limited}
use nats_js.Requests.Count.{answer_all, answer_all-count}
use nats_js.Acks.{new_js_msg, ack, next, do_ack, respond, is_wip}
use nats_js.Mux.{Request, Msg, Mux, new_mux, Told, add, cancel, dispatch}
use nats_js.Mux.Dispatch.{Change, adds, cancels, change_all, Hears, dispatch_lem}
use nats_js.Acks.Final.{
  Use, works, acks, naks, nexts, finals, count_nexts, apply, apply_all, apply_all-finals,
}
use nats_js.Pool.{Server, Servers, remove_server, snapshot_for_handler}
use nats_js.Pool.Rotation.{selects, selects-length}
use nats_js.Pool.Removal.{remove_server_lem, snapshot_for_handler_lem, remove_server-Absent}

abbrev options : Options
options = record {
  strategy = by_count;
  max_wait = millis 2000;
  timeout = some 300;
  stall = none;
  max_messages = some 2;
}

abbrev answered : Many
answered = resolver none (codes "b") (resolver none (codes "a") (new_many options))

course : Reaches (new_many options) (tell answered)
unfolding resolver new_many
course =
    then_ (then_ (then_ here (answers none (codes "a") refl)) (answers none (codes "b") refl))
      (tells refl refl)

Reaches-Stage_example : Stage (tell answered)
Reaches-Stage_example = Reaches-Stage options course

abbrev half : Many
half = resolver none (codes "a") (new_many options)

half_way : Reaches (new_many options) half
unfolding new_many
half_way = then_ here (answers none (codes "a") refl)

Reaches-Limited_example : Limited 2000 half
unfolding finite_wait
Reaches-Limited_example = Reaches-Limited options 2000 refl half_way

answer_all-count_example :
    ((answer_all (codes "a" ∷ codes "b" ∷ codes "c" ∷ []) (new_many options)).calls
      ≡ map delivered (take 2 (codes "a" ∷ codes "b" ∷ codes "c" ∷ [])))
    × ((answer_all (codes "a" ∷ codes "b" ∷ codes "c" ∷ []) (new_many options)).done
        ≡ leb 2 (length (codes "a" ∷ codes "b" ∷ codes "c" ∷ [])))
answer_all-count_example =
    answer_all-count options 1 (codes "a" ∷ codes "b" ∷ codes "c" ∷ []) refl refl

abbrev server : ℕ → Server
server n = record { id = n; listen = codes "127.0.0.1:4222" }

abbrev pool : Servers
pool = record {
  first_select = false;
  servers = server 1 ∷ server 2 ∷ server 3 ∷ [];
  current = some (server 2);
}

selects-length_example :
    ((selects 3 pool).0 ≡ map some pool.servers) × ((selects 3 pool).1.servers ≡ pool.servers)
selects-length_example = selects-length pool refl

remove_server_lem_example :
    (remove_server (some (server 2)) pool).servers ≡ server 1 ∷ server 3 ∷ []
remove_server_lem_example =
    remove_server_lem pool (server 1 ∷ []) (server 3 ∷ []) (server 2) refl (refl, tt)

snapshot_for_handler_lem_example : snapshot_for_handler pool ≡ server 2 ∷ server 1 ∷ server 3 ∷ []
snapshot_for_handler_lem_example =
    snapshot_for_handler_lem pool (server 1 ∷ []) (server 3 ∷ []) (server 2) refl refl (refl, tt)

remove_server-Absent_example :
    (remove_server (some (server 9)) pool).servers ≡ server 1 ∷ server 2 ∷ []
remove_server-Absent_example =
    remove_server-Absent pool (server 1 ∷ server 2 ∷ []) (server 9) (server 3) refl
      (refl, (refl, (refl, tt)))

abbrev uses : List Use
uses = works ∷ acks ∷ naks none ∷ []

apply_all-finals_example :
    (finals (apply_all uses (new_js_msg true)).sent ≤ 1 + count_nexts uses)
    × ((apply_all uses (new_js_msg true)).did_ack ≡ false
        → finals (apply_all uses (new_js_msg true)).sent ≤ count_nexts uses)
apply_all-finals_example = apply_all-finals true uses

-- `next` sends a second final payload behind an `ack`.
two_finals : finals (apply_all (acks ∷ nexts [] ∷ []) (new_js_msg true)).sent ≡ 2
unfolding apply_all apply ack next do_ack respond is_wip
two_finals = refl

abbrev waiting : Request
waiting = record { token = codes "t1"; request_subject = codes "q" }

abbrev inbox : Mux
inbox = new_mux (codes "_INBOX.x.")

abbrev reply : Msg
reply = record { subject = codes "_INBOX.x.t1"; data_bytes = codes "hi"; code = none }

token_not_empty : waiting.token ≢ []
token_not_empty e = ground arith

abbrev other : Request
other = record { token = codes "t2"; request_subject = codes "q" }

abbrev meanwhile : List Change
meanwhile = adds other ∷ cancels other ∷ []

other_token : other.token ≢ waiting.token
other_token e = let z : false ≡ true = ap (λ t. eq_text t (codes "t1")) e in ground arith

dispatch_lem_example :
    ((t : Told) × (dispatch none reply (change_all meanwhile (add waiting inbox))
        ≡ some (waiting, t))
      × Hears none reply waiting t)
    × (dispatch none reply (change_all meanwhile (cancel waiting (add waiting inbox))) ≡ none)
dispatch_lem_example =
    dispatch_lem none reply inbox waiting meanwhile token_not_empty (other_token, (other_token, tt))
      refl

-- ===== src/Tests/Connecting.antt =====
-- The dial loop of core/src/protocol.ts.
use nats_js.Base.{
  ℕ, suc, ◌+◌, ◌-◌, ◌*◌, ◌≤◌, ◌≡◌, refl, true, false, [], ◌∷◌, codes, none, some, pos, inl, arith,
}
use nats_js.Pool.{Server, select_server, remove_current_server}
use nats_js.Dial.{Options, Turn, Dialer, dial_loop}
use nats_js.Dial.Moves.{chances}
use nats_js.Dial.Ending.{IsEnded, dial_loop_ends}
use nats_js.Dial.Bound.{state, dial_loop-times}
use nats_js.Dial.Attempts.{times}

abbrev server_a : Server
server_a = record { id = 1; listen = codes "a:4222" }

abbrev server_b : Server
server_b = record { id = 2; listen = codes "b:4222" }

abbrev server_c : Server
server_c = record { id = 3; listen = codes "c:4222" }

abbrev limit : ℕ → Options
limit n = record { max_reconnect_attempts = pos n; wait_on_first_connect = false }

abbrev refused : ℕ → Turn
refused i = record {
  closing = false;
  wait = some 20;
  idle = 1;
  late = 0;
  dialing = 3;
  pick = none;
  result = some i;
  aborts = false;
  news = λ p. p;
  kept_error = none;
}

abbrev waiting : Dialer
waiting = record {
  pool = record {
    first_select = true;
    servers = server_a ∷ server_b ∷ server_c ∷ [];
    current = some server_a;
  };
  reconnects = λ i. 0;
  last_connect = λ i. 0;
  connected_once = true;
  abort_reconnect = false;
  last_error = none;
  loop_error = none;
  clock = 1000;
  dials = [];
}

dials_in_turn :
    (state (dial_loop 40 (limit 2) refused 0 waiting)).dials ≡ 1 ∷ 2 ∷ 3 ∷ 1 ∷ 2 ∷ 3 ∷ []
unfolding dial_loop select_server remove_current_server
dials_in_turn = refl

-- On the first connection, with a limit of one attempt, the third server is thrown out without a dial.
third_is_skipped :
    (state (dial_loop 40 (limit 1) refused 0 (record (waiting) { connected_once = false }))).dials
    ≡ 1 ∷ 2 ∷ []
unfolding dial_loop select_server remove_current_server
third_is_skipped = refl

dial_loop_ends_example :
    IsEnded (dial_loop (suc (chances 2 waiting * suc 20 + 20)) (limit 2) refused 0 waiting)
dial_loop_ends_example =
    dial_loop_ends 2 (limit 2) refl refused 20 (λ i. refl) (λ i. omega arith) 0 waiting (inl refl)
      (λ i. omega arith)

dial_loop-times_example : times 3 (state (dial_loop 40 (limit 2) refused 0 waiting)).dials ≤ 2 - 0
dial_loop-times_example =
    dial_loop-times 2 (limit 2) refused 40 waiting (λ j. refl) refl (inl refl)
      (refl, (refl, (refl, tt))) (λ i h. omega arith) (λ s h. omega arith) (λ i. omega arith) refl 3

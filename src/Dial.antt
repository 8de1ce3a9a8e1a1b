-- ===== src/Dial.antt =====
-- The dial loop of `ProtocolHandler` in core/src/protocol.ts. What a dial comes to, what the user's handlers
-- say, how long it takes, and what the infos of a handshake make of the pool are told turn by turn.
use nats_js.Base.{
  ◌≡◌, ℕ, zero, suc, ◌+◌, ◌-◌, min, Bool, true, false, not, ◌&&◌, ◌||◌, Option, none, some, List,
  [], ◌∷◌, ◌++◌, leb, ◌==◌, if◌then◌else◌, ℤ, pos, negsuc,
}
use nats_js.Pool.{
  Server, Servers, same, clear, select_server, remove_current_server, snapshot_for_handler, find,
  set_current,
}
pub mod Weights
pub mod Turns
pub mod Progress
pub mod Moves
pub mod Ending
pub mod Unique
pub mod Attempts
pub mod Fits
pub mod Bound

-- `max_reconnect_attempts` is -1 for no limit.
pub record Options : Type 0 where
  pub max_reconnect_attempts : ℤ
  pub wait_on_first_connect : Bool

pub data DialError : Type 0 where
  connection_refused : DialError
  dial_failed : ℕ → DialError
  delay_handler_failed : DialError
  server_handler_failed : DialError

-- What the handler `reconnectToServer` answers: it throws, gives null, or a server with a delay.
pub data Picked : Type 0 where
  throws : Picked
  keeps : Picked
  picks : Server → ℕ → Picked

-- What a turn of the loop meets: whether the connection is closed or closing, what `reconnectDelay` gives (none
-- if the handler throws), the time that has passed before the clock is read, how late a timer is, how long a
-- dial takes, the error it ends with if it fails, whether it asks to abort, and the error that the
-- connection keeps after it. `news` is what the infos of the handshake make of the pool: nothing, with
-- `ignoreClusterUpdates`, or else what `update` of Servers makes of it.
pub record Turn : Type 0 where
  pub closing : Bool
  pub wait : Option ℕ
  pub idle : ℕ
  pub late : ℕ
  pub dialing : ℕ
  pub news : Servers → Servers
  pub pick : Option (List Server → Picked)
  pub result : Option ℕ
  pub aborts : Bool
  pub kept_error : Option ℕ

-- The fields of servers that the loop changes are functions of their identity; `loop_error` is the local
-- `lastError`, and `dials` are the servers dialed so far.
pub record Dialer : Type 0 where
  pub pool : Servers
  pub reconnects : ℕ → ℕ
  pub last_connect : ℕ → ℕ
  pub connected_once : Bool
  pub abort_reconnect : Bool
  pub last_error : Option ℕ
  pub loop_error : Option ℕ
  pub clock : ℕ
  pub dials : List ℕ

-- The infos leave the pool as it is.
abbrev pub Still : Turn → Type 0
Still t = t.news ≡ (λ p. p)

-- What a turn comes to: the loop goes on, or has connected, or throws.
pub data Turned : Type 0 where
  goes_on : Dialer → Turned
  connected : Dialer → Turned
  threw : DialError → Dialer → Turned

abbrev pub update : (ℕ → ℕ) → ℕ → ℕ → ℕ → ℕ
update f i x j = if i == j then x else f j

abbrev pub error_or : Option ℕ → DialError → DialError
error_or none e = e
error_or (some n) e = dial_failed n

-- The error that is thrown when there is no server to dial.
abbrev pub no_server : Dialer → DialError
no_server d = error_or d.loop_error (error_or d.last_error connection_refused)

-- `mra !== -1 && target.reconnects >= mra`
abbrev pub gives_up : ℤ → ℕ → Bool
gives_up (pos m) n = leb m n
gives_up (negsuc zero) n = false
gives_up (negsuc (suc m)) n = true

-- The count of the target, and its removal when it has had its attempts.
unfoldable pub count_attempt : Options → Server → Dialer → Dialer
count_attempt o target d =
    let n = suc (d.reconnects target.id) in
    record (d) {
      reconnects = update d.reconnects target.id n;
      pool = if gives_up o.max_reconnect_attempts n then remove_current_server d.pool else d.pool;
    }

-- The `catch` behind `_doDial`.
unfoldable pub fail_dial : Options → Server → Dialer → Dialer
unfolding count_attempt
fail_dial o target d =
    if d.connected_once
    then count_attempt o target d
    else if o.wait_on_first_connect
    then d
    else count_attempt o target (record (d) { pool = remove_current_server d.pool })

-- What the dial comes to; a connection sets the count of its server back.
unfoldable pub end_dial : Options → Turn → Server → Dialer → Turned
unfolding fail_dial
end_dial o t target d = elim (t.result) [
  | none ↦
      connected (record (d) { connected_once = true; reconnects = update d.reconnects target.id 0 })
  | some e ↦ goes_on (
      fail_dial o target (record (d) {
        loop_error = some e;
        last_error = t.kept_error;
        abort_reconnect = d.abort_reconnect || t.aborts;
      }))
]

-- From the delay that the handler asks for to the end of the dial.
unfoldable pub dial : Options → Turn → Server → ℕ → Dialer → Turned
unfolding end_dial
dial o t target extra d =
    let at = d.clock + extra + t.late in
    end_dial o t target (record (d) {
      last_connect = update d.last_connect target.id at;
      clock = at + t.dialing;
      pool = t.news d.pool;
      dials = d.dials ++ target.id ∷ [];
    })

-- The server that the handler picks has to be in the pool.
unfoldable pub dial_found : Options → Turn → Server → ℕ → Option Server → Dialer → Turned
unfolding dial
dial_found o t srv extra none d = threw server_handler_failed d
dial_found o t srv extra (some found) d =
    if same found srv
    then dial o t srv extra d
    else dial o t found extra (record (d) { pool = set_current found d.pool })

unfoldable pub dial_picked : Options → Turn → Server → Picked → Dialer → Turned
unfolding dial dial_found
dial_picked o t srv throws d = threw server_handler_failed d
dial_picked o t srv keeps d = dial o t srv 0 d
dial_picked o t srv (picks s extra) d = dial_found o t srv extra (find s d.pool) d

unfoldable pub dial_selected : Options → Turn → Server → Dialer → Turned
unfolding dial dial_picked
dial_selected o t srv d = elim (t.pick) [
  | none ↦ dial o t srv 0 d
  | some f ↦ dial_picked o t srv (f (snapshot_for_handler d.pool)) d
]

-- `srv.lastConnect === 0 || srv.lastConnect + wait <= now`
abbrev pub is_due : ℕ → ℕ → ℕ → Bool
is_due last wait now = last == 0 || leb (last + wait) now

-- The delay until the server is due; when `close` cancels it, the pool is cleared next, and the time is no matter.
unfoldable pub wait_for : Turn → ℕ → Server → Dialer → Dialer
wait_for t wait srv d = record (d) {
  clock = d.clock + min wait (d.last_connect srv.id + wait - d.clock) + t.late;
}

-- The body of the loop, once the server is selected; `d` has its clock at `now`.
unfoldable pub turn_selected : Options → Turn → ℕ → Option Server → Dialer → Turned
unfolding dial_selected wait_for
turn_selected o t wait none d = threw (no_server d) d
turn_selected o t wait (some srv) d =
    if d.abort_reconnect
    then threw (no_server d) d
    else if is_due (d.last_connect srv.id) wait d.clock
    then dial_selected o t srv d
    else goes_on (wait_for t wait srv d)

unfoldable pub turn_waiting : Options → Turn → Option ℕ → Dialer → Turned
unfolding turn_selected
turn_waiting o t none d = threw delay_handler_failed d
turn_waiting o t (some wait) d =
    let s = select_server d.pool in
    turn_selected o t wait s.0 (record (d) { pool = s.1; clock = d.clock + t.idle })

-- One turn of the loop.
unfoldable pub turn : Options → Turn → Dialer → Turned
unfolding turn_waiting
turn o t d =
    turn_waiting o t t.wait (record (d) { pool = if t.closing then clear d.pool else d.pool })

-- `dodialLoop` from turn `i` on; the fuel is the number of turns, after which it still goes on.
unfoldable pub dial_loop : ℕ → Options → (ℕ → Turn) → ℕ → Dialer → Turned
unfolding turn
dial_loop zero o turns i d = goes_on d
dial_loop (suc fuel) o turns i d = elim (turn o (turns i) d) [
  | goes_on d' ↦ dial_loop fuel o turns (suc i) d'
  | connected d' ↦ connected d'
  | threw x d' ↦ threw x d'
]

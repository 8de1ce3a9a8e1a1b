-- ===== src/Protocol/Failures.antt =====
-- Errors of the server in core/src/protocol.ts and core/src/errors.ts: what kind they are, and what they do.
use nats_js.Base.{
  ℕ, suc, Bool, true, false, not, ◌&&◌, ◌||◌, Option, none, some, List, [], ◌∷◌, ◌++◌, map, ◌==◌,
  if◌then◌else◌, Text, codes, length, drop,
}
use nats_js.Headers.Names.{is_space, lower_char}
use nats_js.Headers.Wire.{is_prefix}

pub data Operation : Type 0 where
  publishing : Operation
  subscription : Operation

-- The classes of errors that `toError` makes; each has its message, and a permission violation
-- has its operation, subject and queue.
pub data ServerError : Type 0 where
  permission_violation : Text → Operation → Text → Option Text → ServerError
  user_authentication_expired : Text → ServerError
  authorization : Text → ServerError
  protocol : Text → ServerError

-- `s.indexOf(p) !== -1`
unfoldable pub includes : Text → Text → Bool
unfolding is_prefix
includes p [] = is_prefix p []
includes p (c ∷ cs) = let rest = includes p cs in is_prefix p (c ∷ cs) || rest

abbrev pub lower : Text → Text
lower s = map lower_char s

unfoldable pub black_run : Text → Text
black_run [] = []
black_run (c ∷ cs) = let rest = black_run cs in if is_space c then [] else c ∷ rest

-- What stands before the last quote.
unfoldable pub before_quote : Text → Option Text
before_quote [] = none
before_quote (c ∷ cs) = elim (before_quote cs) [
  | some r ↦ some (c ∷ r)
  | none ↦ if c == b'"' then some [] else none
]

abbrev pub not_empty : Option Text → Option Text
not_empty none = none
not_empty (some []) = none
not_empty (some (c ∷ cs)) = some (c ∷ cs)

-- /(\S+)"/, behind an opening quote.
unfoldable pub quoted : Text → Option Text
unfolding black_run before_quote
quoted s = not_empty (before_quote (black_run s))

abbrev pub after : Text → Text → Option Text
after p s = if is_prefix p s then quoted (drop (length p) s) else none

abbrev pub or_else {ℓ} : {A : Type ℓ} → Option A → Option A → Option A
or_else none y = y
or_else (some x) y = some x

abbrev pub tagged : Operation → Option Text → Option (Operation × Text)
tagged o none = none
tagged o (some t) = some (o, t)

-- /(Publish|Subscription) to "(\S+)"/, at its first place.
unfoldable pub match_operation : Text → Option (Operation × Text)
unfolding is_prefix quoted
match_operation [] = none
match_operation (c ∷ cs) =
    let rest = match_operation cs in
    or_else (tagged publishing (after (codes "Publish to \"") (c ∷ cs)))
      (or_else (tagged subscription (after (codes "Subscription to \"") (c ∷ cs))) rest)

-- /using queue "(\S+)"/
unfoldable pub match_queue : Text → Option Text
unfolding is_prefix quoted
match_queue [] = none
match_queue (c ∷ cs) =
    let rest = match_queue cs in or_else (after (codes "using queue \"") (c ∷ cs)) rest

abbrev pub violation : Text → Option (Operation × Text) → ServerError
violation s none = permission_violation s publishing [] none
violation s (some (publishing, t)) = permission_violation s publishing t none
violation s (some (subscription, t)) = permission_violation s subscription t (match_queue s)

-- `toError`, with the `parse` of each class.
unfoldable pub to_error : Text → ServerError
unfolding includes match_operation match_queue
to_error s =
    if includes (codes "permissions violation") (lower s)
    then violation s (match_operation s)
    else if includes (codes "user authentication expired") (lower s)
    then user_authentication_expired s
    else if includes (codes "authorization violation") (lower s)
        || includes (codes "account authentication expired") (lower s)
        || includes (codes "authentication timeout") (lower s)
    then authorization s
    else protocol s

abbrev pub is_auth : ServerError → Bool
is_auth (permission_violation m o s q) = false
is_auth (user_authentication_expired s) = true
is_auth (authorization s) = true
is_auth (protocol s) = false

abbrev pub is_permission : ServerError → Bool
is_permission (permission_violation m o s q) = true
is_permission (user_authentication_expired s) = false
is_permission (authorization s) = false
is_permission (protocol s) = false

-- What the handler keeps of errors. `connecting` says that `connectError` is set, which is called with the errors
-- of `refused`; `disconnects` counts the calls of `disconnect`.
pub record Failing : Type 0 where
  pub ignore_auth_error_abort : Bool
  pub last_error : Option ServerError
  pub abort_reconnect : Bool
  pub connecting : Bool
  pub refused : List ServerError
  pub disconnects : ℕ

abbrev pub was_auth : Option ServerError → Bool
was_auth none = false
was_auth (some e) = is_auth e

unfoldable pub handle_auth_error : ServerError → Failing → Failing
handle_auth_error e f =
    let g : Failing = record (f) {
      abort_reconnect =
          f.abort_reconnect || (was_auth f.last_error && not f.ignore_auth_error_abort);
    } in
    if f.connecting
    then record (g) { refused = f.refused ++ e ∷ [] }
    else record (g) { disconnects = suc f.disconnects }

abbrev pub keep_error : ServerError → Failing → Failing
keep_error e f = if is_permission e then f else record (f) { last_error = some e }

unfoldable pub handle_error : ServerError → Failing → Failing
unfolding handle_auth_error
handle_error e f = keep_error e (if is_auth e then handle_auth_error e f else f)

abbrev pub starts_quoted : Text → Bool
starts_quoted [] = false
starts_quoted (c ∷ cs) = c == b'\''

abbrev pub ends_quoted : Text → Bool
ends_quoted [] = false
ends_quoted (c ∷ []) = c == b'\''
ends_quoted (c ∷ d ∷ cs) = ends_quoted (d ∷ cs)

abbrev pub drop_last : Text → Text
drop_last [] = []
drop_last (c ∷ []) = []
drop_last (c ∷ d ∷ cs) = c ∷ drop_last (d ∷ cs)

-- The text of an error without its quotes.
unfoldable pub unquote : Text → Text
unquote s = if starts_quoted s && ends_quoted s then drop_last (drop 1 s) else s

-- What `processError` does to these fields.
unfoldable pub process_error : Text → Failing → Failing
unfolding unquote to_error handle_error
process_error m f = handle_error (to_error (unquote m)) f

-- ===== src/Mux.antt =====
-- core/src/muxsubscription.ts: the requests that wait for answers, by their tokens.
pub mod Dispatch
use nats_js.Base.{
  ℕ, Bool, true, false, ◌&&◌, Option, none, some, List, [], ◌∷◌, ◌++◌, ◌==◌, if◌then◌else◌, Text,
  Bytes, eq_text, length,
}

-- What a request is told: an error, that nobody responds to its subject, or a message.
pub data Told : Type 0 where
  failed : ℕ → Told
  no_responders : Text → Told
  answered : Bytes → Told

pub record Request : Type 0 where
  pub token : Text
  pub request_subject : Text

-- A message; `code` is the status of its headers.
pub record Msg : Type 0 where
  pub subject : Text
  pub data_bytes : Bytes
  pub code : Option ℕ

-- The entries of the `Map` stand in the order in which their keys were first set.
pub record Mux : Type 0 where
  pub base_inbox : Text
  pub reqs : List Request

-- `init`, given the inbox that `createInbox` makes, with its dot.
abbrev pub new_mux : Text → Mux
new_mux base_inbox = record { base_inbox = base_inbox; reqs = [] }

abbrev pub same : Request → Text → Bool
same r t = eq_text r.token t

unfoldable pub put : Request → List Request → List Request
put r [] = r ∷ []
put r (q ∷ qs) = let rest = put r qs in if same q r.token then r ∷ qs else q ∷ rest

unfoldable pub lookup : Text → List Request → Option Request
lookup t [] = none
lookup t (q ∷ qs) = let rest = lookup t qs in if same q t then some q else rest

unfoldable pub remove : Text → List Request → List Request
remove t [] = []
remove t (q ∷ qs) = let rest = remove t qs in if same q t then rest else q ∷ rest

unfoldable pub size : Mux → ℕ
size m = length m.reqs

unfoldable pub add : Request → Mux → Mux
unfolding put
add r m = record m { reqs = put r m.reqs }

unfoldable pub get : Text → Mux → Option Request
unfolding lookup
get t m = lookup t m.reqs

unfoldable pub cancel : Request → Mux → Mux
unfolding remove
cancel r m = record m { reqs = remove r.token m.reqs }

-- What is left of a text behind a prefix.
unfoldable pub behind : Text → Text → Option Text
behind [] s = some s
behind (c ∷ cs) [] = none
behind (c ∷ cs) (d ∷ ds) = let rest = behind cs ds in if c == d then rest else none

unfoldable pub get_token : Msg → Mux → Option Text
unfolding behind
get_token msg m = behind m.base_inbox msg.subject

abbrev pub is_503 : Option ℕ → Bool
is_503 none = false
is_503 (some c) = c == 503

-- The error and the message that the request is given.
unfoldable pub told : Option ℕ → Msg → Request → Told
told (some err) msg r = failed err
told none msg r =
    if length msg.data_bytes == 0 && is_503 msg.code
    then no_responders r.request_subject
    else answered msg.data_bytes

unfoldable pub tell_token : Option ℕ → Msg → Text → Mux → Option (Request × Told)
unfolding get told
tell_token err msg [] m = none
tell_token err msg (c ∷ cs) m = elim (get (c ∷ cs) m) [
  | none ↦ none
  | some r ↦ some (r, told err msg r)
]

-- `dispatcher`: the request that is told, and what; `none` if there is none.
unfoldable pub dispatch : Option ℕ → Msg → Mux → Option (Request × Told)
unfolding get_token tell_token
dispatch err msg m = elim (get_token msg m) [ none ↦ none | some t ↦ tell_token err msg t m ]

abbrev pub find_subject : Text → List Request → Option Request
find_subject s [] = none
find_subject s (q ∷ qs) = if eq_text q.request_subject s then some q else find_subject s qs

abbrev pub one : Option Request → List Request × Bool
one none = ([], false)
one (some r) = (r ∷ [], true)

-- `handleError` of a permission violation: the requests that are told of it, and whether it is handled. `publishing`
-- is whether the violation is of a publish, and `s` its subject.
unfoldable pub handle_error : Bool → Bool → Text → Mux → List Request × Bool
handle_error is_mux publishing s m =
    if is_mux
    then (m.reqs, true)
    else if publishing
    then one (find_subject s m.reqs)
    else ([], false)

-- `close` tells every request.
unfoldable pub close : Mux → List Request
close m = m.reqs

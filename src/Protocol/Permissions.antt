-- ===== src/Protocol/Permissions.antt =====
-- What a permission violation does to the subscriptions of core/src/protocol.ts: `handleError` of Subscriptions.
use nats_js.Base.{
  ℕ, Bool, true, false, not, ◌&&◌, Option, none, some, List, [], ◌∷◌, ◌++◌, ◌==◌, if◌then◌else◌,
  Text, eq_text,
}
use nats_js.Protocol.Failures.{Operation, publishing, subscription}
use nats_js.Protocol.Subscriptions.{Sub, Client, remove, set_object, close_sub}

abbrev pub eq_option : Option Text → Option Text → Bool
eq_option none none = true
eq_option (some s) (some t) = eq_text s t
eq_option none (some t) = false
eq_option (some s) none = false

-- The test of the two searches; a subscription with a request subject is that of a request without the mux.
abbrev pub concerns : Operation → Text → Option Text → Sub → Bool
concerns subscription subject queue s = eq_text s.subject subject && eq_option s.queue queue
concerns publishing subject queue s = eq_option s.request_subject (some subject)

unfoldable pub find : (Sub → Bool) → List (ℕ × ℕ) → (ℕ → Sub) → Option ℕ
find p [] o = none
find p ((k, i) ∷ t) o = let rest = find p t o in if p (o i) then some i else rest

-- `guardedCallback` with an error: a callback of the user, which changes nothing, or the subscription's own, which
-- stops the iterator.
unfoldable pub fail_callback : Text → Sub → Sub
fail_callback m s =
    if s.no_iterator
    then record (s) { failures = s.failures ++ m ∷ [] }
    else if s.done
    then record (s) { timer = false }
    else record (s) { timer = false; done = true; failures = s.failures ++ m ∷ [] }

abbrev pub is_mux : ℕ → Option ℕ → Bool
is_mux i none = false
is_mux i (some j) = j == i

-- `mux` is the subscription of the mux; the result says what `handleError` returns.
unfoldable pub end_sub : Text → ℕ → Option ℕ → Client → Client × Bool
unfolding fail_callback close_sub remove
end_sub m i mux c =
    let s = close_sub (fail_callback m (c.objects i)) in
    let d : Client = set_object i s c in
    (record (d) { table = remove s.sid c.table }, not (is_mux i mux))

unfoldable pub handle_error :
    Text → Operation → Text → Option Text → Option ℕ → Client → Client × Bool
unfolding find end_sub
handle_error m operation subject queue mux c =
    elim (find (concerns operation subject queue) c.table c.objects) [
      | none ↦ (c, false)
      | some i ↦ end_sub m i mux c
    ]

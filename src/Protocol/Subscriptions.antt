-- ===== src/Protocol/Subscriptions.antt =====
-- The subscriptions of core/src/protocol.ts: the classes SubscriptionImpl and Subscriptions, and what the protocol
-- handler does with them. Texts are encoded by a parameter.
use nats_js.Base.{
  ℕ, suc, ◌+◌, Bool, true, false, Option, none, some, List, [], ◌∷◌, ◌++◌, leb, ◌==◌, if◌then◌else◌,
  Bytes, Text, codes, print_ℕ,
}
use nats_js.Protocol.Outbound.{Link, send, send_command}

-- A subscription. `given` are the messages that its callback was called with, or that were pushed to its
-- iterator; `closings` counts the closing functions that were pushed; `failures` are the messages of the errors that
-- its callback was called with, or that stopped its iterator.
pub record Sub : Type 0 where
  pub sid : ℕ
  pub subject : Text
  pub queue : Option Text
  pub request_subject : Option Text
  pub max : Option ℕ
  pub received : ℕ
  pub timer : Bool
  pub no_iterator : Bool
  pub done : Bool
  pub closed : Bool
  pub closings : ℕ
  pub given : List ℕ
  pub failures : List Text

-- Subscriptions are objects, told apart by numbers; `table` is the map from sids to them.
pub record Client : Type 0 where
  pub objects : ℕ → Sub
  pub table : List (ℕ × ℕ)
  pub sid_counter : ℕ
  pub is_closed : Bool
  pub link : Link
  pub in_msgs : ℕ
  pub in_bytes : ℕ

unfoldable pub lookup : ℕ → List (ℕ × ℕ) → Option ℕ
lookup k [] = none
lookup k ((j, x) ∷ t) = let rest = lookup k t in if j == k then some x else rest

unfoldable pub put : ℕ → ℕ → List (ℕ × ℕ) → List (ℕ × ℕ)
put k x [] = (k, x) ∷ []
put k x ((j, y) ∷ t) = let rest = put k x t in if j == k then (k, x) ∷ t else (j, y) ∷ rest

unfoldable pub remove : ℕ → List (ℕ × ℕ) → List (ℕ × ℕ)
remove k [] = []
remove k ((j, y) ∷ t) = let rest = remove k t in if j == k then rest else (j, y) ∷ rest

abbrev pub set_object : ℕ → Sub → Client → Client
set_object i s c = record (c) { objects = λ j. if j == i then s else c.objects j }

-- `cancelTimeout`
abbrev pub cancel_timeout : Sub → Sub
cancel_timeout s = record (s) { timer = false }

-- `SubscriptionImpl.close`: with an iterator, the closing function waits behind the messages.
unfoldable pub close_sub : Sub → Sub
close_sub s =
    if s.done
    then s
    else if s.no_iterator
    then record (s) { timer = false; done = true; closed = true }
    else record (s) { timer = false; closings = suc s.closings }

-- `Subscriptions.cancel`
unfoldable pub cancel : ℕ → Client → Client
unfolding close_sub remove
cancel i c =
    let d : Client = set_object i (close_sub (c.objects i)) c in
    record (d) { table = remove (c.objects i).sid c.table }

-- `Subscriptions.add`
unfoldable pub add : ℕ → Client → Client
unfolding put
add i c =
    let n = suc c.sid_counter in
    let d : Client = set_object i (record (c.objects i) { sid = n }) c in
    record (d) { sid_counter = n; table = put n i c.table }

-- `Subscriptions.resub`
unfoldable pub renew : ℕ → Client → Client
unfolding put remove
renew i c =
    let n = suc c.sid_counter in
    let d : Client = set_object i (record (c.objects i) { sid = n }) c in
    record (d) { sid_counter = n; table = put n i (remove (c.objects i).sid c.table) }

abbrev pub queued : Option Text → Text
queued none = []
queued (some []) = []
queued (some (q ∷ qs)) = q ∷ qs ++ codes " "

abbrev pub sub_line : Sub → Text
sub_line s =
    codes "SUB "
    ++ (s.subject ++ (codes " " ++ (queued s.queue ++ (print_ℕ s.sid ++ codes "\r\n"))))

-- A maximum of 0 is not sent.
abbrev pub limited : Option ℕ → Text
limited none = []
limited (some n) = if n == 0 then [] else codes " " ++ print_ℕ n

abbrev pub unsub_line : ℕ → Option ℕ → Text
unsub_line sid max = codes "UNSUB " ++ (print_ℕ sid ++ (limited max ++ codes "\r\n"))

-- `s.max === undefined || s.received >= s.max`
abbrev pub is_reached : Option ℕ → ℕ → Bool
is_reached none n = true
is_reached (some m) n = leb m n

-- `sub.max !== undefined && sub.received >= sub.max`
abbrev pub is_full : Option ℕ → ℕ → Bool
is_full none n = false
is_full (some m) n = leb m n

module _ (encode : Text → Bytes) where
  abbrev pub command : Text → Client → Client
  command t c = record (c) { link = send_command (encode t) [] c.link }

  unfoldable pub unsub : ℕ → Option ℕ → Client → Client
  unfolding send_command
  unsub i max c =
      if c.is_closed
      then c
      else set_object i (record (c.objects i) { max = max })
          (command (unsub_line (c.objects i).sid max) c)

  abbrev pub cancel_if : Bool → ℕ → Client → Client
  cancel_if true i c = cancel i c
  cancel_if false i c = c

  unfoldable pub unsubscribe : ℕ → Option ℕ → Client → Client
  unfolding unsub cancel
  unsubscribe i max c =
      let d = unsub i max c in cancel_if (is_reached (d.objects i).max (d.objects i).received) i d

  -- `_sub`
  unfoldable pub sub : ℕ → Client → Client
  unfolding send_command
  sub i c = command (sub_line (c.objects i)) c

  abbrev pub sub_limit : ℕ → Option ℕ → Client → Client
  sub_limit i none c = c
  sub_limit i (some n) c = if n == 0 then c else unsubscribe i (some n) c

  -- `subscribe`, with `_subunsub`.
  unfoldable pub subscribe : ℕ → Client → Client
  unfolding add sub unsubscribe
  subscribe i c = let d = sub i (add i c) in sub_limit i (d.objects i).max d

  unfoldable pub resub : ℕ → Text → Client → Client
  unfolding unsub renew sub
  resub i subject c =
      if c.is_closed
      then c
      else (let d = unsub i none c in
          sub i (renew i (set_object i (record (d.objects i) { subject = subject }) d)))

  -- A message for a subscription.
  unfoldable pub deliver : ℕ → ℕ → Client → Client
  unfolding unsubscribe
  deliver i m c =
      let s = c.objects i in
      let t : Sub = record (s) {
        received = suc s.received;
        timer = false;
        given = s.given ++ m ∷ [];
      } in
      let d : Client = set_object i t c in
      if is_full s.max (suc s.received) then unsubscribe i none d else d

  unfoldable pub process_msg : ℕ → ℕ → ℕ → Client → Client
  unfolding deliver lookup
  process_msg sid m size c =
      let d : Client = record (c) { in_msgs = suc c.in_msgs; in_bytes = c.in_bytes + size } in
      if c.sid_counter == 0
      then d
      else elim (lookup sid c.table) [ none ↦ d | some i ↦ deliver i m d ]

  abbrev pub sub_lines : List (ℕ × ℕ) → Client → Text
  sub_lines [] c = []
  sub_lines ((k, i) ∷ t) c = sub_line (c.objects i) ++ sub_lines t c

  abbrev pub send_lines : List (ℕ × ℕ) → Client → Client
  send_lines [] c = c
  send_lines (e ∷ t) c = record (c) { link = send (encode (sub_lines (e ∷ t) c)) c.link }

  unfoldable pub send_subscriptions : Client → Client
  send_subscriptions c = send_lines c.table c

  abbrev pub close_each : List (ℕ × ℕ) → Client → Client
  close_each [] c = c
  close_each ((k, i) ∷ t) c = close_each t (set_object i (close_sub (c.objects i)) c)

  -- `Subscriptions.close`
  unfoldable pub close_all : Client → Client
  unfolding close_sub
  close_all c = close_each c.table c

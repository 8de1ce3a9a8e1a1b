-- ===== src/Acks/Final.antt =====
-- How often a message of jetstream/src/jsmsg.ts is acknowledged.
use mathlib.Core.Path.{subst}
use nats_js.Base.{
  ℕ, suc, ◌+◌, ◌≤◌, ◌≡◌, arith, Bool, false, not, Option, none, some, List, [], ◌∷◌, ◌++◌,
  if◌then◌else◌, Bytes, codes, eq_text,
}
use nats_js.Acks.{
  nak_bytes, term_bytes, ack_bytes, wpi_bytes, nxt_bytes, JsMsg, new_js_msg, is_wip, respond,
  do_ack, ack_ack, ack, nak, working, next, term,
}

-- Every payload is final but for the sign of work.
abbrev pub is_final : Bytes → Bool
is_final p = not (eq_text p wpi_bytes)

abbrev pub finals : List Bytes → ℕ
finals [] = 0
finals (p ∷ ps) = (if is_final p then 1 else 0) + finals ps

finals-append :
    (ps : List Bytes) (p : Bytes)
    → finals (ps ++ p ∷ []) ≡ finals ps + (if is_final p then 1 else 0)
finals-append [] p = omega arith
finals-append (q ∷ ps) p = omega (arith, finals-append ps p)

-- What a program may call, in any order.
pub data Use : Type 0 where
  acks acks_acks works : Use
  naks : Option Bytes → Use
  nexts terms : Bytes → Use

unfoldable pub apply : Use → JsMsg → JsMsg
unfolding ack ack_ack working nak next term
apply acks m = ack m
apply acks_acks m = ack_ack m
apply works m = working m
apply (naks delay) m = nak delay m
apply (nexts options) m = next options m
apply (terms reason) m = term reason m

unfoldable pub apply_all : List Use → JsMsg → JsMsg
apply_all [] m = m
apply_all (u ∷ us) m = apply_all us (apply u m)

-- How often `next` is called.
abbrev pub count_nexts : List Use → ℕ
count_nexts [] = 0
count_nexts (acks ∷ us) = count_nexts us
count_nexts (acks_acks ∷ us) = count_nexts us
count_nexts (works ∷ us) = count_nexts us
count_nexts (naks delay ∷ us) = count_nexts us
count_nexts (nexts options ∷ us) = suc (count_nexts us)
count_nexts (terms reason ∷ us) = count_nexts us

-- With `n` calls of `next`, at most one payload more is final, and none more before `didAck`.
abbrev IsOnce : ℕ → JsMsg → Type 0
IsOnce n m = (finals m.sent ≤ 1 + n) × (m.did_ack ≡ false → finals m.sent ≤ n)

do_ack-IsOnce : (p : Bytes) (n : ℕ) (m : JsMsg) → IsOnce n m → IsOnce n (do_ack p m)
unfolding do_ack respond is_wip
do_ack-IsOnce p n m h = ground (arith, finals-append m.sent p)

ack_ack-IsOnce : (n : ℕ) (m : JsMsg) → IsOnce n m → IsOnce n (ack_ack m)
unfolding ack_ack respond
ack_ack-IsOnce n m h = ground (arith, finals-append m.sent ack_bytes)

next-IsOnce : (options : Bytes) (n : ℕ) (m : JsMsg) → IsOnce n m → IsOnce (suc n) (next options m)
unfolding next respond
next-IsOnce options n m h = ground (arith, finals-append m.sent (nxt_bytes ++ b' ' ∷ options))

nak-IsOnce : (delay : Option Bytes) (n : ℕ) (m : JsMsg) → IsOnce n m → IsOnce n (nak delay m)
unfolding nak
nak-IsOnce none n m h = do_ack-IsOnce nak_bytes n m h
nak-IsOnce (some delay) n m h = do_ack-IsOnce (codes "-NAK " ++ delay) n m h

term-IsOnce : (reason : Bytes) (n : ℕ) (m : JsMsg) → IsOnce n m → IsOnce n (term reason m)
unfolding term
term-IsOnce [] n m h = do_ack-IsOnce term_bytes n m h
term-IsOnce (c ∷ reason) n m h = do_ack-IsOnce (codes "+TERM " ++ c ∷ reason) n m h

apply_all-IsOnce :
    (us : List Use) (n : ℕ) (m : JsMsg) → IsOnce n m → IsOnce (n + count_nexts us) (apply_all us m)
unfolding apply_all apply ack working
apply_all-IsOnce [] n m h = let e : n ≡ n + 0 = omega arith in subst (λ k. IsOnce k m) e h
apply_all-IsOnce (acks ∷ us) n m h =
    apply_all-IsOnce us n (do_ack ack_bytes m) (do_ack-IsOnce ack_bytes n m h)
apply_all-IsOnce (acks_acks ∷ us) n m h = apply_all-IsOnce us n (ack_ack m) (ack_ack-IsOnce n m h)
apply_all-IsOnce (works ∷ us) n m h =
    apply_all-IsOnce us n (do_ack wpi_bytes m) (do_ack-IsOnce wpi_bytes n m h)
apply_all-IsOnce (naks delay ∷ us) n m h =
    apply_all-IsOnce us n (nak delay m) (nak-IsOnce delay n m h)
apply_all-IsOnce (nexts options ∷ us) n m h =
    let e : suc n + count_nexts us ≡ n + suc (count_nexts us) = omega arith in
    subst (λ k. IsOnce k (apply_all us (next options m))) e
      (apply_all-IsOnce us (suc n) (next options m) (next-IsOnce options n m h))
apply_all-IsOnce (terms reason ∷ us) n m h =
    apply_all-IsOnce us n (term reason m) (term-IsOnce reason n m h)

-- Whatever acknowledgements a program asks for, and in whatever order, the payloads sent that are final, which are all
-- but +WPI, are at most one more than the calls of `next`, and no more than those as long as the message does not
-- count as acknowledged.
pub apply_all-finals :
    (has_reply : Bool) (us : List Use)
    → (finals (apply_all us (new_js_msg has_reply)).sent ≤ 1 + count_nexts us)
      × ((apply_all us (new_js_msg has_reply)).did_ack ≡ false
          → finals (apply_all us (new_js_msg has_reply)).sent ≤ count_nexts us)
apply_all-finals has_reply us =
    let r = apply_all-IsOnce us 0 (new_js_msg has_reply) (omega arith, (λ _. omega arith)) in
    (omega (arith, r.0), (λ e. omega (arith, r.1 e)))

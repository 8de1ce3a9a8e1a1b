-- ===== src/Parser/Ops/Words.antt =====
-- How the words of a line are found again.
use nats_js.Base.{
  ℕ, ◌≡◌, refl, ap, ◌∙◌, arith, Bytes, Option, none, some, List, [], ◌∷◌, ◌++◌, false, append-nil,
  append_assoc,
}
use nats_js.Parser.Args.{separator, split_args}
use nats_js.Parser.Ops.{Head, AllNot, IsWord, IsReply, word, words_reply, head_line}

module _ (x : ℕ) (bs : Bytes) where
  step_word :
      (w : Bytes)
      → separator x ≡ false
      → split_args (some w) (x ∷ bs) ≡ split_args (some (w ++ x ∷ [])) bs
  unfolding split_args
  step_word w h = ground arith

  start_word : separator x ≡ false → split_args none (x ∷ bs) ≡ split_args (some (x ∷ [])) bs
  unfolding split_args
  start_word h = ground arith

split_end : (w xs : Bytes) → AllNot separator xs → split_args (some w) xs ≡ (w ++ xs) ∷ []
split_end w [] h = unfold split_args in rw append-nil
split_end w (x ∷ xs) h =
    step_word x xs w h.0
    ∙ split_end (w ++ x ∷ []) xs h.1
    ∙ ap (λ t. t ∷ []) (append_assoc w (x ∷ []) xs)

split_blank :
    (w xs rest : Bytes)
    → AllNot separator xs
    → split_args (some w) (xs ++ b' ' ∷ rest) ≡ (w ++ xs) ∷ split_args none rest
split_blank w [] rest h = unfold split_args in rw append-nil
split_blank w (x ∷ xs) rest h =
    step_word x (xs ++ b' ' ∷ rest) w h.0
    ∙ split_blank (w ++ x ∷ []) xs rest h.1
    ∙ ap (λ t. t ∷ split_args none rest) (append_assoc w (x ∷ []) xs)

-- The last word of a line.
pub split_args-last : (w : Bytes) → IsWord w → split_args none w ≡ w ∷ []
split_args-last [] h = absurd h
split_args-last (x ∷ xs) h = start_word x xs h.0 ∙ split_end (x ∷ []) xs h.1

-- A word with a blank behind it.
pub split_args-word :
    (w rest : Bytes) → IsWord w → split_args none (word w rest) ≡ w ∷ split_args none rest
split_args-word [] rest h = absurd h
split_args-word (x ∷ xs) rest h =
    start_word x (xs ++ b' ' ∷ rest) h.0 ∙ split_blank (x ∷ []) xs rest h.1

abbrev pub reply_words : Option Bytes → List Bytes → List Bytes
reply_words none ws = ws
reply_words (some reply) ws = reply ∷ ws

pub split_args-head_line :
    (h : Head) (rest : Bytes)
    → IsWord h.subject
    → IsWord h.sid
    → IsReply h.reply
    → split_args none (head_line h rest)
      ≡ h.subject ∷ h.sid ∷ reply_words h.reply (split_args none rest)
split_args-head_line h rest s i r =
    split_args-word h.subject _ s
    ∙ ap (◌∷◌ h.subject) (split_args-word h.sid _ i ∙ ap (◌∷◌ h.sid) (reply_split h.reply rest r))
  where
    reply_split :
        (o : Option Bytes) (rest : Bytes)
        → IsReply o
        → split_args none (words_reply o rest) ≡ reply_words o (split_args none rest)
    reply_split none rest r = refl
    reply_split (some w) rest r = split_args-word w rest r

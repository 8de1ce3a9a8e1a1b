-- ===== src/Parser/Ops/Heads.antt =====
-- The argument line of a message, as `processMsgArgs` reads it.
use nats_js.Base.{
  ℕ, ◌≡◌, ◌≤◌, refl, sym, ap, ◌∙◌, arith, Bytes, ℤ, pos, negsuc, [], ◌∷◌, ◌++◌, append_assoc,
  Option, none, some,
}
use nats_js.Parser.Defs.{MsgArg, new_msg_arg}
use nats_js.Parser.Args.{
  args, process_msg_args, max_64mb, proto_parse_int, msg_args, header_msg_args, check_args,
  check_header_args, separator,
}
use nats_js.Parser.Ops.{
  Head, IsHead, IsWord, IsReply, IsText, WritesSize, AllNot, line_byte, word, words_reply,
  head_line,
}
use nats_js.Parser.Ops.Numbers.{proto_parse_int-Writes, proto_parse_int-WritesSize}
use nats_js.Parser.Ops.Words.{split_args-last, split_args-word, split_args-head_line, reply_words}

abbrev pub accepted : Head → ℕ → ℤ → ℕ → MsgArg
accepted h sid hdr size = record {
  subject = h.subject;
  reply = h.reply;
  sid = pos sid;
  hdr = hdr;
  size = pos size;
}

module _ (h : Head) (sid size : ℕ) (ok : IsHead h sid size) where
  sid_is : proto_parse_int h.sid none ≡ pos sid
  sid_is = proto_parse_int-Writes h.sid sid ok.sid_digits

  size_is : proto_parse_int h.size (some max_64mb) ≡ pos size
  size_is = proto_parse_int-WritesSize h.size size ok.size_digits

  msg_args_lem :
      (reply : Option Bytes)
      → msg_args new_msg_arg (h.subject ∷ h.sid ∷ reply_words reply (h.size ∷ []))
        ≡ args (record (accepted h sid (negsuc 0) size) { reply = reply })
  unfolding msg_args check_args
  msg_args_lem none = ground (arith, sid_is, size_is)
  msg_args_lem (some reply) = ground (arith, sid_is, size_is)

  pub process_msg_args-head_line :
      process_msg_args (negsuc 0) new_msg_arg (head_line h h.size)
      ≡ args (accepted h sid (negsuc 0) size)
  unfolding process_msg_args
  process_msg_args-head_line =
      ap (msg_args new_msg_arg) (
        split_args-head_line h h.size ok.subject_word ok.sid_digits.0 ok.reply_word
        ∙ ap (λ ws. h.subject ∷ h.sid ∷ reply_words h.reply ws)
            (split_args-last h.size ok.size_digits.0.0))
      ∙ msg_args_lem h.reply

  module _ (hdr_word : Bytes) (hdr : ℕ) (digits : WritesSize hdr_word hdr) (fits : hdr ≤ size) where
    hdr_is : proto_parse_int hdr_word (some max_64mb) ≡ pos hdr
    hdr_is = proto_parse_int-WritesSize hdr_word hdr digits

    header_msg_args_lem :
        (reply : Option Bytes)
        → header_msg_args new_msg_arg
            (h.subject ∷ h.sid ∷ reply_words reply (hdr_word ∷ h.size ∷ []))
          ≡ args (record (accepted h sid (pos hdr) size) { reply = reply })
    unfolding header_msg_args check_header_args
    header_msg_args_lem none = ground (arith, sid_is, size_is, hdr_is)
    header_msg_args_lem (some reply) = ground (arith, sid_is, size_is, hdr_is)

    pub process_msg_args-head_line_hdr :
        process_msg_args (pos 0) new_msg_arg (head_line h (word hdr_word h.size))
        ≡ args (accepted h sid (pos hdr) size)
    unfolding process_msg_args
    process_msg_args-head_line_hdr =
        ap (header_msg_args new_msg_arg) (
          split_args-head_line h (word hdr_word h.size) ok.subject_word ok.sid_digits.0
            ok.reply_word
          ∙ ap (λ ws. h.subject ∷ h.sid ∷ reply_words h.reply ws)
              (split_args-word hdr_word h.size digits.0.0
                ∙ ap (◌∷◌ hdr_word) (split_args-last h.size ok.size_digits.0.0)))
        ∙ header_msg_args_lem h.reply

-- The line is a text, and stands in front of what follows it.
line_of_word :
    (xs rest : Bytes) → AllNot separator xs → AllNot line_byte rest → AllNot line_byte (xs ++ rest)
line_of_word [] rest h k = k
line_of_word (x ∷ xs) rest h k = (ground arith, line_of_word xs rest h.1 k)

IsText-of_word : (w rest : Bytes) → IsWord w → AllNot line_byte rest → IsText (w ++ rest)
IsText-of_word [] rest h k = absurd h
IsText-of_word (x ∷ xs) rest h k = (h.0, line_of_word xs rest h.1 k)

pub line_word : (w rest : Bytes) → IsWord w → AllNot line_byte rest → AllNot line_byte (w ++ rest)
line_word [] rest h k = k
line_word (x ∷ xs) rest h k = (ground arith, line_of_word xs rest h.1 k)

line_reply :
    (o : Option Bytes) (rest : Bytes)
    → IsReply o
    → AllNot line_byte rest
    → AllNot line_byte (words_reply o rest)
line_reply none rest h k = k
line_reply (some w) rest h k = line_word w (b' ' ∷ rest) h (refl, k)

pub head_line-IsText :
    (h : Head) (rest : Bytes) {sid size : ℕ}
    → IsHead h sid size
    → AllNot line_byte rest
    → IsText (head_line h rest)
head_line-IsText h rest ok k =
    IsText-of_word h.subject _ ok.subject_word
      (refl, line_word h.sid _ ok.sid_digits.0 (refl, line_reply h.reply rest ok.reply_word k))

words_reply-append :
    (o : Option Bytes) (xs ys : Bytes) → words_reply o (xs ++ ys) ≡ words_reply o xs ++ ys
words_reply-append none xs ys = refl
words_reply-append (some w) xs ys = sym (append_assoc w (b' ' ∷ xs) ys)

pub head_line-append : (h : Head) (xs ys : Bytes) → head_line h (xs ++ ys) ≡ head_line h xs ++ ys
head_line-append h xs ys =
    ap (λ t. word h.subject (word h.sid t)) (words_reply-append h.reply xs ys)
    ∙ ap (word h.subject) (sym (append_assoc h.sid (b' ' ∷ words_reply h.reply xs) ys))
    ∙ sym (append_assoc h.subject (b' ' ∷ word h.sid (words_reply h.reply xs)) ys)

plain-line : (xs : Bytes) → AllNot separator xs → AllNot line_byte xs
plain-line [] h = tt
plain-line (x ∷ xs) h = (ground arith, plain-line xs h.1)

pub IsWord-line : (w : Bytes) → IsWord w → AllNot line_byte w
IsWord-line [] h = tt
IsWord-line (x ∷ xs) h = (ground arith, plain-line xs h.1)

-- ===== src/Parser/Ops.antt =====
-- The operations of a server, as it writes them: the grammar that core/src/parser.ts is for.
pub mod Lines
pub mod Words
pub mod Numbers
pub mod Heads
pub mod Reads
pub mod Delivery
use nats_js.Base.{
  codes, ℕ, ◌≡◌, ◌≤◌, Bytes, pos, negsuc, Option, none, some, List, [], ◌∷◌, ◌++◌, Bool, false,
  ◌||◌, ◌==◌, length, is_digit, decimal_from, All,
}
use nats_js.Parser.Defs.{Event, MsgArg, cr, nl, blank}
use nats_js.Parser.Args.{separator}

-- `sid`, `hdr` and `size` are the numerals as they are written.
pub record Head : Type 0 where
  pub subject : Bytes
  pub sid : Bytes
  pub reply : Option Bytes
  pub size : Bytes

pub data ServerOp : Type 0 where
  ok ping pong : ServerOp
  err info : Bytes → ServerOp
  msg : Head → Bytes → ServerOp
  hmsg : Head → Bytes → Bytes → ServerOp

abbrev pub crlf : Bytes → Bytes
crlf rest = cr ∷ nl ∷ rest

-- A word and the blank behind it.
abbrev pub word : Bytes → Bytes → Bytes
word w rest = w ++ b' ' ∷ rest

abbrev pub words_reply : Option Bytes → Bytes → Bytes
words_reply none rest = rest
words_reply (some reply) rest = word reply rest

abbrev pub head_line : Head → Bytes → Bytes
head_line h rest = word h.subject (word h.sid (words_reply h.reply rest))

-- What the server writes, before `rest`.
abbrev pub written : ServerOp → Bytes → Bytes
written ok rest = codes "+OK" ++ crlf rest
written ping rest = codes "PING" ++ crlf rest
written pong rest = codes "PONG" ++ crlf rest
written (err text) rest = codes "-ERR " ++ (text ++ crlf rest)
written (info text) rest = codes "INFO " ++ (text ++ crlf rest)
written (msg h payload) rest = codes "MSG " ++ head_line h (h.size ++ crlf (payload ++ crlf rest))
written (hmsg h hdr payload) rest =
    codes "HMSG " ++ head_line h (word hdr (h.size ++ crlf (payload ++ crlf rest)))

abbrev pub AllNot : (ℕ → Bool) → Bytes → Type 0
AllNot p [] = Unit
AllNot p (b ∷ bs) = (p b ≡ false) × AllNot p bs

abbrev pub line_byte : ℕ → Bool
line_byte b = b == cr || b == nl

-- Words have at least one byte, and none that separates words.
abbrev pub IsWord : Bytes → Type 0
IsWord [] = ⊥
IsWord (b ∷ bs) = (separator b ≡ false) × AllNot separator bs

abbrev pub IsReply : Option Bytes → Type 0
IsReply none = Unit
IsReply (some reply) = IsWord reply

-- The text of an error or of an INFO: one line that does not begin with a blank.
abbrev pub IsText : Bytes → Type 0
IsText [] = ⊥
IsText (b ∷ bs) = (separator b ≡ false) × AllNot line_byte bs

-- The digits of a number, which is read digit by digit: at least one, and at most 15.
abbrev pub Writes : Bytes → ℕ → Type 0
Writes w n = IsWord w × All is_digit w × (length w ≤ 15) × (decimal_from 0 w ≡ n)

-- A size is at most 64 MB.
abbrev pub WritesSize : Bytes → ℕ → Type 0
WritesSize w n = Writes w n × (n ≤ 67108864)

pub record IsHead (h : Head) (sid size : ℕ) : Type 0 where
  pub subject_word : IsWord h.subject
  pub reply_word : IsReply h.reply
  pub sid_digits : Writes h.sid sid
  pub size_digits : WritesSize h.size size

-- `e` is the event of the operation, whose payload is as long as its line says.
pub data Announces : ServerOp → Event → Type 0 where
  of_ok : Announces ok Event.ok
  of_ping : Announces ping Event.ping
  of_pong : Announces pong Event.pong
  of_err : (text : Bytes) → IsText text → Announces (err text) (Event.err text)
  of_info : (text : Bytes) → IsText text → Announces (info text) (Event.info text)
  of_msg :
      (h : Head) (sid : ℕ) (payload : Bytes)
      → IsHead h sid (length payload)
      → Announces (msg h payload) (
          Event.msg
            (record {
              subject = h.subject;
              reply = h.reply;
              sid = pos sid;
              hdr = negsuc 0;
              size = pos (length payload);
            })
            payload)
  of_hmsg :
      (h : Head) (sid : ℕ) (hdr_word : Bytes) (hdr : ℕ) (payload : Bytes)
      → IsHead h sid (length payload)
      → WritesSize hdr_word hdr
      → hdr ≤ length payload
      → Announces (hmsg h hdr_word payload) (
          Event.msg
            (record {
              subject = h.subject;
              reply = h.reply;
              sid = pos sid;
              hdr = pos hdr;
              size = pos (length payload);
            })
            payload)

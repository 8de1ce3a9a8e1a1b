-- ===== src/Parser/Ops/Reads.antt =====
-- The byte-wise parser on each operation of a server.
use nats_js.Base.{
  codes, ◌⊎◌, inl, inr, ℕ, ◌≡◌, refl, sym, ap, ◌∙◌, arith, Bytes, ℤ, pos, negsuc, pos_part, List,
  [], ◌∷◌, ◌++◌, true, false, length,
}
use nats_js.Parser.Defs.{
  op_msg_spc, op_minus_err_spc, op_info_spc, State, op_start, msg_payload, msg_end, msg_arg,
  minus_err_arg, info_arg, MsgArg, new_msg_arg, Event, cr, nl,
}
use nats_js.Parser.Args.{args, separator, process_msg_args}
use nats_js.Parser.Wire.{Wire, going, take_byte, end_msg, run, ◌then_run◌, run_cons}
use nats_js.Parser.Simulation.{payload_bulk}
use nats_js.Parser.Ops.{ServerOp, IsText, crlf, written}
use nats_js.Parser.Ops.Lines
use nats_js.Parser.Ops.Lines.{in_line, run-in_line}

-- Between two operations; `hdr` and `ma` are left from the last message.
abbrev pub idle : ℤ → MsgArg → List Event → Wire
idle hdr ma out = record {
  state = op_start;
  hdr = hdr;
  ma = ma;
  text = [];
  after_cr = false;
  out = out;
}

abbrev pub in_payload : ℤ → MsgArg → List Event → Bytes → Wire
in_payload hdr ma out text = record {
  state = msg_payload;
  hdr = hdr;
  ma = ma;
  text = text;
  after_cr = false;
  out = out;
}

module _ (hdr : ℤ) (ma : MsgArg) (out : List Event) where
  pub run-ok :
      (rest : Bytes)
      → run (idle hdr ma out) (written ServerOp.ok rest)
        ≡ run (idle hdr ma (out ++ Event.ok ∷ [])) rest
  unfolding run take_byte
  run-ok rest = refl

  pub run-ping :
      (rest : Bytes)
      → run (idle hdr ma out) (written ServerOp.ping rest)
        ≡ run (idle hdr ma (out ++ Event.ping ∷ [])) rest
  unfolding run take_byte
  run-ping rest = refl

  pub run-pong :
      (rest : Bytes)
      → run (idle hdr ma out) (written ServerOp.pong rest)
        ≡ run (idle hdr ma (out ++ Event.pong ∷ [])) rest
  unfolding run take_byte
  run-pong rest = refl

  first_byte :
      (spc state : State) (x : ℕ)
      → (spc ≡ op_msg_spc) × (state ≡ msg_arg)
        ⊎ (spc ≡ op_minus_err_spc) × (state ≡ minus_err_arg)
        ⊎ (spc ≡ op_info_spc) × (state ≡ info_arg)
      → separator x ≡ false
      → take_byte spc (record (idle hdr ma out) { state = spc }) x
        ≡ going (in_line state hdr ma out (x ∷ []))
  unfolding take_byte
  first_byte spc state x e h = ground arith

  -- The first byte of an argument.
  start_line :
      (spc state : State) (x : ℕ) (rest : Bytes)
      → (spc ≡ op_msg_spc) × (state ≡ msg_arg)
        ⊎ (spc ≡ op_minus_err_spc) × (state ≡ minus_err_arg)
        ⊎ (spc ≡ op_info_spc) × (state ≡ info_arg)
      → separator x ≡ false
      → run (record (idle hdr ma out) { state = spc }) (x ∷ rest)
        ≡ run (in_line state hdr ma out (x ∷ [])) rest
  start_line spc state x rest e h =
      run_cons (record (idle hdr ma out) { state = spc }) x rest
      ∙ ap (λ q. q then_run rest) (first_byte spc state x e h)

  pub run-err :
      (text rest : Bytes)
      → IsText text
      → run (idle hdr ma out) (written (ServerOp.err text) rest)
        ≡ run (idle hdr ma (out ++ Event.err text ∷ [])) rest
  unfolding run take_byte
  run-err [] rest h = absurd h
  run-err (x ∷ xs) rest h =
      start_line op_minus_err_spc minus_err_arg x (xs ++ crlf rest) (inr (inl (refl, refl))) h.0
      ∙ run-in_line hdr ma out (x ∷ []) xs (crlf rest) Lines.of_err h.1

  pub run-info :
      (text rest : Bytes)
      → IsText text
      → run (idle hdr ma out) (written (ServerOp.info text) rest)
        ≡ run (idle hdr ma (out ++ Event.info text ∷ [])) rest
  unfolding run take_byte
  run-info [] rest h = absurd h
  run-info (x ∷ xs) rest h =
      start_line op_info_spc info_arg x (xs ++ crlf rest) (inr (inr (refl, refl))) h.0
      ∙ run-in_line hdr ma out (x ∷ []) xs (crlf rest) Lines.of_info h.1

  deliver :
      (payload : Bytes)
      → ma.size ≡ pos (length payload)
      → take_byte msg_payload (in_payload hdr ma out payload) cr
        ≡ going (record (idle hdr ma (out ++ Event.msg ma payload ∷ [])) { state = msg_end })
  unfolding take_byte
  deliver payload h = ground arith

  line_feed :
      (line : Bytes) {ma' : MsgArg}
      → process_msg_args hdr ma line ≡ args ma'
      → take_byte msg_arg (record (in_line msg_arg hdr ma out line) { after_cr = true }) nl
        ≡ going (in_payload hdr ma' out [])
  unfolding take_byte
  line_feed line h =
      ap (λ r. end_msg r (record (in_line msg_arg hdr ma out line) { after_cr = true })) h

  -- A payload and the line end behind it.
  pub run-in_payload :
      (payload rest : Bytes)
      → ma.size ≡ pos (length payload)
      → run (in_payload hdr ma out []) (payload ++ crlf rest)
        ≡ run (idle hdr ma (out ++ Event.msg ma payload ∷ [])) rest
  run-in_payload payload rest h =
      payload_bulk payload (crlf rest) (in_payload hdr ma out []) refl
        (h ∙ ap (λ s. pos (pos_part s)) (sym h)) (omega (arith, ap pos_part h))
      ∙ run_cons (in_payload hdr ma out payload) cr (nl ∷ rest)
      ∙ ap (λ q. q then_run (nl ∷ rest)) (deliver payload h)
      ∙ unfold run take_byte in refl

  take_cr :
      (line : Bytes)
      → take_byte msg_arg (in_line msg_arg hdr ma out line) cr
        ≡ going (record (in_line msg_arg hdr ma out line) { after_cr = true })
  unfolding take_byte
  take_cr line = refl

  -- The end of a MSG line whose arguments are accepted.
  end_line :
      (line rest : Bytes) {ma' : MsgArg}
      → process_msg_args hdr ma line ≡ args ma'
      → run (in_line msg_arg hdr ma out line) (crlf rest) ≡ run (in_payload hdr ma' out []) rest
  end_line line rest {ma'} h =
      run_cons (in_line msg_arg hdr ma out line) cr (nl ∷ rest)
      ∙ ap (λ q. q then_run (nl ∷ rest)) (take_cr line)
      ∙ run_cons (record (in_line msg_arg hdr ma out line) { after_cr = true }) nl rest
      ∙ ap (λ q. q then_run rest) (line_feed line h)

  -- A whole MSG line.
  pub run-line :
      (line rest : Bytes) {ma' : MsgArg}
      → IsText line
      → process_msg_args hdr ma line ≡ args ma'
      → run (record (idle hdr ma out) { state = op_msg_spc }) (line ++ crlf rest)
        ≡ run (in_payload hdr ma' out []) rest
  run-line [] rest t h = absurd t
  run-line (x ∷ xs) rest t h =
      start_line op_msg_spc msg_arg x (xs ++ crlf rest) (inl (refl, refl)) t.0
      ∙ run-in_line hdr ma out (x ∷ []) xs (crlf rest) Lines.of_msg t.1
      ∙ end_line (x ∷ xs) rest h

  -- The name of the operation, which sets up the message.
  pub run-msg_name :
      (rest : Bytes)
      → run (idle hdr ma out) (codes "MSG " ++ rest)
        ≡ run (record (idle (negsuc 0) new_msg_arg out) { state = op_msg_spc }) rest
  unfolding run take_byte
  run-msg_name rest = refl

  pub run-hmsg_name :
      (rest : Bytes)
      → run (idle hdr ma out) (codes "HMSG " ++ rest)
        ≡ run (record (idle (pos 0) new_msg_arg out) { state = op_msg_spc }) rest
  unfolding run take_byte
  run-hmsg_name rest = refl

-- ===== src/Parser/Rounds.antt =====
-- One round of the loop follows the byte-wise parser, arm by arm.
use nats_js.Base.{
  length-take, length-drop, get_elem?-some, leb_ℤ, ◌≡◌, ◌⊎◌, inl, inr, arith, ℕ, suc, ◌-◌, Bytes,
  pos, none, some, true, false, ◌==◌, length, get_elem?, drop, Bool-cases, slice-suc,
}
use nats_js.Parser.Defs.{
  nl, State, op_start, op_plus_ok, op_minus_err_spc, minus_err_arg, op_msg_spc, msg_arg,
  msg_payload, msg_end, op_ping, op_pong, op_info_spc, info_arg, Event, Parser, done, fail, stuck,
}
use nats_js.Parser.Step.{
  Round, keyword, argument, step_start, step_spc, step_msg_end, step_op_end, step_keyword, step_arg,
  step_msg_arg, step_payload,
}
use nats_js.Parser.Wire.{
  Progress, going, failed, stray, take_start, take_arg, end_arg, take_spc, take_keyword,
  take_op_end, take_byte,
}
use nats_js.Parser.Simulation.{view, Inv, IdleInv, ArgInv, PayloadInv}

-- A round that takes one byte, against the byte-wise parser's step on it.
abbrev pub Fits : Bytes → ℕ → Progress → Round → Type 0
Fits buf i taken (done (q, j)) =
    Inv q.state q buf (suc j) × (i ≡ j) × (taken ≡ going (view q.state q buf (suc j)))
Fits buf i taken (fail e out) = taken ≡ failed e.label e.state out
Fits buf i taken stuck = ⊥

module _ (p : Parser) (buf : Bytes) (i b : ℕ) where
  pub start-Fits :
      p.state ≡ op_start
      → IdleInv p
      → Fits buf i (take_start (view op_start p buf i) b) (step_start p buf i b)
  unfolding take_start step_start
  start-Fits e v = ground arith

  pub msg_end-Fits :
      p.state ≡ msg_end
      → IdleInv p
      → Fits buf i (take_byte msg_end (view msg_end p buf i) b) (step_msg_end p i b)
  unfolding take_byte step_msg_end
  msg_end-Fits e v = ground arith

  pub op_end-Fits :
      (event : Event) (state : State)
      → p.state ≡ state
      → (state ≡ op_plus_ok) ⊎ (state ≡ op_pong) ⊎ (state ≡ op_ping)
      → IdleInv p
      → Fits buf i (take_op_end event (view state p buf i) b) (step_op_end event p i b)
  unfolding take_op_end step_op_end
  op_end-Fits event state s e v = ground arith

  pub spc-Fits :
      (next state : State)
      → p.state ≡ state
      → (state ≡ op_msg_spc) × (next ≡ msg_arg)
        ⊎ (state ≡ op_minus_err_spc) × (next ≡ minus_err_arg)
        ⊎ (state ≡ op_info_spc) × (next ≡ info_arg)
      → get_elem? buf i ≡ some b
      → IdleInv p
      → Fits buf i (take_spc next (view state p buf i) b) (step_spc next p i b)
  unfolding take_spc step_spc argument
  spc-Fits next state s e h v = ground (arith, slice-suc buf i i h)

  pub keyword-Fits :
      (state : State)
      → p.state ≡ state
      → Inv state p buf i
      → Fits buf i
          (take_keyword (keyword state b) (view state p buf i))
          (step_keyword state p buf i b)
  unfolding take_keyword step_keyword
  keyword-Fits op_start e v = ground arith
  keyword-Fits _ e v = ground arith

  pub arg-Fits :
      (kind : Bytes → Event) (state : State)
      → p.state ≡ state
      → (state ≡ minus_err_arg) ⊎ (state ≡ info_arg)
      → get_elem? buf i ≡ some b
      → ArgInv p i
      → (take_arg (end_arg kind) (view state p buf i) b ≡ stray)
        ⊎ Fits buf i (take_arg (end_arg kind) (view state p buf i) b) (step_arg kind p buf i b)
  unfolding take_arg end_arg step_arg
  arg-Fits kind state s e h v = elim (Bool-cases (p.dropped == 1)) [
    | inl after ↦ elim (Bool-cases (b == nl)) [
      | inl ends ↦ inr (ground arith)
      | inr more ↦ inl (ground arith)
    ]
    | inr before ↦ inr (ground (arith, slice-suc buf p.start i h))
  ]

  -- The arms that a MSG line takes before it ends.
  pub msg_arg-Fits :
      p.state ≡ msg_arg
      → (b == nl) ≡ false
      → get_elem? buf i ≡ some b
      → ArgInv p i
      → (take_byte msg_arg (view msg_arg p buf i) b ≡ stray)
        ⊎ Fits buf i (take_byte msg_arg (view msg_arg p buf i) b) (step_msg_arg p buf i b)
  unfolding take_byte step_msg_arg
  msg_arg-Fits e n h v = elim (Bool-cases (p.dropped == 1)) [
    | inl after ↦ inl (ground arith)
    | inr before ↦ inr (ground (arith, slice-suc buf p.start i h))
  ]

  pub payload_none-Fits :
      p.state ≡ msg_payload
      → p.msg_buf ≡ none
      → get_elem? buf i ≡ some b
      → PayloadInv p buf i
      → Fits buf i
          (take_byte msg_payload (view msg_payload p buf i) b)
          (step_payload none p buf i b)
  unfolding take_byte step_payload
  payload_none-Fits e m h v = ground (
    arith,
    length-take (i - p.start) (drop p.start buf),
    length-drop p.start buf,
    get_elem?-some buf i h,
  )

  pub payload_full-Fits :
      (bytes : Bytes)
      → p.state ≡ msg_payload
      → p.msg_buf ≡ some bytes
      → leb_ℤ p.ma.size (pos (length bytes)) ≡ true
      → PayloadInv p buf i
      → Fits buf i
          (take_byte msg_payload (view msg_payload p buf i) b)
          (step_payload (some bytes) p buf i b)
  unfolding take_byte step_payload
  payload_full-Fits bytes e m full v = ground arith

-- ===== src/Parser/Refinement.antt =====
-- One round of the parser of core/src/parser.ts, whatever its state, against the byte-wise parser of Wire.
use nats_js.Base.{
  ◌≡◌, refl, sym, ap, ◌∙◌, ◌⊎◌, inl, inr, arith, ℕ, suc, Bytes, pos, Option, none, some, ◌==◌,
  leb_ℤ, length, get_elem?, drop, Bool-cases,
}
use mathlib.Core.Path.{subst}
use nats_js.Parser.Defs.{
  State, op_start, op_plus_ok, op_minus_err_spc, minus_err_arg, op_msg_spc, msg_arg, msg_payload,
  msg_end, op_ping, op_pong, op_info_spc, info_arg, nl, ok, ping, pong, err, info, Parser, done,
  fail, stuck,
}
use nats_js.Parser.Step.{Round, step, step_payload, step_msg_arg}
use nats_js.Parser.Wire.{Progress, stray, take_byte, run, ◌then_run◌}
use nats_js.Parser.Simulation.{view, Inv, PayloadInv, ahead, Follows, ahead-take_byte}
use nats_js.Parser.Rounds
use nats_js.Parser.Jumps
use nats_js.Parser.Rounds.{Fits}

-- What one round may do: the rest of the bytes holds a stray carriage return, or it follows.
abbrev pub Sound : Bytes → ℕ → Progress → Round → Type 0
Sound buf i before r = (before ≡ stray) ⊎ Follows buf i before r

module _ (buf : Bytes) (i : ℕ) where
  Fits-Follows :
      (before taken : Progress) (r : Round)
      → before ≡ (taken then_run drop (suc i) buf)
      → Fits buf i taken r
      → Follows buf i before r
  Fits-Follows before taken (done (q, j)) e f = (
    f.0,
    ground (arith, f.1),
    e
        ∙ ap (λ t. t then_run drop (suc i) buf) f.2
        ∙ ap (λ k. run (view q.state q buf (suc j)) (drop (suc k) buf)) f.1,
  )
  Fits-Follows before taken (fail x out) e f = e ∙ ap (λ t. t then_run drop (suc i) buf) f
  Fits-Follows before taken stuck e f = f

  Fits-Sound :
      (before taken : Progress) (r : Round)
      → before ≡ (taken then_run drop (suc i) buf)
      → (taken ≡ stray) ⊎ Fits buf i taken r
      → Sound buf i before r
  Fits-Sound before taken r e (inl s) = inl (e ∙ ap (λ t. t then_run drop (suc i) buf) s)
  Fits-Sound before taken r e (inr f) = inr (Fits-Follows before taken r e f)

  module _ (p : Parser) (b : ℕ) (h : get_elem? buf i ≡ some b) where
    follows :
        (state : State) (r : Round)
        → Fits buf i (take_byte state (view state p buf i) b) r
        → Sound buf i (ahead state p buf i) r
    follows state r f = inr (Fits-Follows _ _ r (ahead-take_byte state p buf i h) f)

    payload-Sound :
        (m : Option Bytes)
        → p.msg_buf ≡ m
        → p.state ≡ msg_payload
        → PayloadInv p buf i
        → Follows buf i (ahead msg_payload p buf i) (step_payload m p buf i b)
    payload-Sound none m e v =
        Fits-Follows _ _ _ (ahead-take_byte msg_payload p buf i h)
          (Rounds.payload_none-Fits p buf i b e m h v)
    payload-Sound (some bytes) m e v = elim (Bool-cases (leb_ℤ p.ma.size (pos (length bytes)))) [
      | inl full ↦
          Fits-Follows _ _ _ (ahead-take_byte msg_payload p buf i h)
            (Rounds.payload_full-Fits p buf i b bytes e m full v)
      | inr lacks ↦ Jumps.payload_copy-Follows p buf i b bytes e m lacks h v
    ]

    -- Every arm of the `switch` is sound.
    pub round-Sound :
        (state : State)
        → p.state ≡ state
        → Inv state p buf i
        → Sound buf i (ahead state p buf i) (step state p buf i b)
    unfolding step take_byte
    round-Sound msg_payload e v = inr (payload-Sound p.msg_buf refl e v)
    round-Sound msg_arg e v = elim (Bool-cases (b == nl)) [
      | inl ends ↦ inr (
          subst (λ q. Follows buf i q (step_msg_arg p buf i b))
            (sym (ahead-take_byte msg_arg p buf i h)) (Jumps.msg_arg-Follows p buf i b e ends h v))
      | inr more ↦
          Fits-Sound _ _ _ (ahead-take_byte msg_arg p buf i h)
            (Rounds.msg_arg-Fits p buf i b e more h v)
    ]
    round-Sound minus_err_arg e v =
        Fits-Sound _ _ _ (ahead-take_byte minus_err_arg p buf i h)
          (Rounds.arg-Fits p buf i b err minus_err_arg e (inl refl) h v)
    round-Sound info_arg e v =
        Fits-Sound _ _ _ (ahead-take_byte info_arg p buf i h)
          (Rounds.arg-Fits p buf i b info info_arg e (inr refl) h v)
    round-Sound op_start e v = follows op_start _ (Rounds.start-Fits p buf i b e v)
    round-Sound msg_end e v = follows msg_end _ (Rounds.msg_end-Fits p buf i b e v)
    round-Sound op_plus_ok e v =
        follows op_plus_ok _ (Rounds.op_end-Fits p buf i b ok op_plus_ok e (inl refl) v)
    round-Sound op_pong e v =
        follows op_pong _ (Rounds.op_end-Fits p buf i b pong op_pong e (inr (inl refl)) v)
    round-Sound op_ping e v =
        follows op_ping _ (Rounds.op_end-Fits p buf i b ping op_ping e (inr (inr refl)) v)
    round-Sound op_msg_spc e v =
        follows op_msg_spc _ (Rounds.spc-Fits p buf i b msg_arg op_msg_spc e (inl (refl, refl)) h v)
    round-Sound op_minus_err_spc e v =
        follows op_minus_err_spc _
          (Rounds.spc-Fits p buf i b minus_err_arg op_minus_err_spc e (inr (inl (refl, refl))) h v)
    round-Sound op_info_spc e v =
        follows op_info_spc _
          (Rounds.spc-Fits p buf i b info_arg op_info_spc e (inr (inr (refl, refl))) h v)
    round-Sound state e v = follows state _ (Rounds.keyword-Fits p buf i b state e v)

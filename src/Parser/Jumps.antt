-- ===== src/Parser/Jumps.antt =====
-- The rounds that move on by more than a byte: a payload that is copied, and a message that begins.
use nats_js.Base.{
  length-append, length-take, get_elem?-some, leb_ℤ, min, ◌≡◌, refl, sym, ap, ◌∙◌, arith, ℕ, suc,
  ◌+◌, ◌-◌, ◌≤◌, Bytes, pos, pos_part, some, [], ◌++◌, true, false, ◌==◌, length, get_elem?, drop,
  slice,
}
use nats_js.Parser.Defs.{nl, State, msg_arg, msg_payload, Parser, done}
use nats_js.Parser.Args.{process_msg_args-size, ArgsResult, args, bad, process_msg_args}
use mathlib.Core.Path.{subst}
use nats_js.Parser.Defs.{MsgArg}
use nats_js.Parser.Step.{argument, start_payload, step_msg_arg, step_payload}
use nats_js.Parser.Wire.{end_msg, take_byte, run, ◌then_run◌}
use nats_js.Parser.Simulation.{payload, view, Inv, ArgInv, PayloadInv, ahead, Follows, ahead_bulk}

abbrev missing : Parser → Bytes → Bytes → ℕ → ℕ
missing p bytes buf i = min (pos_part p.ma.size - length bytes) (length buf - i)

module _ (p : Parser) (buf : Bytes) (i b : ℕ) where
  copy_round :
      (bytes : Bytes)
      → leb_ℤ p.ma.size (pos (length bytes)) ≡ false
      → get_elem? buf i ≡ some b
      → PayloadInv p buf i
      → step_payload (some bytes) p buf i b
        ≡ done (
          record p { msg_buf = some (bytes ++ slice buf i (i + missing p bytes buf i)) },
          i + missing p bytes buf i - 1,
        )
  unfolding step_payload
  copy_round bytes lacks h v = ground (arith, get_elem?-some buf i h)

  -- The index behind what is copied, as a sum.
  copied :
      (bytes : Bytes)
      → leb_ℤ p.ma.size (pos (length bytes)) ≡ false
      → get_elem? buf i ≡ some b
      → suc (i + missing p bytes buf i - 1) ≡ i + missing p bytes buf i
  copied bytes lacks h = ground (arith, get_elem?-some buf i h)

  ahead_copy :
      (bytes : Bytes)
      → p.msg_buf ≡ some bytes
      → leb_ℤ p.ma.size (pos (length bytes)) ≡ false
      → PayloadInv p buf i
      → (j : ℕ) → j ≡ i + missing p bytes buf i
      → ahead msg_payload p buf i
        ≡ ahead msg_payload
            (record p { msg_buf = some (bytes ++ slice buf i (i + missing p bytes buf i)) })
            buf
            j
  ahead_copy bytes m lacks v j at =
      let w = record (view msg_payload p buf i) { text = bytes } in
      let n = missing p bytes buf i in
      ap (λ o. run (record w { text = payload o p buf i }) (drop i buf)) m
      ∙ ahead_bulk buf i n w refl v.size_pos (ground arith)
      ∙ ap (λ k. run (record w { text = bytes ++ slice buf i (i + n) }) (drop k buf)) (sym at)

  copy-PayloadInv :
      (bytes : Bytes)
      → leb_ℤ p.ma.size (pos (length bytes)) ≡ false
      → get_elem? buf i ≡ some b
      → (v : PayloadInv p buf i)
      → PayloadInv
          (record p { msg_buf = some (bytes ++ slice buf i (i + missing p bytes buf i)) })
          buf
          (suc (i + missing p bytes buf i - 1))
  copy-PayloadInv bytes lacks h v = record {
    dropped_zero = v.dropped_zero;
    size_pos = v.size_pos;
    counted =
        let n = missing p bytes buf i in
        ground
          (arith, length-append bytes (slice buf i (i + n)), length-take (i + n - i) (drop i buf));
  }

  pub payload_copy-Follows :
      (bytes : Bytes)
      → p.state ≡ msg_payload
      → p.msg_buf ≡ some bytes
      → leb_ℤ p.ma.size (pos (length bytes)) ≡ false
      → get_elem? buf i ≡ some b
      → PayloadInv p buf i
      → Follows buf i (ahead msg_payload p buf i) (step_payload (some bytes) p buf i b)
  payload_copy-Follows bytes e m lacks h v =
      let q = record p { msg_buf = some (bytes ++ slice buf i (i + missing p bytes buf i)) } in
      rw (copy_round bytes lacks h v) (
        subst
          (λ (state : State).
            Inv state q buf (suc (i + missing p bytes buf i - 1))
            × (i ≤ i + missing p bytes buf i - 1)
            × (ahead msg_payload p buf i ≡ ahead state q buf (suc (i + missing p bytes buf i - 1))))
          (sym e)
          (
            copy-PayloadInv bytes lacks h v,
            ground (arith, get_elem?-some buf i h),
            ahead_copy bytes m lacks v _ (copied bytes lacks h),
          ))

  pub end_msg-Follows :
      (r : ArgsResult) (arg : Bytes)
      → p.state ≡ msg_arg
      → get_elem? buf i ≡ some b
      → ArgInv p i
      → ((ma : MsgArg) → r ≡ args ma → ma.size ≡ pos (pos_part ma.size))
      → Follows buf i
          (end_msg r (view msg_arg p buf i) then_run drop (suc i) buf)
          (start_payload r p arg i)
  unfolding end_msg start_payload
  end_msg-Follows (bad label) arg e h v sized = ground arith
  end_msg-Follows (args ma) arg e h v sized =
      let q = record p { state = msg_payload; start = i + 1; dropped = 0; ma = ma } in
      let target : suc (i + 1 + pos_part ma.size - 1) ≡ i + 1 + pos_part ma.size = omega arith in
      let inside : i + 1 ≤ length buf = omega (arith, get_elem?-some buf i h) in
      let bulk =
        ahead_bulk buf (i + 1) (pos_part ma.size)
          (record (view msg_payload q buf (i + 1)) { text = [] }) refl (sized ma refl)
          (omega arith) in
      let next : suc i ≡ i + 1 = omega arith in
      (
        record {
          dropped_zero = refl;
          size_pos = sized ma refl;
          counted = rw v.no_payload (omega arith, inside);
        },
        omega arith,
        rw (target, v.no_payload)
            (ap (λ k. run (record (view msg_payload q buf (i + 1)) { text = [] }) (drop k buf)) next
              ∙ bulk),
      )

  take_line_feed :
      (b == nl) ≡ true
      → take_byte msg_arg (view msg_arg p buf i) b
        ≡ end_msg (process_msg_args p.hdr p.ma (argument p.arg_buf p buf i)) (view msg_arg p buf i)
  unfolding take_byte
  take_line_feed n = ground arith

  step_line_feed :
      (b == nl) ≡ true
      → step_msg_arg p buf i b
        ≡ start_payload
            (process_msg_args p.hdr p.ma (argument p.arg_buf p buf i))
            p
            (argument p.arg_buf p buf i)
            i
  unfolding step_msg_arg
  step_line_feed n = ground arith

  -- A line feed in a MSG line.
  pub msg_arg-Follows :
      p.state ≡ msg_arg
      → (b == nl) ≡ true
      → get_elem? buf i ≡ some b
      → ArgInv p i
      → Follows buf i
          (take_byte msg_arg (view msg_arg p buf i) b then_run drop (suc i) buf)
          (step_msg_arg p buf i b)
  msg_arg-Follows e n h v =
      let arg = argument p.arg_buf p buf i in
      rw (take_line_feed n, step_line_feed n)
        (end_msg-Follows (process_msg_args p.hdr p.ma arg) arg e h v
          (λ ma accepted. process_msg_args-size p.hdr p.ma arg accepted))

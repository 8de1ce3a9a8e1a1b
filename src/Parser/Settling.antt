-- ===== src/Parser/Settling.antt =====
-- What `parse` keeps when its buffer ends inside an operation.
use nats_js.Base.{
  length-take, ◌≡◌, refl, ◌∙◌, ◌⊎◌, inl, inr, arith, ℕ, ◌-◌, ◌≤◌, Bytes, pos, pos_part, none, some,
  [], length, drop, take_all, length-drop,
}
use nats_js.Parser.Defs.{State, minus_err_arg, msg_arg, msg_payload, info_arg, op_start, Parser}
use nats_js.Parser.Step.{argument}
use nats_js.Parser.Loop.{suspend}
use nats_js.Parser.Wire.{Wire}
use nats_js.Parser.Simulation.{payload, view, Inv, IdleInv, ArgInv, PayloadInv}

pub record SettledArg (p : Parser) : Type 0 where
  pub dropped_le : p.dropped ≤ 1
  pub bytes : Bytes
  pub kept : p.arg_buf ≡ some bytes
  pub no_payload : p.msg_buf ≡ none

pub record SettledPayload (p : Parser) : Type 0 where
  pub dropped_zero : p.dropped ≡ 0
  pub size_pos : p.ma.size ≡ pos (pos_part p.ma.size)
  pub bytes : Bytes
  pub kept : p.msg_buf ≡ some bytes
  pub fits : length bytes ≤ pos_part p.ma.size

-- Between two buffers: what is held stands in buffers of the parser's own.
abbrev pub Settled : State → Parser → Type 0
Settled msg_arg p = SettledArg p
Settled minus_err_arg p = SettledArg p
Settled info_arg p = SettledArg p
Settled msg_payload p = SettledPayload p
Settled _ p = IdleInv p

-- The byte-wise parser that a parser between two buffers stands for.
abbrev pub wire : Parser → Wire
wire p = view p.state p [] 0

module _ (p : Parser) (buf : Bytes) (i : ℕ) where
  pub Settled-Inv : (state : State) → Settled state p → Inv state p buf i
  Settled-Inv msg_arg v = record {
    dropped_le = v.dropped_le;
    begun = rw v.kept tt;
    no_payload = v.no_payload;
  }
  Settled-Inv minus_err_arg v = record {
    dropped_le = v.dropped_le;
    begun = rw v.kept tt;
    no_payload = v.no_payload;
  }
  Settled-Inv info_arg v = record {
    dropped_le = v.dropped_le;
    begun = rw v.kept tt;
    no_payload = v.no_payload;
  }
  Settled-Inv msg_payload v = record {
    dropped_zero = v.dropped_zero;
    size_pos = v.size_pos;
    counted = rw v.kept v.fits;
  }
  Settled-Inv op_start v = v
  Settled-Inv _ v = v

  pub view-wire : (state : State) → Settled state p → view state p buf i ≡ view state p [] 0
  unfolding argument
  view-wire msg_arg v = ground (arith, v.kept)
  view-wire minus_err_arg v = ground (arith, v.kept)
  view-wire info_arg v = ground (arith, v.kept)
  view-wire msg_payload v = ground (arith, v.kept)
  view-wire op_start v = refl
  view-wire _ v = refl

  suspend_arg :
      (p.state ≡ msg_arg) ⊎ (p.state ≡ minus_err_arg) ⊎ (p.state ≡ info_arg)
      → suspend p buf i ≡ record p { arg_buf = some (argument p.arg_buf p buf i) }
  unfolding suspend argument
  suspend_arg e = ground arith

  suspend-payload :
      p.state ≡ msg_payload
      → PayloadInv p buf i
      → length buf ≤ i
      → (suspend p buf i).msg_buf ≡ some (payload p.msg_buf p buf i)
  unfolding suspend
  suspend-payload e v h =
      ground (arith, take_all (i - p.start) (drop p.start buf), length-drop p.start buf)

  suspend_payload_keeps :
      p.state ≡ msg_payload
      → ((suspend p buf i).state ≡ p.state)
        × ((suspend p buf i).hdr ≡ p.hdr)
        × ((suspend p buf i).ma ≡ p.ma)
        × ((suspend p buf i).dropped ≡ p.dropped)
        × ((suspend p buf i).out ≡ p.out)
  unfolding suspend
  suspend_payload_keeps e = ground arith

  payload_fits :
      PayloadInv p buf i → length buf ≤ i → length (payload p.msg_buf p buf i) ≤ pos_part p.ma.size
  payload_fits v h =
      ground (arith, length-take (i - p.start) (drop p.start buf), length-drop p.start buf)

  suspend-SettledPayload :
      p.state ≡ msg_payload → PayloadInv p buf i → length buf ≤ i → SettledPayload (suspend p buf i)
  suspend-SettledPayload e v h =
      let keeps = suspend_payload_keeps e in
      record {
        dropped_zero = keeps.3 ∙ v.dropped_zero;
        size_pos = rw keeps.2 v.size_pos;
        bytes = payload p.msg_buf p buf i;
        kept = suspend-payload e v h;
        fits = rw keeps.2 (payload_fits v h);
      }

  arg_settled : ArgInv p i → SettledArg (record p { arg_buf = some (argument p.arg_buf p buf i) })
  arg_settled v = record {
    dropped_le = v.dropped_le;
    bytes = argument p.arg_buf p buf i;
    kept = refl;
    no_payload = v.no_payload;
  }

  -- What the end of a buffer leaves is settled, and stands for the same.
  pub suspend_lem :
      (state : State)
      → p.state ≡ state
      → Inv state p buf i
      → length buf ≤ i
      → Settled state (suspend p buf i)
        × ((suspend p buf i).state ≡ state)
        × (view state (suspend p buf i) [] 0 ≡ view state p buf i)
  suspend_lem msg_arg e v h = rw (suspend_arg (inl e)) (arg_settled v, e, unfold argument in refl)
  suspend_lem minus_err_arg e v h =
      rw (suspend_arg (inr (inl e))) (arg_settled v, e, unfold argument in refl)
  suspend_lem info_arg e v h =
      rw (suspend_arg (inr (inr e))) (arg_settled v, e, unfold argument in refl)
  suspend_lem msg_payload e v h = (
    suspend-SettledPayload e v h,
    (suspend_payload_keeps e).0 ∙ e,
    ground (arith, suspend-payload e v h, suspend_payload_keeps e),
  )
  suspend_lem op_start e v h = unfold suspend in ground arith
  suspend_lem _ e v h = unfold suspend in ground arith

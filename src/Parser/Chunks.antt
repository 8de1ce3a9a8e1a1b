-- ===== src/Parser/Chunks.antt =====
-- `parse` over the buffers that a transport hands over, against the byte-wise parser on their bytes.
use nats_js.Base.{
  ◌≡◌, ◌≢◌, refl, sym, ap, ◌∙◌, ◌⊎◌, inl, inr, arith, ◌+◌, Bytes, List, [], ◌∷◌, length,
}
use mathlib.Core.Path.{subst}
use mathlib.Core.List.{flatten}
use nats_js.Parser.Defs.{Parser, new_parser, Result, done, fail, stuck, ◌>>=◌}
use nats_js.Parser.Step.{Round}
use nats_js.Parser.Loop.{loop, suspend, parse, parse_all}
use nats_js.Parser.Wire.{new_wire, Progress, going, failed, stray, run, ◌then_run◌, run-append}
use nats_js.Parser.Simulation.{view}
use nats_js.Parser.Running.{Ends, loop-Ends}
use nats_js.Parser.Settling.{Settled, wire, Settled-Inv, view-wire, suspend_lem}

-- What a caller of `parse` has, for what the byte-wise parser has.
abbrev pub outcome : Result Parser → Progress
outcome (done p) = going (wire p)
outcome (fail e out) = failed e.label e.state out
outcome stuck = stray

abbrev IsSettled : Result Parser → Type 0
IsSettled (done p) = Settled p.state p
IsSettled _ = Unit

finish_parse :
    (buf : Bytes) (q : Progress) (r : Round)
    → (q ≡ stray) ⊎ Ends buf q r
    → q ≢ stray
    → IsSettled (r >>= λ t. done (suspend t.0 buf t.1))
      × (outcome (r >>= λ t. done (suspend t.0 buf t.1)) ≡ q)
finish_parse buf q r (inl s) ne = absurd (ne s)
finish_parse buf q (done (p, j)) (inr f) ne =
    let left = suspend_lem p buf j p.state refl f.0 f.1 in
    (
      subst (λ state. Settled state (suspend p buf j)) (sym left.1) left.0,
      ap going (ap (λ state. view state (suspend p buf j) [] 0) left.1 ∙ left.2) ∙ sym f.2,
    )
finish_parse buf q (fail e out) (inr f) ne = (tt, sym f)
finish_parse buf q stuck (inr f) ne = absurd f

parse_lem :
    (p : Parser) (buf : Bytes)
    → parse p buf ≡ (loop (length buf + 1) p buf 0 >>= λ t. done (suspend t.0 buf t.1))
unfolding parse
parse_lem p buf = refl

-- One buffer.
pub parse-run :
    (p : Parser) (buf : Bytes)
    → Settled p.state p
    → run (wire p) buf ≢ stray
    → IsSettled (parse p buf) × (outcome (parse p buf) ≡ run (wire p) buf)
parse-run p buf v ne =
    let same = view-wire p buf 0 p.state v in
    rw (parse_lem p buf) (
      finish_parse buf (run (wire p) buf) (loop (length buf + 1) p buf 0)
        (subst (λ w. (run w buf ≡ stray) ⊎ Ends buf (run w buf) (loop (length buf + 1) p buf 0))
          same (loop-Ends (length buf + 1) p buf 0 (omega arith) (Settled-Inv p buf 0 p.state v)))
        ne)

after_buffer :
    (bufs : List Bytes) (q : Progress) (r : Result Parser)
    → outcome r ≡ q
    → IsSettled r
    → (q then_run flatten bufs) ≢ stray
    → ((p : Parser)
        → Settled p.state p
        → run (wire p) (flatten bufs) ≢ stray
        → outcome (parse_all p bufs) ≡ run (wire p) (flatten bufs))
    → outcome (r >>= λ p. parse_all p bufs) ≡ (q then_run flatten bufs)
after_buffer bufs q (done p) e v ne go =
    let onward = ap (λ t. t then_run flatten bufs) e in go p v (λ x. ne (sym onward ∙ x)) ∙ onward
after_buffer bufs q (fail x out) e v ne go = ap (λ t. t then_run flatten bufs) e
after_buffer bufs q stuck e v ne go = ap (λ t. t then_run flatten bufs) e

parse_all-run :
    (bufs : List Bytes) (p : Parser)
    → Settled p.state p
    → run (wire p) (flatten bufs) ≢ stray
    → outcome (parse_all p bufs) ≡ run (wire p) (flatten bufs)
unfolding parse_all flatten
parse_all-run [] p v ne = unfold run in refl
parse_all-run (buf ∷ bufs) p v ne =
    let split = run-append (wire p) buf (flatten bufs) in
    let ne' : (run (wire p) buf then_run flatten bufs) ≢ stray = λ x. ne (split ∙ x) in
    let now = parse-run p buf v (λ x. ne' (ap (λ t. t then_run flatten bufs) x)) in
    after_buffer bufs (run (wire p) buf) (parse p buf) now.1 now.0 ne'
      (λ q w n. parse_all-run bufs q w n)
    ∙ sym split

-- However the bytes of a connection are cut into buffers, the parser pushes the events, and stops with the
-- error, of the byte-wise parser on them, provided that the byte-wise parser does not find a carriage return
-- in an argument line that no line feed follows.
pub parse_all-refines :
    (bufs : List Bytes)
    → run new_wire (flatten bufs) ≢ stray
    → outcome (parse_all new_parser bufs) ≡ run new_wire (flatten bufs)
parse_all-refines bufs ne =
    parse_all-run bufs new_parser (record { dropped_zero = refl; no_arg = refl; no_payload = refl })
      ne

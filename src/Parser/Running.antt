-- ===== src/Parser/Running.antt =====
-- The loop of `parse`, from an index to the end of its buffer.
use nats_js.Base.{
  ◌≡◌, refl, sym, ◌⊎◌, inl, inr, arith, ℕ, zero, suc, ◌-◌, ◌≤◌, ◌<◌, Bytes, none, some, length,
  get_elem?, Option-cases, get_elem?-none, get_elem?-some, drop_all,
}
use mathlib.Core.Path.{subst}
use nats_js.Parser.Defs.{Parser, done, fail, stuck, ◌>>=◌}
use nats_js.Parser.Step.{Round, step}
use nats_js.Parser.Loop.{loop}
use nats_js.Parser.Wire.{Progress, going, failed, stray, run}
use nats_js.Parser.Simulation.{view, Inv, ahead}
use nats_js.Parser.Refinement.{Sound, round-Sound}

-- What the loop does from an index on.
abbrev pub Ends : Bytes → Progress → Round → Type 0
Ends buf q (done (p, j)) =
    Inv p.state p buf j × (length buf ≤ j) × (q ≡ going (view p.state p buf j))
Ends buf q (fail e out) = q ≡ failed e.label e.state out
Ends buf q stuck = ⊥

ahead_end :
    (p : Parser) (buf : Bytes) (i : ℕ)
    → length buf ≤ i
    → ahead p.state p buf i ≡ going (view p.state p buf i)
ahead_end p buf i h = rw (drop_all i buf h) (unfold run in refl)

module _ (fuel : ℕ) (p : Parser) (buf : Bytes) (i : ℕ) where
  loop_behind : get_elem? buf i ≡ none → loop (suc fuel) p buf i ≡ done (p, i)
  unfolding loop
  loop_behind h = rw (h, loop)

  loop_round :
      {b : ℕ}
      → get_elem? buf i ≡ some b
      → loop (suc fuel) p buf i ≡ (step p.state p buf i b >>= λ r. loop fuel r.0 buf (suc r.1))
  unfolding loop
  loop_round h = rw (h, loop)

-- What the rest of the loop does, it does after one round more.
after_round :
    (buf : Bytes) (i : ℕ) (before : Progress) (r : Round) (rest : Parser → ℕ → Round)
    → Sound buf i before r
    → ((q : Parser) (j : ℕ)
        → i ≤ j
        → Inv q.state q buf (suc j)
        → (ahead q.state q buf (suc j) ≡ stray) ⊎ Ends buf (ahead q.state q buf (suc j)) (rest q j))
    → (before ≡ stray) ⊎ Ends buf before (r >>= λ t. rest t.0 t.1)
after_round buf i before r rest (inl s) go = inl s
after_round buf i before (done (q, j)) rest (inr f) go =
    subst (λ x. (x ≡ stray) ⊎ Ends buf x (rest q j)) (sym f.2) (go q j f.1 f.0)
after_round buf i before (fail e out) rest (inr f) go = inr f
after_round buf i before stuck rest (inr f) go = inr f

pub loop-Ends :
    (fuel : ℕ) (p : Parser) (buf : Bytes) (i : ℕ)
    → length buf - i < fuel
    → Inv p.state p buf i
    → (ahead p.state p buf i ≡ stray) ⊎ Ends buf (ahead p.state p buf i) (loop fuel p buf i)
loop-Ends zero p buf i h v = absurd (omega arith)
loop-Ends (suc fuel) p buf i h v = elim (Option-cases (get_elem? buf i)) [
  | inl behind ↦
      let end = get_elem?-none buf i behind in
      rw (loop_behind fuel p buf i behind) (inr (v, end, ahead_end p buf i end))
  | inr (b, here) ↦ rw (loop_round fuel p buf i here) (
      after_round buf i _ (step p.state p buf i b) (λ q j. loop fuel q buf (suc j))
        (round-Sound buf i p b here p.state refl v)
        (λ q j le w. loop-Ends fuel q buf (suc j) (omega (arith, get_elem?-some buf i here)) w))
]

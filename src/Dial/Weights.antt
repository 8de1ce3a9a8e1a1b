-- ===== src/Dial/Weights.antt =====
-- How many attempts a pool of servers has left, in the dial loop of core/src/protocol.ts.
use mathlib.Core.Path.{subst}
use nats_js.Base.{
  ℕ, zero, suc, ◌+◌, ◌-◌, ◌≤◌, ◌<◌, ◌≡◌, refl, sym, ap, arith, Bool, true, false, ◌||◌, none, some,
  List, [], ◌∷◌, ◌++◌, ◌==◌, ℤ, pos, negsuc, inl, inr, Bool-cases, take, drop, length,
}
use nats_js.Pool.{
  Server, Servers, same, index_from, index_of, splice_one, remove_server, remove_current_server,
}
use nats_js.Dial.{update}

abbrev pub has : ℕ → List Server → Bool
has i [] = false
has i (s ∷ ss) = s.id == i || has i ss

module _ (m : ℕ) where
  -- One more than the attempts that a server has left.
  abbrev pub weight : (ℕ → ℕ) → Server → ℕ
  weight r s = suc (m - r s.id)

  abbrev pub total : (ℕ → ℕ) → List Server → ℕ
  total r [] = 0
  total r (s ∷ ss) = weight r s + total r ss

  pub total-append :
      (r : ℕ → ℕ) (xs ys : List Server) → total r (xs ++ ys) ≡ total r xs + total r ys
  total-append r [] ys = omega arith
  total-append r (x ∷ xs) ys = omega (arith, total-append r xs ys)

  total-cut :
      (r : ℕ → ℕ) (i : ℕ) (ss : List Server) → total r (take i ss ++ drop (suc i) ss) ≤ total r ss
  total-cut r zero [] = omega arith
  total-cut r (suc i) [] = omega arith
  total-cut r zero (s ∷ ss) = omega arith
  total-cut r (suc i) (s ∷ ss) = omega (arith, total-cut r i ss)

  total-cut_lt :
      (r : ℕ → ℕ) (i : ℕ) (ss : List Server)
      → i < length ss
      → total r (take i ss ++ drop (suc i) ss) < total r ss
  total-cut_lt r i [] h = absurd (omega arith)
  total-cut_lt r zero (s ∷ ss) h = omega arith
  total-cut_lt r (suc i) (s ∷ ss) h = omega (arith, total-cut_lt r i ss (omega arith))

  total-splice_one : (r : ℕ → ℕ) (z : ℤ) (ss : List Server) → total r (splice_one z ss) ≤ total r ss
  unfolding splice_one
  total-splice_one r (pos i) ss = total-cut r i ss
  total-splice_one r (negsuc i) ss = total-cut r (length ss - suc i) ss

  -- A place in the list, or -1.
  abbrev InRange : ℕ → ℕ → ℤ → Type 0
  InRange i n (pos j) = j < i + n
  InRange i n (negsuc j) = j ≡ 0

  index_from-InRange :
      (i : ℕ) (ss : List Server) (s : Server) → InRange i (length ss) (index_from i ss s)
  unfolding index_from
  index_from-InRange i [] s = refl
  index_from-InRange i (t ∷ ts) s = elim (Bool-cases (same t s)) [
    | inl q ↦ rw (q, index_from) (omega arith)
    | inr q ↦
        rw (q, index_from)
          (wider i (length ts) (index_from (suc i) ts s) (index_from-InRange (suc i) ts s))
  ]
    where
      wider : (i n : ℕ) (z : ℤ) → InRange (suc i) n z → InRange i (suc n) z
      wider i n (pos j) h = omega arith
      wider i n (negsuc j) h = h

  splice_one-lt :
      (r : ℕ → ℕ) (z : ℤ) (s : Server) (ss : List Server)
      → InRange 0 (length (s ∷ ss)) z
      → total r (splice_one z (s ∷ ss)) < total r (s ∷ ss)
  unfolding splice_one
  splice_one-lt r (pos i) s ss h = total-cut_lt r i (s ∷ ss) (omega arith)
  splice_one-lt r (negsuc i) s ss h =
      total-cut_lt r (length (s ∷ ss) - suc i) (s ∷ ss) (omega arith)

  has-lt :
      (r : ℕ → ℕ) (c : Server) (i : ℕ) (ss : List Server)
      → has i ss ≡ true
      → total r (splice_one (index_of ss c) ss) < total r ss
  has-lt r c i [] h = ground arith
  has-lt r c i (s ∷ ss) h =
      splice_one-lt r (index_of (s ∷ ss) c) s ss (index_from-InRange 0 (s ∷ ss) c)

  pub total-remove_current :
      (r : ℕ → ℕ) (p : Servers) → total r (remove_current_server p).servers ≤ total r p.servers
  unfolding remove_current_server remove_server
  total-remove_current r p =
      elim (p.current) as (λ c. total r (remove_server c p).servers ≤ total r p.servers) [
        | none ↦ omega arith
        | some c ↦ total-splice_one r (index_of p.servers c) p.servers
      ]

  -- Removing from a pool that is not empty takes a server out, whichever it is.
  pub total-remove_current_lt :
      (r : ℕ → ℕ) (p : Servers) (c : Server) (i : ℕ)
      → p.current ≡ some c
      → has i p.servers ≡ true
      → total r (remove_current_server p).servers < total r p.servers
  unfolding remove_current_server remove_server
  total-remove_current_lt r p c i e h =
      subst (λ o. total r (remove_server o p).servers < total r p.servers) (sym e)
        (has-lt r c i p.servers h)

  weight-update : (r : ℕ → ℕ) (i : ℕ) (s : Server) → weight (update r i (suc (r i))) s ≤ weight r s
  weight-update r i s = elim (Bool-cases (i == s.id)) [
    | inl q ↦ (let e : i ≡ s.id = ground arith in rw q (ground (arith, ap r e)))
    | inr q ↦ rw q (omega arith)
  ]

  pub total-update :
      (r : ℕ → ℕ) (i : ℕ) (ss : List Server) → total (update r i (suc (r i))) ss ≤ total r ss
  total-update r i [] = omega arith
  total-update r i (s ∷ ss) = omega (arith, total-update r i ss, weight-update r i s)

  weight-update_lt :
      (r : ℕ → ℕ) (i : ℕ) (s : Server)
      → (s.id == i) ≡ true
      → r i < m
      → weight (update r i (suc (r i))) s < weight r s
  weight-update_lt r i s e h =
      let q : (i == s.id) ≡ true = ground arith in
      let p : i ≡ s.id = ground arith in rw q (ground (arith, ap r p))

  pub total-update_lt :
      (r : ℕ → ℕ) (i : ℕ) (ss : List Server)
      → has i ss ≡ true
      → r i < m
      → total (update r i (suc (r i))) ss < total r ss
  total-update_lt r i [] h l = ground arith
  total-update_lt r i (s ∷ ss) h l = elim (Bool-cases (s.id == i)) [
    | inl q ↦ omega (arith, total-update r i ss, weight-update_lt r i s q l)
    | inr q ↦
        let g : has i ss ≡ true = ground arith in
        omega (arith, total-update_lt r i ss g l, weight-update r i s)
  ]

-- ===== src/Dial/Unique.antt =====
-- Pools without duplicates, for the dial loop of core/src/protocol.ts.
use mathlib.Core.Path.{subst}
use nats_js.Base.{
  ℕ, zero, suc, ◌+◌, ◌-◌, ◌≡◌, refl, sym, ap, ◌∙◌, arith, true, false, none, some, List, [], ◌∷◌,
  ◌++◌, ◌==◌, ℤ, pos, negsuc, inl, inr, Bool-cases, take, drop, length,
}
use nats_js.Pool.{
  Server, Servers, index_from, index_of, splice_one, remove_server, remove_current_server,
}
use nats_js.Dial.Weights.{has}

abbrev pub Unique : List Server → Type 0
Unique [] = Unit
Unique (s ∷ ss) = (has s.id ss ≡ false) × Unique ss

has-cut :
    (k i : ℕ) (ss : List Server) → has k (take i ss ++ drop (suc i) ss) ≡ true → has k ss ≡ true
has-cut k zero [] h = h
has-cut k (suc i) [] h = h
has-cut k zero (s ∷ ss) h = ground arith
has-cut k (suc i) (s ∷ ss) h = ground (arith, has-cut k i ss)

Unique-cut : (i : ℕ) (ss : List Server) → Unique ss → Unique (take i ss ++ drop (suc i) ss)
Unique-cut zero [] h = tt
Unique-cut (suc i) [] h = tt
Unique-cut zero (s ∷ ss) h = h.1
Unique-cut (suc i) (s ∷ ss) (f, u) = (
  elim (Bool-cases (has s.id (take i ss ++ drop (suc i) ss))) [
    | inl q ↦ (let a = has-cut s.id i ss q in ground arith)
    | inr q ↦ q
  ],
  Unique-cut i ss u,
)

has-splice_one :
    (k : ℕ) (z : ℤ) (ss : List Server) → has k (splice_one z ss) ≡ true → has k ss ≡ true
unfolding splice_one
has-splice_one k (pos i) ss h = has-cut k i ss h
has-splice_one k (negsuc i) ss h = has-cut k (length ss - suc i) ss h

Unique-splice_one : (z : ℤ) (ss : List Server) → Unique ss → Unique (splice_one z ss)
unfolding splice_one
Unique-splice_one (pos i) ss h = Unique-cut i ss h
Unique-splice_one (negsuc i) ss h = Unique-cut (length ss - suc i) ss h

-- The place of a server in a pool without duplicates; once it is cut, the server is not there.
index_from-place :
    (k : ℕ) (ss : List Server) (s : Server)
    → Unique ss
    → has s.id ss ≡ true
    → (j : ℕ) × (index_from k ss s ≡ pos (k + j))
      × (has s.id (take j ss ++ drop (suc j) ss) ≡ false)
unfolding index_from
index_from-place k [] s u h = ground arith
index_from-place k (x ∷ ss) s u h = elim (Bool-cases (x.id == s.id)) [
  | inl q ↦
      let p : x.id ≡ s.id = ground arith in
      (0, rw (q, index_from) (ap pos (omega arith)), ap (λ i. has i ss) (sym p) ∙ u.0)
  | inr q ↦
      let g : has s.id ss ≡ true = ground arith in
      let r = index_from-place (suc k) ss s u.1 g in
      (suc r.0, rw (q, index_from) (r.1 ∙ ap pos (omega arith)), ground (arith, r.2))
]

removed :
    (ss : List Server) (s : Server) → Unique ss → has s.id (splice_one (index_of ss s) ss) ≡ false
unfolding splice_one
removed ss s u = elim (Bool-cases (has s.id ss)) [
  | inl q ↦
      let r = index_from-place 0 ss s u q in
      let e : index_of ss s ≡ pos r.0 = r.1 ∙ ap pos (omega arith) in
      subst (λ z. has s.id (splice_one z ss) ≡ false) (sym e) r.2
  | inr q ↦ elim (Bool-cases (has s.id (splice_one (index_of ss s) ss))) [
    | inl p ↦ (let a = has-splice_one s.id (index_of ss s) ss p in ground arith)
    | inr p ↦ p
  ]
]

pub Unique-remove_current :
    (p : Servers) → Unique p.servers → Unique (remove_current_server p).servers
unfolding remove_current_server remove_server
Unique-remove_current p u = elim (p.current) as (λ c. Unique (remove_server c p).servers) [
  | none ↦ u
  | some c ↦ Unique-splice_one (index_of p.servers c) p.servers u
]

pub has-remove_current :
    (k : ℕ) (p : Servers) → has k (remove_current_server p).servers ≡ true → has k p.servers ≡ true
unfolding remove_current_server remove_server
has-remove_current k p =
    elim (p.current) as (λ c. has k (remove_server c p).servers ≡ true → has k p.servers ≡ true) [
      | none ↦ (λ h. h)
      | some c ↦ has-splice_one k (index_of p.servers c) p.servers
    ]

-- The current server is not in a pool without duplicates once it is removed.
pub remove_current-gone :
    (p : Servers) (s : Server)
    → p.current ≡ some s
    → Unique p.servers
    → has s.id (remove_current_server p).servers ≡ false
unfolding remove_current_server remove_server
remove_current-gone p s e u =
    subst (λ c. has s.id (remove_server c p).servers ≡ false) (sym e) (removed p.servers s u)

pub has-snoc : (k : ℕ) (s : Server) (ss : List Server) → has k (ss ++ s ∷ []) ≡ has k (s ∷ ss)
has-snoc k s [] = refl
has-snoc k s (x ∷ ss) = ground (arith, has-snoc k s ss)

pub Unique-snoc : (s : Server) (ss : List Server) → Unique (s ∷ ss) → Unique (ss ++ s ∷ [])
Unique-snoc s [] u = (refl, tt)
Unique-snoc s (x ∷ ss) u =
    (has-snoc x.id s ss ∙ ground (arith, u.0, u.1.0), Unique-snoc s ss (ground (arith, u.0), u.1.1))

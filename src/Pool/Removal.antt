-- ===== src/Pool/Removal.antt =====
-- `removeServer` and `snapshotForHandler` of core/src/servers.ts.
use nats_js.Base.{
  ℕ, suc, ◌+◌, ◌-◌, ◌≡◌, refl, ap, ◌∙◌, arith, false, none, some, List, [], ◌∷◌, ◌++◌, length,
  length-append, take, drop, append-nil, pos, negsuc,
}
use nats_js.Pool.{
  Server, Servers, same, index_from, index_of, splice_one, remove_server, snapshot_at,
  snapshot_for_handler,
}

abbrev pub Absent : Server → List Server → Type 0
Absent s [] = Unit
Absent s (t ∷ ts) = (same t s ≡ false) × Absent s ts

index_from-found :
    (i : ℕ) (xs ys : List Server) (s : Server)
    → Absent s xs
    → index_from i (xs ++ s ∷ ys) s ≡ pos (i + length xs)
unfolding index_from
index_from-found i [] ys s h = ground arith
index_from-found i (x ∷ xs) ys s h = ground (arith, index_from-found (suc i) xs ys s)

index_from-Absent :
    (i : ℕ) (xs : List Server) (s : Server) → Absent s xs → index_from i xs s ≡ negsuc 0
unfolding index_from
index_from-Absent i [] s h = refl
index_from-Absent i (x ∷ xs) s h = ground (arith, index_from-Absent (suc i) xs s)

zero_add : (n : ℕ) → 0 + n ≡ n
zero_add n = omega arith

take-length : (xs ys : List Server) → take (length xs) (xs ++ ys) ≡ xs
take-length [] ys = refl
take-length (x ∷ xs) ys = ap (λ r. x ∷ r) (take-length xs ys)

drop-length : (xs ys : List Server) (s : Server) → drop (suc (length xs)) (xs ++ s ∷ ys) ≡ ys
drop-length [] ys s = refl
drop-length (x ∷ xs) ys s = drop-length xs ys s

without :
    (xs ys : List Server) (s : Server)
    → take (length xs) (xs ++ s ∷ ys) ++ drop (suc (length xs)) (xs ++ s ∷ ys) ≡ xs ++ ys
without xs ys s =
    ap (λ l. l ++ drop (suc (length xs)) (xs ++ s ∷ ys)) (take-length xs (s ∷ ys))
    ∙ ap (λ l. xs ++ l) (drop-length xs ys s)

length-init : (xs : List Server) (t : Server) → length (xs ++ t ∷ []) - 1 ≡ length xs
length-init xs t = omega (arith, length-append xs (t ∷ []))

-- `removeServer` takes the server out that it is given, at its first place in the pool, and leaves the others
-- in their order.
pub remove_server_lem :
    (p : Servers) (xs ys : List Server) (s : Server)
    → p.servers ≡ xs ++ s ∷ ys
    → Absent s xs
    → (remove_server (some s) p).servers ≡ xs ++ ys
unfolding remove_server splice_one
remove_server_lem p xs ys s e h =
    ap (λ ss. splice_one (index_of ss s) ss) e
    ∙ ap (λ i. splice_one i (xs ++ s ∷ ys)) (index_from-found 0 xs ys s h)
    ∙ ap (λ n. take n (xs ++ s ∷ ys) ++ drop (suc n) (xs ++ s ∷ ys)) (zero_add (length xs))
    ∙ without xs ys s

-- `removeServer` of a server that the pool does not have takes the last one out.
pub remove_server-Absent :
    (p : Servers) (xs : List Server) (s t : Server)
    → p.servers ≡ xs ++ t ∷ []
    → Absent s (xs ++ t ∷ [])
    → (remove_server (some s) p).servers ≡ xs
unfolding remove_server splice_one
remove_server-Absent p xs s t e h =
    ap (λ ss. splice_one (index_of ss s) ss) e
    ∙ ap (λ i. splice_one i (xs ++ t ∷ [])) (index_from-Absent 0 (xs ++ t ∷ []) s h)
    ∙ ap (λ n. take n (xs ++ t ∷ []) ++ drop (suc n) (xs ++ t ∷ [])) (length-init xs t)
    ∙ without xs [] t
    ∙ append-nil xs

-- If the current server is in the pool, the snapshot for the handler has it first, and the others in their
-- order.
pub snapshot_for_handler_lem :
    (p : Servers) (xs ys : List Server) (s : Server)
    → p.servers ≡ xs ++ s ∷ ys
    → p.current ≡ some s
    → Absent s xs
    → snapshot_for_handler p ≡ s ∷ xs ++ ys
unfolding snapshot_for_handler snapshot_at
snapshot_for_handler_lem p xs ys s e c h =
    ap
      (λ o. elim o as (λ _. List Server) [
        | none ↦ p.servers
        | some cur ↦ snapshot_at cur (index_of p.servers cur) p.servers
      ])
      c
    ∙ ap (λ ss. snapshot_at s (index_of ss s) ss) e
    ∙ ap (λ i. snapshot_at s i (xs ++ s ∷ ys)) (index_from-found 0 xs ys s h)
    ∙ ap (λ n. snapshot_at s (pos n) (xs ++ s ∷ ys)) (zero_add (length xs))
    ∙ moved xs
  where
    moved : (xs : List Server) → snapshot_at s (pos (length xs)) (xs ++ s ∷ ys) ≡ s ∷ xs ++ ys
    moved [] = refl
    moved (x ∷ xs) = ap (λ l. s ∷ x ∷ l) (without xs ys s)

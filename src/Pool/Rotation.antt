-- ===== src/Pool/Rotation.antt =====
-- `selectServer` of core/src/servers.ts, called again and again.
use mathlib.Core.List.{map}
use mathlib.Core.Path.{subst}
use nats_js.Base.{
  ℕ, zero, suc, ◌≡◌, refl, sym, ap, ◌∙◌, false, Option, none, some, List, [], ◌∷◌, ◌++◌,
  if◌then◌else◌, length, append-nil, append_assoc,
}
use nats_js.Pool.{Server, Servers, select_server}

-- The results of calls one after the other, and the pool that they leave.
abbrev pub selects : ℕ → Servers → List (Option Server) × Servers
selects zero p = ([], p)
selects (suc n) p = let r = select_server p in let rest = selects n r.1 in (r.0 ∷ rest.0, rest.1)

select_server-head :
    (t : Server) (ts : List Server) (p : Servers)
    → p.first_select ≡ false
    → p.servers ≡ t ∷ ts
    → select_server p ≡ (some t, record p { servers = ts ++ t ∷ []; current = some t })
unfolding select_server
select_server-head t ts p f e =
    let goal : Option Server × Servers =
      (some t, record p { servers = ts ++ t ∷ []; current = some t }) in
    let pick : List Server → Option Server × Servers = λ ss.
      elim ss as (λ _. Option Server × Servers) [
        | [] ↦ (none, p)
        | u ∷ us ↦ (some u, record p { servers = us ++ u ∷ []; current = some u })
      ] in
    subst
      (λ b. (if b then (p.current, record p { first_select = false }) else pick p.servers) ≡ goal)
      (sym f) (ap pick e)

-- What `n` calls leave that have gone through `xs`, with `ys` behind it.
abbrev Gone : List Server → List Server → List (Option Server) × Servers → Type 0
Gone xs ys r = (r.0 ≡ map some xs) × (r.1.servers ≡ ys ++ xs) × (r.1.first_select ≡ false)

selects-Gone :
    (xs ys : List Server) (p : Servers)
    → p.first_select ≡ false
    → p.servers ≡ xs ++ ys
    → Gone xs ys (selects (length xs) p)
selects-Gone [] ys p f e = (refl, e ∙ sym (append-nil ys), f)
selects-Gone (x ∷ xs) ys p f e =
    let q = record p { servers = (xs ++ ys) ++ x ∷ []; current = some x } in
    let h = selects-Gone xs (ys ++ x ∷ []) q f (append_assoc xs ys (x ∷ [])) in
    let r : Gone (x ∷ xs) ys (some x ∷ (selects (length xs) q).0, (selects (length xs) q).1) =
      (ap (λ l. some x ∷ l) h.0, h.1 ∙ append_assoc ys (x ∷ []) xs, h.2) in
    subst (λ a. Gone (x ∷ xs) ys (a.0 ∷ (selects (length xs) a.1).0, (selects (length xs) a.1).1))
      (sym (select_server-head x (xs ++ ys) p f e)) r

-- After the first choice, as many calls of `selectServer` as the pool has servers return each of them in the pool's
-- order, and leave the pool in the order it had.
pub selects-length :
    (p : Servers)
    → p.first_select ≡ false
    → ((selects (length p.servers) p).0 ≡ map some p.servers)
      × ((selects (length p.servers) p).1.servers ≡ p.servers)
selects-length p f =
    let g = selects-Gone p.servers [] p f (sym (append-nil p.servers)) in (g.0, g.1)

-- ===== src/Pool.antt =====
-- The pool of servers of core/src/servers.ts, and the choice of the one to dial. A server is told from
-- others by `id`, as an object is by its identity.
use nats_js.Base.{
  ℕ, zero, suc, ◌+◌, ◌-◌, Bool, true, false, Option, none, some, List, [], ◌∷◌, ◌++◌, ◌==◌,
  if◌then◌else◌, take, drop, length, Text, eq_text, ℤ, pos, negsuc,
}
pub mod Rotation
pub mod Removal

pub record Server : Type 0 where
  pub id : ℕ
  pub listen : Text

-- `current` is none before a server is chosen.
pub record Servers : Type 0 where
  pub first_select : Bool
  pub servers : List Server
  pub current : Option Server

abbrev pub new_servers : Servers
new_servers = record { first_select = true; servers = []; current = none }

abbrev pub same : Server → Server → Bool
same a b = a.id == b.id

-- `indexOf`, with -1 for a server that is not there.
unfoldable pub index_from : ℕ → List Server → Server → ℤ
index_from i [] s = negsuc 0
index_from i (t ∷ ts) s = let rest = index_from (suc i) ts s in if same t s then pos i else rest

abbrev pub index_of : List Server → Server → ℤ
index_of = index_from 0

-- `splice(index, 1)`: an index below 0 counts from the end, and stops at the start.
unfoldable pub splice_one : ℤ → List Server → List Server
splice_one (pos i) ss = take i ss ++ drop (suc i) ss
splice_one (negsuc i) ss = take (length ss - suc i) ss ++ drop (suc (length ss - suc i)) ss

unfoldable pub clear : Servers → Servers
clear p = record p { servers = [] }

-- `selectServer`, with what it returns.
unfoldable pub select_server : Servers → Option Server × Servers
select_server p =
    if p.first_select then (p.current, record p { first_select = false }) else (elim (p.servers) [
      | [] ↦ (none, p)
      | t ∷ ts ↦ (some t, record p { servers = ts ++ t ∷ []; current = some t })
    ])

unfoldable pub remove_server : Option Server → Servers → Servers
unfolding index_from splice_one
remove_server none p = p
remove_server (some s) p = record p { servers = splice_one (index_of p.servers s) p.servers }

unfoldable pub remove_current_server : Servers → Servers
unfolding remove_server
remove_current_server p = remove_server p.current p

-- The servers that the handler of a reconnect sees, the current one first.
unfoldable pub snapshot_at : Server → ℤ → List Server → List Server
snapshot_at cur (pos zero) ss = ss
snapshot_at cur (pos (suc i)) ss = cur ∷ take (suc i) ss ++ drop (suc (suc i)) ss
snapshot_at cur (negsuc i) ss = ss

unfoldable pub snapshot_for_handler : Servers → List Server
unfolding index_from snapshot_at
snapshot_for_handler p = elim (p.current) [
  | none ↦ p.servers
  | some cur ↦ snapshot_at cur (index_of p.servers cur) p.servers
]

abbrev pub find_in : Text → List Server → Option Server
find_in l [] = none
find_in l (s ∷ ss) = if eq_text s.listen l then some s else find_in l ss

unfoldable pub find : Server → Servers → Option Server
find s p = find_in s.listen p.servers

unfoldable pub set_current : Server → Servers → Servers
set_current s p = record p { current = some s }

unfoldable pub next : Servers → Option Server
next p = elim (p.servers) [ [] ↦ none | s ∷ ss ↦ some s ]

-- ===== src/Protocol/Table.antt =====
-- The map from sids to subscriptions in core/src/protocol.ts.
use nats_js.Base.{ℕ, ◌≡◌, refl, arith, false, none, some, List, [], ◌∷◌, ◌==◌}
use nats_js.Protocol.Subscriptions.{lookup, put, remove}

pub lookup-put_other :
    (j k x : ℕ) (t : List (ℕ × ℕ)) → (k == j) ≡ false → lookup j (put k x t) ≡ lookup j t
unfolding lookup put
lookup-put_other j k x [] n = ground arith
lookup-put_other j k x ((a, y) ∷ t) n = ground (arith, lookup-put_other j k x t n)

pub lookup-put_same : (k x : ℕ) (t : List (ℕ × ℕ)) → lookup k (put k x t) ≡ some x
unfolding lookup put
lookup-put_same k x [] = ground arith
lookup-put_same k x ((a, y) ∷ t) = ground (arith, lookup-put_same k x t)

pub lookup-remove_other :
    (j k : ℕ) (t : List (ℕ × ℕ)) → (k == j) ≡ false → lookup j (remove k t) ≡ lookup j t
unfolding lookup remove
lookup-remove_other j k [] n = refl
lookup-remove_other j k ((a, y) ∷ t) n = ground (arith, lookup-remove_other j k t n)

pub lookup-remove_same : (k : ℕ) (t : List (ℕ × ℕ)) → lookup k (remove k t) ≡ none
unfolding lookup remove
lookup-remove_same k [] = refl
lookup-remove_same k ((a, y) ∷ t) = ground (arith, lookup-remove_same k t)

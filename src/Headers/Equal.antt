-- ===== src/Headers/Equal.antt =====
-- `equals` of `MsgHdrsImpl` in core/src/headers.ts.
use nats_js.Base.{
  Bool, true, false, ◌&&◌, ◌||◌, List, [], ◌∷◌, ltb, ◌==◌, if◌then◌else◌, Text, eq_text, leb_ℤ,
  Result, ok, length,
}
use nats_js.Base.Errors.{◌>>=◌}
use nats_js.Headers.Names.{HeaderError, exact}
use nats_js.Headers.Table.{MsgHdrs, Entry, values}

-- The order of code units in which `sort` puts strings.
unfoldable pub before : Text → Text → Bool
before [] t = true
before (c ∷ s) [] = false
before (c ∷ s) (d ∷ t) = let rest = before s t in ltb c d || (c == d && rest)

unfoldable pub insert : Text → List Text → List Text
unfolding before
insert t [] = t ∷ []
insert t (u ∷ us) = let rest = insert t us in if before t u then t ∷ u ∷ us else u ∷ rest

-- `sort()`: equal strings are the same, so that there is one sorted list.
unfoldable pub sort : List Text → List Text
unfolding insert
sort [] = []
sort (t ∷ ts) = insert t (sort ts)

unfoldable pub same_texts : List Text → List Text → Bool
same_texts [] [] = true
same_texts (t ∷ ts) (u ∷ us) = let rest = same_texts ts us in eq_text t u && rest
same_texts _ _ = false

unfoldable pub same_values : List Text → List Text → Bool
unfolding sort same_texts
same_values v a = if length v == length a then same_texts (sort v) (sort a) else false

unfoldable pub same_entries : List Entry → MsgHdrs → Result HeaderError Bool
unfolding values same_values
same_entries [] mh = ok true
same_entries (e ∷ es) mh = do
  a ← values e.key exact mh
  elim (same_values e.vals a) [ true ↦ same_entries es mh | false ↦ ok false ]

unfoldable pub equals : MsgHdrs → MsgHdrs → Result HeaderError Bool
unfolding same_entries
equals h mh =
    if length h.entries == length mh.entries && leb_ℤ h.code mh.code && leb_ℤ mh.code h.code
    then same_entries h.entries mh
    else ok false

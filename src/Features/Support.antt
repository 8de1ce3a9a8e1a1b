-- ===== src/Features/Support.antt =====
-- Which features are supported after a sequence of changes, in core/src/semver.ts.
use nats_js.Base.{
  ◌≡◌, refl, sym, ap, ◌∙◌, arith, Bool, true, false, Option, none, some, List, [], if◌then◌else◌,
  leb_ℤ, pos, ◌↔◌, codes, map,
}
use nats_js.Features.SemVer.{SemVer, compare}
use nats_js.Features.Versions.{Older}
use nats_js.Features.Table.{Feature, FeatureVersion, Features, mem, new_features, get, supports}
use nats_js.Features.Filled.{required, entry}
use nats_js.Features.Changes.{
  Change, apply_all, version_after, disabled_after, throws, IsTable, update-IsTable,
  apply_all-Changed,
}

compare_at_least :
    (a b : SemVer)
    → (leb_ℤ (pos 0) (compare a b) ≡ true → ¬ Older a b)
      × (¬ Older a b → leb_ℤ (pos 0) (compare a b) ≡ true)
unfolding compare
compare_at_least a b = ground arith

abbrev is_ok : Option FeatureVersion → Bool
is_ok none = false
is_ok (some v) = v.ok

supports_lem : (t : Features) (f : Feature) → supports f t ≡ is_ok (t.features f)
unfolding supports get
supports_lem t f = at (t.features f)
  where
    at :
        (o : Option FeatureVersion)
        → (elim o as (λ _. FeatureVersion) [
          | some v ↦ v
          | none ↦ record { ok = false; minimum = codes "unknown" }
        ]).ok
          ≡ is_ok o
    at none = refl
    at (some v) = refl

IsTable-supports :
    (v : SemVer) (ds : List Feature) (t : Features) (f : Feature)
    → IsTable v ds t
    → (supports f t ≡ true) ↔ ((mem f ds ≡ false) × (¬ Older v (required f)))
IsTable-supports v ds t f h =
    decide (mem f ds) (supports f t) (supports_lem t f ∙ ap is_ok (h.features_are f))
  where
    decide :
        (b s : Bool)
        → s ≡ is_ok (if b then none else some (entry v f))
        → (s ≡ true) ↔ ((b ≡ false) × (¬ Older v (required f)))
    decide true s e = ground arith
    decide false s e =
        let c = compare_at_least v (required f) in
        ((λ x. (refl, c.0 (sym e ∙ x))), (λ x. e ∙ c.1 (x.1)))

-- After any calls of `disable`, `resetDisabled` and `update`, a feature is supported exactly when it is not among those
-- disabled since the last reset and the version given last is not older than the one that introduced it; a call throws
-- exactly if it is an update with a text that is no version, and then it changes nothing.
pub apply_all-supports :
    (v : SemVer) (cs : List Change)
    → (t : Features) × (new_features v ≡ some t)
      × ((apply_all cs t).1 ≡ map throws cs)
      × ((apply_all cs t).0.server ≡ version_after v cs)
      × ((f : Feature)
          → (supports f (apply_all cs t).0 ≡ true) ↔ (
              (mem f (disabled_after [] cs) ≡ false) × (¬ Older (version_after v cs) (required f))))
unfolding new_features
apply_all-supports v cs =
    let r = update-IsTable v (record { server = v; features = λ _. none; disabled = [] }) [] refl in
    let q = apply_all-Changed cs v [] r.0 r.2 in
    (r.0, r.1, q.1, q.0.server_is, (λ f. IsTable-supports _ _ (apply_all cs r.0).0 f q.0))

-- ===== src/Features/Changes.antt =====
-- The table of `Features` of core/src/semver.ts after a sequence of changes.
use mathlib.Core.Path.{subst}
use nats_js.Base.{
  ◌≡◌, refl, sym, ap, ◌∙◌, Bool, true, false, Option, none, some, List, [], ◌∷◌, ◌++◌,
  if◌then◌else◌, ◌||◌, map, Text,
}
use nats_js.Features.SemVer.{SemVer, parse_sem_ver}
use nats_js.Features.Table.{
  Feature, FeatureVersion, Features, same, mem, delete, delete_all, update, update_text,
  reset_disabled, disable,
}
use nats_js.Features.Filled.{entry, filled, set_all_lem, features-filled}

delete_all-features :
    (ds : List Feature) (t : Features) (f : Feature)
    → (delete_all ds t).features f ≡ (if mem f ds then none else t.features f)
delete_all-features [] t f = refl
delete_all-features (d ∷ ds) t f =
    delete_all-features ds (delete d t) f ∙ push (mem f ds) (same d f) (t.features f)
  where
    push :
        (a b : Bool) (o : Option FeatureVersion)
        → (if a then none else (if b then none else o)) ≡ (if b || a then none else o)
    push true true o = refl
    push true false o = refl
    push false true o = refl
    push false false o = refl

delete_all-server : (ds : List Feature) (t : Features) → (delete_all ds t).server ≡ t.server
delete_all-server [] t = refl
delete_all-server (d ∷ ds) t = delete_all-server ds (delete d t)

delete_all-disabled : (ds : List Feature) (t : Features) → (delete_all ds t).disabled ≡ t.disabled
delete_all-disabled [] t = refl
delete_all-disabled (d ∷ ds) t = delete_all-disabled ds (delete d t)

abbrev pub listed : SemVer → List Feature → Feature → Option FeatureVersion
listed v ds f = if mem f ds then none else some (entry v f)

-- The table that belongs to a version and a list of disabled features.
pub record IsTable (v : SemVer) (ds : List Feature) (t : Features) : Type 0 where
  pub server_is : t.server ≡ v
  pub disabled_is : t.disabled ≡ ds
  pub features_are : (f : Feature) → t.features f ≡ listed v ds f

pub update-IsTable :
    (v : SemVer) (t : Features) (ds : List Feature)
    → t.disabled ≡ ds
    → (u : Features) × (update v t ≡ some u) × IsTable v ds u
unfolding update
update-IsTable v t ds e = (
  delete_all t.disabled (filled v t.features t.disabled),
  (rw ((set_all_lem v t.features t.disabled).0) refl),
  record {
    server_is = delete_all-server t.disabled _ ∙ (set_all_lem v t.features t.disabled).1.0;
    disabled_is = delete_all-disabled t.disabled _ ∙ (set_all_lem v t.features t.disabled).1.1 ∙ e;
    features_are = λ f.
        delete_all-features t.disabled _ f
        ∙ ap (λ o. if mem f t.disabled then none else o) (features-filled v t.features t.disabled f)
        ∙ ap (λ x. listed v x f) e;
  },
)

-- A call of `disable`, `resetDisabled` or `update`, with a version or with a text.
pub data Change : Type 0 where
  disabling : Feature → Change
  resetting : Change
  updating : SemVer → Change
  updating_text : Text → Change

unfoldable pub apply : Change → Features → Option Features
unfolding update_text
apply (disabling f) t = disable f t
apply resetting t = reset_disabled t
apply (updating v) t = update v t
apply (updating_text s) t = update_text s t

-- The calls in order, with whether each throws; a call that throws leaves the features as they are.
unfoldable pub apply_all : List Change → Features → Features × List Bool
unfolding apply
apply_all [] t = (t, [])
apply_all (c ∷ cs) t = elim (apply c t) [
  | none ↦ ((apply_all cs t).0, true ∷ (apply_all cs t).1)
  | some u ↦ ((apply_all cs u).0, false ∷ (apply_all cs u).1)
]

abbrev pub or_version : SemVer → Option SemVer → SemVer
or_version v none = v
or_version v (some w) = w

-- The version after the calls: the one given last.
abbrev pub version_after : SemVer → List Change → SemVer
version_after v [] = v
version_after v (updating w ∷ cs) = version_after w cs
version_after v (updating_text s ∷ cs) = version_after (or_version v (parse_sem_ver s)) cs
version_after v (disabling f ∷ cs) = version_after v cs
version_after v (resetting ∷ cs) = version_after v cs

-- The features disabled since they were last reset.
abbrev pub disabled_after : List Feature → List Change → List Feature
disabled_after ds [] = ds
disabled_after ds (disabling f ∷ cs) = disabled_after (ds ++ f ∷ []) cs
disabled_after ds (resetting ∷ cs) = disabled_after [] cs
disabled_after ds (updating v ∷ cs) = disabled_after ds cs
disabled_after ds (updating_text s ∷ cs) = disabled_after ds cs

abbrev pub is_none {ℓ} : {A : Type ℓ} → Option A → Bool
is_none none = true
is_none (some x) = false

-- A call throws if it gives a text that is no version.
abbrev pub throws : Change → Bool
throws (disabling f) = false
throws resetting = false
throws (updating v) = false
throws (updating_text s) = is_none (parse_sem_ver s)

-- A table after changes, with what each has thrown.
abbrev pub Changed : SemVer → List Feature → List Change → Features × List Bool → Type 0
Changed v ds cs r = IsTable (version_after v cs) (disabled_after ds cs) r.0 × (r.1 ≡ map throws cs)

apply_all-done :
    (c : Change) (cs : List Change) (t u : Features) (v : SemVer) (ds : List Feature)
    → apply c t ≡ some u
    → throws c ≡ false
    → Changed v ds cs (apply_all cs u)
    → IsTable (version_after v cs) (disabled_after ds cs) (apply_all (c ∷ cs) t).0
      × ((apply_all (c ∷ cs) t).1 ≡ map throws (c ∷ cs))
unfolding apply_all
apply_all-done c cs t u v ds e n h =
    rw (e, apply_all) (h.0, ap (◌∷◌ false) h.1 ∙ ap (λ b. b ∷ map throws cs) (sym n))

apply_all-threw :
    (c : Change) (cs : List Change) (t : Features) (v : SemVer) (ds : List Feature)
    → apply c t ≡ none
    → throws c ≡ true
    → Changed v ds cs (apply_all cs t)
    → IsTable (version_after v cs) (disabled_after ds cs) (apply_all (c ∷ cs) t).0
      × ((apply_all (c ∷ cs) t).1 ≡ map throws (c ∷ cs))
unfolding apply_all
apply_all-threw c cs t v ds e n h =
    rw (e, apply_all) (h.0, ap (◌∷◌ true) h.1 ∙ ap (λ b. b ∷ map throws cs) (sym n))

text-Changed :
    (s : Text) (cs : List Change) (v : SemVer) (ds : List Feature) (t : Features)
    → ((w : SemVer) (es : List Feature) (u : Features)
        → IsTable w es u
        → Changed w es cs (apply_all cs u))
    → IsTable v ds t
    → (o : Option SemVer) → parse_sem_ver s ≡ o
    → Changed v ds (updating_text s ∷ cs) (apply_all (updating_text s ∷ cs) t)
unfolding apply update_text
text-Changed s cs v ds t more h none e =
    apply_all-threw (updating_text s) cs t (or_version v (parse_sem_ver s)) ds
      (rw (e, update_text) refl) (ap is_none e)
      (more (or_version v (parse_sem_ver s)) ds t
        (subst (λ o. IsTable (or_version v o) ds t) (sym e) h))
text-Changed s cs v ds t more h (some w) e =
    let r = update-IsTable w t ds h.disabled_is in
    apply_all-done (updating_text s) cs t r.0 (or_version v (parse_sem_ver s)) ds
      (rw (e, update_text) r.1) (ap is_none e)
      (more (or_version v (parse_sem_ver s)) ds r.0
        (subst (λ o. IsTable (or_version v o) ds r.0) (sym e) r.2))

pub apply_all-Changed :
    (cs : List Change) (v : SemVer) (ds : List Feature) (t : Features)
    → IsTable v ds t
    → Changed v ds cs (apply_all cs t)
unfolding apply disable reset_disabled update_text
apply_all-Changed [] v ds t h = unfold apply_all in (h, refl)
apply_all-Changed (disabling f ∷ cs) v ds t h =
    let r =
      update-IsTable t.server (record t { disabled = t.disabled ++ f ∷ [] }) (ds ++ f ∷ [])
        (ap (λ x. x ++ f ∷ []) h.disabled_is) in
    apply_all-done (disabling f) cs t r.0 v (ds ++ f ∷ []) r.1 refl (
      apply_all-Changed cs v (ds ++ f ∷ []) r.0
        (subst (λ x. IsTable x (ds ++ f ∷ []) r.0) h.server_is r.2))
apply_all-Changed (resetting ∷ cs) v ds t h =
    let r = update-IsTable t.server (record t { disabled = [] }) [] refl in
    apply_all-done resetting cs t r.0 v [] r.1 refl
      (apply_all-Changed cs v [] r.0 (subst (λ x. IsTable x [] r.0) h.server_is r.2))
apply_all-Changed (updating w ∷ cs) v ds t h =
    let r = update-IsTable w t ds h.disabled_is in
    apply_all-done (updating w) cs t r.0 w ds r.1 refl (apply_all-Changed cs w ds r.0 r.2)
apply_all-Changed (updating_text s ∷ cs) v ds t h =
    text-Changed s cs v ds t (apply_all-Changed cs) h (parse_sem_ver s) refl

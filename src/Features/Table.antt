-- ===== src/Features/Table.antt =====
-- `Feature` and `Features` of core/src/semver.ts: the features that depend on the server's version.
use mathlib.Core.Option.{map}
use nats_js.Base.{
  ℕ, Bool, false, ◌||◌, Option, none, some, List, [], ◌∷◌, ◌++◌, ◌==◌, if◌then◌else◌, Text, codes,
  leb_ℤ, pos,
}
use nats_js.Features.SemVer.{SemVer, parse_sem_ver, compare}

pub data Feature : Type 0 where
  js_kv : Feature
  js_objectstore : Feature
  js_pull_max_bytes : Feature
  js_new_consumer_create_api : Feature
  js_allow_direct : Feature
  js_multiple_consumer_filter : Feature
  js_simplification : Feature
  js_stream_consumer_metadata : Feature
  js_consumer_filter_subjects : Feature
  js_stream_first_seq : Feature
  js_stream_subject_transform : Feature
  js_stream_source_subject_transform : Feature
  js_stream_compression : Feature
  js_default_consumer_limits : Feature
  js_batch_direct_get : Feature
  js_priority_groups : Feature
  js_consumer_reset : Feature

-- Where a feature stands in the declaration, which tells its name from the others.
abbrev pub index : Feature → ℕ
index js_kv = 0
index js_objectstore = 1
index js_pull_max_bytes = 2
index js_new_consumer_create_api = 3
index js_allow_direct = 4
index js_multiple_consumer_filter = 5
index js_simplification = 6
index js_stream_consumer_metadata = 7
index js_consumer_filter_subjects = 8
index js_stream_first_seq = 9
index js_stream_subject_transform = 10
index js_stream_source_subject_transform = 11
index js_stream_compression = 12
index js_default_consumer_limits = 13
index js_batch_direct_get = 14
index js_priority_groups = 15
index js_consumer_reset = 16

abbrev pub same : Feature → Feature → Bool
same f g = index f == index g

pub record FeatureVersion : Type 0 where
  pub ok : Bool
  pub minimum : Text

-- A `Map` with the features for keys is a function.
pub record Features : Type 0 where
  pub server : SemVer
  pub features : Feature → Option FeatureVersion
  pub disabled : List Feature

abbrev pub mem : Feature → List Feature → Bool
mem f [] = false
mem f (g ∷ gs) = same g f || mem f gs

unfoldable pub is_disabled : Feature → Features → Bool
is_disabled f t = mem f t.disabled

-- `none`, here and below, is the error of `parseSemVer`.
unfoldable pub set : Feature → Text → Features → Option Features
set f requires t = elim (parse_sem_ver requires) [
  | none ↦ none
  | some v ↦ some (record {
    server = t.server;
    features = λ g.
        if same f g
        then some (record { ok = leb_ℤ (pos 0) (compare t.server v); minimum = requires })
        else t.features g;
    disabled = t.disabled;
  })
]

-- `this.features.delete(f)`
abbrev pub delete : Feature → Features → Features
delete f t = record {
  server = t.server;
  features = λ g. if same f g then none else t.features g;
  disabled = t.disabled;
}

abbrev pub delete_all : List Feature → Features → Features
delete_all [] t = t
delete_all (f ∷ fs) t = delete_all fs (delete f t)

abbrev pub requirements : List (Feature × Text)
requirements =
    (js_kv, codes "2.6.2")
    ∷ (js_objectstore, codes "2.6.3")
    ∷ (js_pull_max_bytes, codes "2.8.3")
    ∷ (js_new_consumer_create_api, codes "2.9.0")
    ∷ (js_allow_direct, codes "2.9.0")
    ∷ (js_multiple_consumer_filter, codes "2.10.0")
    ∷ (js_simplification, codes "2.9.4")
    ∷ (js_stream_consumer_metadata, codes "2.10.0")
    ∷ (js_consumer_filter_subjects, codes "2.10.0")
    ∷ (js_stream_first_seq, codes "2.10.0")
    ∷ (js_stream_subject_transform, codes "2.10.0")
    ∷ (js_stream_source_subject_transform, codes "2.10.0")
    ∷ (js_stream_compression, codes "2.10.0")
    ∷ (js_default_consumer_limits, codes "2.10.0")
    ∷ (js_batch_direct_get, codes "2.11.0")
    ∷ (js_priority_groups, codes "2.11.0")
    ∷ (js_consumer_reset, codes "2.14.0")
    ∷ []

abbrev pub set_all : List (Feature × Text) → Features → Option Features
set_all [] t = some t
set_all (r ∷ rs) t = elim (set r.0 r.1 t) [ none ↦ none | some u ↦ set_all rs u ]

-- `update` of a version that is parsed.
unfoldable pub update : SemVer → Features → Option Features
update v t =
    map (λ u. delete_all t.disabled u)
      (set_all requirements (record { server = v; features = t.features; disabled = t.disabled }))

-- `update` of a text.
unfoldable pub update_text : Text → Features → Option Features
update_text s t = elim (parse_sem_ver s) [ none ↦ none | some v ↦ update v t ]

unfoldable pub new_features : SemVer → Option Features
new_features v = update v (record { server = v; features = λ _. none; disabled = [] })

unfoldable pub reset_disabled : Features → Option Features
reset_disabled t =
    update t.server (record { server = t.server; features = t.features; disabled = [] })

unfoldable pub disable : Feature → Features → Option Features
disable f t =
    update t.server
      (record { server = t.server; features = t.features; disabled = t.disabled ++ f ∷ [] })

unfoldable pub get : Feature → Features → FeatureVersion
get f t = elim (t.features f) [
  | some v ↦ v
  | none ↦ record { ok = false; minimum = codes "unknown" }
]

unfoldable pub supports : Feature → Features → Bool
unfolding get
supports f t = (get f t).ok

unfoldable pub require : SemVer → Features → Bool
require v t = leb_ℤ (pos 0) (compare t.server v)

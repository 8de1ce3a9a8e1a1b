-- ===== src/Features/Filled.antt =====
-- What `update` of core/src/semver.ts fills into the table, feature by feature.
use nats_js.Base.{ℕ, ◌≡◌, refl, Option, none, some, List, Text, codes, leb_ℤ, pos}
use nats_js.Features.SemVer.{SemVer, parse_sem_ver, compare, match_here, group, any_char}
use nats_js.Features.Table.{
  Feature, js_kv, js_objectstore, js_pull_max_bytes, js_new_consumer_create_api, js_allow_direct,
  js_multiple_consumer_filter, js_simplification, js_stream_consumer_metadata,
  js_consumer_filter_subjects, js_stream_first_seq, js_stream_subject_transform,
  js_stream_source_subject_transform, js_stream_compression, js_default_consumer_limits,
  js_batch_direct_get, js_priority_groups, js_consumer_reset, FeatureVersion, Features, set,
  requirements, set_all,
}

abbrev version : ℕ → ℕ → ℕ → SemVer
version a b c = record { major = a; minor = b; micro = c }

-- The first release of the server that has the feature.
abbrev pub required : Feature → SemVer
required js_kv = version 2 6 2
required js_objectstore = version 2 6 3
required js_pull_max_bytes = version 2 8 3
required js_new_consumer_create_api = version 2 9 0
required js_allow_direct = version 2 9 0
required js_multiple_consumer_filter = version 2 10 0
required js_simplification = version 2 9 4
required js_stream_consumer_metadata = version 2 10 0
required js_consumer_filter_subjects = version 2 10 0
required js_stream_first_seq = version 2 10 0
required js_stream_subject_transform = version 2 10 0
required js_stream_source_subject_transform = version 2 10 0
required js_stream_compression = version 2 10 0
required js_default_consumer_limits = version 2 10 0
required js_batch_direct_get = version 2 11 0
required js_priority_groups = version 2 11 0
required js_consumer_reset = version 2 14 0

abbrev label : Feature → Text
label js_kv = codes "2.6.2"
label js_objectstore = codes "2.6.3"
label js_pull_max_bytes = codes "2.8.3"
label js_new_consumer_create_api = codes "2.9.0"
label js_allow_direct = codes "2.9.0"
label js_multiple_consumer_filter = codes "2.10.0"
label js_simplification = codes "2.9.4"
label js_stream_consumer_metadata = codes "2.10.0"
label js_consumer_filter_subjects = codes "2.10.0"
label js_stream_first_seq = codes "2.10.0"
label js_stream_subject_transform = codes "2.10.0"
label js_stream_source_subject_transform = codes "2.10.0"
label js_stream_compression = codes "2.10.0"
label js_default_consumer_limits = codes "2.10.0"
label js_batch_direct_get = codes "2.11.0"
label js_priority_groups = codes "2.11.0"
label js_consumer_reset = codes "2.14.0"

abbrev pub entry : SemVer → Feature → FeatureVersion
entry v f = record { ok = leb_ℤ (pos 0) (compare v (required f)); minimum = label f }

abbrev pub IsFilled : SemVer → List Feature → Features → Type 0
IsFilled v ds t =
    (t.server ≡ v) × (t.disabled ≡ ds) × ((f : Feature) → t.features f ≡ some (entry v f))

abbrev or_else : Option Features → Features → Features
or_else (some u) t = u
or_else none t = t

abbrev pub bare : SemVer → (Feature → Option FeatureVersion) → List Feature → Features
bare v fs ds = record { server = v; features = fs; disabled = ds }

abbrev pub filled : SemVer → (Feature → Option FeatureVersion) → List Feature → Features
filled v fs ds = or_else (set_all requirements (bare v fs ds)) (bare v fs ds)

pub features-filled :
    (v : SemVer) (fs : Feature → Option FeatureVersion) (ds : List Feature) (f : Feature)
    → (filled v fs ds).features f ≡ some (entry v f)
unfolding set parse_sem_ver match_here group any_char
features-filled v fs ds js_kv = refl
features-filled v fs ds js_objectstore = refl
features-filled v fs ds js_pull_max_bytes = refl
features-filled v fs ds js_new_consumer_create_api = refl
features-filled v fs ds js_allow_direct = refl
features-filled v fs ds js_multiple_consumer_filter = refl
features-filled v fs ds js_simplification = refl
features-filled v fs ds js_stream_consumer_metadata = refl
features-filled v fs ds js_consumer_filter_subjects = refl
features-filled v fs ds js_stream_first_seq = refl
features-filled v fs ds js_stream_subject_transform = refl
features-filled v fs ds js_stream_source_subject_transform = refl
features-filled v fs ds js_stream_compression = refl
features-filled v fs ds js_default_consumer_limits = refl
features-filled v fs ds js_batch_direct_get = refl
features-filled v fs ds js_priority_groups = refl
features-filled v fs ds js_consumer_reset = refl

pub set_all_lem :
    (v : SemVer) (fs : Feature → Option FeatureVersion) (ds : List Feature)
    → (set_all requirements (bare v fs ds) ≡ some (filled v fs ds)) × IsFilled v ds (filled v fs ds)
unfolding set parse_sem_ver match_here group any_char
set_all_lem v fs ds = (refl, (refl, refl, features-filled v fs ds))

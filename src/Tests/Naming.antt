-- ===== src/Tests/Naming.antt =====
-- Versions and features of core/src/semver.ts, and the keys of kv/src/kv.ts.
use mathlib.Core.Option.{some_inj}
use mathlib.Core.Path.{subst}
use nats_js.Base.{
  map, ap, ◌∙◌, ◌+◌, ◌-◌, ◌*◌, ◌/◌, ◌%◌, ℕ, ◌≡◌, refl, arith, true, false, List, [], ◌∷◌, Option,
  none, some, Text, codes, ◌↔◌, pos, negsuc,
}
use nats_js.Features.SemVer.{SemVer, compare, parse_sem_ver, match_here, group, any_char}
use nats_js.Features.Versions.{Older, compare_lem}
use nats_js.Features.Table.{Feature, js_kv, Features, mem, new_features, supports}
use nats_js.Features.Filled.{required}
use nats_js.Features.Changes.{
  Change, disabling, updating, updating_text, throws, apply_all, version_after, disabled_after,
}
use nats_js.Features.Support.{apply_all-supports}
use nats_js.Keys.{
  validate_search_key, split, all_in, is_star, is_gt, code_key, code_tokens, code_token, ◌>>=◌,
  validate_key, has_wildcards, encode, decode,
}
use nats_js.Keys.Wildcards.{
  all_filled, validate_key-has_wildcards, validate_key-validate_search_key,
}
use nats_js.Keys.Codec.{is_plain_char, IsBase64, decode-encode}

abbrev version : ℕ → ℕ → ℕ → SemVer
version a b c = record { major = a; minor = b; micro = c }

compare_lem_example :
    ((compare (version 2 9 0) (version 2 10 1) ≡ negsuc 0) ↔ Older (version 2 9 0) (version 2 10 1))
    × ((compare (version 2 9 0) (version 2 10 1) ≡ pos 0) ↔ (version 2 9 0 ≡ version 2 10 1))
    × ((compare (version 2 9 0) (version 2 10 1) ≡ pos 1) ↔ Older (version 2 10 1) (version 2 9 0))
compare_lem_example = compare_lem (version 2 9 0) (version 2 10 1)

read_version : parse_sem_ver (codes "v2.10.26-beta") ≡ some (version 2 10 26)
unfolding parse_sem_ver match_here group any_char
read_version = refl

abbrev changes : List Change
changes = disabling js_kv ∷ updating (version 2 11 3) ∷ updating_text (codes "latest") ∷ []

apply_all-supports_example :
    (t : Features) × (new_features (version 2 6 0) ≡ some t)
    × ((apply_all changes t).1 ≡ map throws changes)
    × ((apply_all changes t).0.server ≡ version_after (version 2 6 0) changes)
    × ((f : Feature)
        → (supports f (apply_all changes t).0 ≡ true) ↔ (
            (mem f (disabled_after [] changes) ≡ false)
            × (¬ Older (version_after (version 2 6 0) changes) (required f))))
apply_all-supports_example = apply_all-supports (version 2 6 0) changes

validate_key-has_wildcards_example : has_wildcards (codes "a.b-1/c=") ≡ some false
unfolding validate_key
validate_key-has_wildcards_example = validate_key-has_wildcards (codes "a.b-1/c=") refl

-- Two letters for each character, in place of base64.
abbrev letters : Text → Text
letters [] = []
letters (c ∷ cs) = (65 + c / 16) ∷ (65 + c % 16) ∷ letters cs

abbrev characters : Text → Option Text
characters [] = some []
characters (x ∷ []) = none
characters (x ∷ y ∷ cs) = characters cs >>= λ r. some (((x - 65) * 16 + (y - 65)) ∷ r)

characters-letters : (t : Text) → characters (letters t) ≡ some t
characters-letters [] = refl
characters-letters (c ∷ cs) =
    ap (λ o. o >>= λ r. some (((65 + c / 16 - 65) * 16 + (65 + c % 16 - 65)) ∷ r))
      (characters-letters cs)
    ∙ ap (λ n. some (n ∷ cs)) (omega arith)

letters_lem :
    (t : Text)
    → (all_in is_plain_char (letters t) ≡ true)
      × (is_star (letters t) ≡ false)
      × (is_gt (letters t) ≡ false)
letters_lem [] = (refl, refl, refl)
letters_lem (c ∷ cs) = ground (arith, letters_lem cs)

letters-IsBase64 : IsBase64 (λ t. some (letters t)) characters
letters-IsBase64 = record {
  takes_back = λ t u e. subst (λ x. characters x ≡ some t) (some_inj.0 e) (characters-letters t);
  plain = λ t u e. subst (λ x. all_in is_plain_char x ≡ true) (some_inj.0 e) ((letters_lem t).0);
  not_star = λ t u e. subst (λ x. is_star x ≡ false) (some_inj.0 e) ((letters_lem t).1);
  not_gt = λ t u e. subst (λ x. is_gt x ≡ false) (some_inj.0 e) ((letters_lem t).2);
}

decode-encode_example : decode characters (codes "GB.*.GCGD") ≡ some (codes "a.*.bc")
unfolding encode code_key code_tokens code_token
decode-encode_example =
    decode-encode (λ t. some (letters t)) characters letters-IsBase64 (codes "a.*.bc")
      (codes "GB.*.GCGD") refl

validate_key-validate_search_key_example :
    validate_search_key (codes "a..b") ≡ all_filled (split (codes "a..b"))
unfolding validate_key
validate_key-validate_search_key_example = validate_key-validate_search_key (codes "a..b") refl

-- ===== src/Protocol/Kinds.antt =====
-- What the texts of errors say in core/src/protocol.ts and core/src/errors.ts.
use nats_js.Headers.Wire.{is_prefix}
use nats_js.Base.{
  codes, eq_text, take, length, some, arith, ◌≡◌, refl, ap, ◌∙◌, Bool, true, false, ◌||◌, Option,
  none, some, List, [], ◌∷◌, if◌then◌else◌, Text,
}
use nats_js.Protocol.Failures.{
  Operation, publishing, subscription, violation, includes, lower, match_operation, ServerError,
  permission_violation, user_authentication_expired, authorization, protocol, to_error,
}

-- What a text tells of an error, by the words that are in it.
pub data Kind : Type 0 where
  permission : Kind
  auth : Kind
  other : Kind

-- A text begins with `p` somewhere.
abbrev pub mentions : Text → Text → Bool
mentions p [] = eq_text (take (length p) []) p
mentions p (c ∷ cs) = let rest = mentions p cs in eq_text (take (length p) (c ∷ cs)) p || rest

abbrev pub mentions_one : List Text → Text → Bool
mentions_one [] s = false
mentions_one (p ∷ ps) s = mentions p s || mentions_one ps s

abbrev pub auth_words : List Text
auth_words =
    codes "user authentication expired"
    ∷ codes "authorization violation"
    ∷ codes "account authentication expired"
    ∷ codes "authentication timeout"
    ∷ []

abbrev pub kind : Text → Kind
kind s =
    if mentions (codes "permissions violation") (lower s)
    then permission
    else if mentions_one auth_words (lower s)
    then auth
    else other

is_prefix-take : (p s : Text) → is_prefix p s ≡ eq_text (take (length p) s) p
unfolding is_prefix
is_prefix-take [] s = refl
is_prefix-take (c ∷ p) [] = refl
is_prefix-take (c ∷ p) (d ∷ s) = ground (arith, is_prefix-take p s)

includes-mentions : (p s : Text) → includes p s ≡ mentions p s
unfolding includes
includes-mentions p [] = is_prefix-take p []
includes-mentions p (c ∷ cs) =
    ap (λ b. b || includes p cs) (is_prefix-take p (c ∷ cs))
    ∙ ap (λ b. eq_text (take (length p) (c ∷ cs)) p || b) (includes-mentions p cs)

unfoldable pub kind_of : ServerError → Kind
kind_of (permission_violation m o s q) = permission
kind_of (user_authentication_expired s) = auth
kind_of (authorization s) = auth
kind_of (protocol s) = other

violation-kind : (s : Text) (o : Option (Operation × Text)) → kind_of (violation s o) ≡ permission
unfolding kind_of
violation-kind s none = refl
violation-kind s (some (publishing, t)) = refl
violation-kind s (some (subscription, t)) = refl

-- The order in which the words are looked for.
kind_lem :
    (s : Text) (v : ServerError) (p u a b c : Bool)
    → kind_of v ≡ permission
    → kind_of (
        if p
        then v
        else if u
        then user_authentication_expired s
        else if a || b || c
        then authorization s
        else protocol s)
      ≡ (if p then permission else if u || (a || (b || (c || false))) then auth else other)
unfolding kind_of
kind_lem s v true u a b c e = e
kind_lem s v false true a b c e = refl
kind_lem s v false false true b c e = refl
kind_lem s v false false false true c e = refl
kind_lem s v false false false false true e = refl
kind_lem s v false false false false false e = refl

pub to_error-kind : (s : Text) → kind_of (to_error s) ≡ kind s
unfolding to_error
to_error-kind s =
    let t = lower s in
    let same : includes ≡ mentions = λ i p r. includes-mentions p r i in
    kind_lem s (violation s (match_operation s)) (includes (codes "permissions violation") t)
      (includes (codes "user authentication expired") t)
      (includes (codes "authorization violation") t)
      (includes (codes "account authentication expired") t)
      (includes (codes "authentication timeout") t) (violation-kind s (match_operation s))
    ∙ ap
        (λ (f : Text → Text → Bool).
          if f (codes "permissions violation") t
          then permission
          else if f (codes "user authentication expired") t
              || (f (codes "authorization violation") t
                  || (f (codes "account authentication expired") t
                      || (f (codes "authentication timeout") t || false)))
          then auth
          else other)
        same

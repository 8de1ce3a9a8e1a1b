-- ===== src/Features/SemVer.antt =====
-- `SemVer`, `parseSemVer` and `compare` of core/src/semver.ts. The pattern /(\d+).(\d+).(\d+)/ is searched
-- from left to right; a group takes as many digits as it can, and gives back what the rest needs.
use nats_js.Base.{
  ℕ, true, false, ◌||◌, Option, none, some, [], ◌∷◌, ◌++◌, ℤ, pos, negsuc, ltb, ◌==◌, if◌then◌else◌,
  Text, is_digit, decimal_from,
}

pub record SemVer : Type 0 where
  pub major : ℕ
  pub minor : ℕ
  pub micro : ℕ

-- (\d+) followed by what `rest` matches: the longest run first.
unfoldable pub group {ℓ} : {A : Type ℓ} → (Text → Text → Option A) → Text → Text → Option A
group rest taken [] = none
group rest taken (c ∷ cs) = elim (is_digit c) [
  | false ↦ none
  | true ↦ elim (group rest (taken ++ c ∷ []) cs) [
    | some a ↦ some a
    | none ↦ rest (taken ++ c ∷ []) cs
  ]
]

-- The dot of the pattern: any character but the four that end a line.
unfoldable pub any_char {ℓ} : {A : Type ℓ} → (Text → Option A) → Text → Option A
any_char rest [] = none
any_char rest (c ∷ cs) = if c == 10 || c == 13 || c == 8232 || c == 8233 then none else rest cs

-- `parseInt` of a run of digits. (A double holds it exactly below 2 ^ 53.)
abbrev pub parse_int : Text → ℕ
parse_int = decimal_from 0

unfoldable pub match_here : Text → Option SemVer
unfolding group any_char
match_here =
    group
      (λ major. any_char (
        group
          (λ minor. any_char (
            group
              (λ micro _. some (record {
                major = parse_int major;
                minor = parse_int minor;
                micro = parse_int micro;
              }))
              []))
          []))
      []

-- `none` is the error that is thrown when there is no match.
unfoldable pub parse_sem_ver : Text → Option SemVer
unfolding match_here
parse_sem_ver [] = none
parse_sem_ver (c ∷ cs) = elim (match_here (c ∷ cs)) [ some v ↦ some v | none ↦ parse_sem_ver cs ]

unfoldable pub compare : SemVer → SemVer → ℤ
compare a b =
    if ltb a.major b.major
    then negsuc 0
    else if ltb b.major a.major
    then pos 1
    else if ltb a.minor b.minor
    then negsuc 0
    else if ltb b.minor a.minor
    then pos 1
    else if ltb a.micro b.micro
    then negsuc 0
    else if ltb b.micro a.micro
    then pos 1
    else pos 0

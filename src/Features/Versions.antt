-- ===== src/Features/Versions.antt =====
-- `compare` of core/src/semver.ts against the order of versions.
use mathlib.Core.Path.{subst}
use nats_js.Base.{◌≡◌, arith, ◌<◌, pos, negsuc, ◌⊎◌, ◌↔◌}
use nats_js.Features.SemVer.{SemVer, compare}

-- The lexicographic order.
abbrev pub Older : SemVer → SemVer → Type 0
Older a b =
    (a.major < b.major)
    ⊎ (a.major ≡ b.major) × (a.minor < b.minor)
    ⊎ (a.major ≡ b.major) × (a.minor ≡ b.minor) × (a.micro < b.micro)

compare-Older : (a b : SemVer) → compare a b ≡ negsuc 0 → Older a b
unfolding compare
compare-Older a b h = ground arith

Older-compare : (a b : SemVer) → Older a b → compare a b ≡ negsuc 0
unfolding compare
Older-compare a b h = ground arith

compare-same : (a b : SemVer) → compare a b ≡ pos 0 → a ≡ b
unfolding compare
compare-same a b h = ground arith

same-compare : (a : SemVer) → compare a a ≡ pos 0
unfolding compare
same-compare a = ground arith

compare-newer : (a b : SemVer) → compare a b ≡ pos 1 → Older b a
unfolding compare
compare-newer a b h = ground arith

newer-compare : (a b : SemVer) → Older b a → compare a b ≡ pos 1
unfolding compare
newer-compare a b h = ground arith

-- `compare` answers -1 exactly for an older version, 0 exactly for the same, and otherwise 1; and the
-- opposite with its arguments exchanged.
pub compare_lem :
    (a b : SemVer)
    → ((compare a b ≡ negsuc 0) ↔ Older a b)
      × ((compare a b ≡ pos 0) ↔ (a ≡ b))
      × ((compare a b ≡ pos 1) ↔ Older b a)
compare_lem a b = (
  ((compare-Older a b), (Older-compare a b)),
  ((compare-same a b), (λ e. subst (λ x. compare a x ≡ pos 0) e (same-compare a))),
  ((compare-newer a b), (newer-compare a b)),
)

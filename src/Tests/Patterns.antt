-- ===== src/Tests/Patterns.antt =====
-- Glob patterns and ignore rules at concrete inputs.
use flux_build.Base.Text.{trim_suffix}
use flux_build.Base.{true, false, List, [], ◌∷◌, nat_eq, ◌≡◌, ◌≢◌, ◌↔◌, refl, All}
use flux_build.Base.Text.{codes, text_eq, has_prefix}
use flux_build.Ignore.{Pattern, pattern_of, ignore}
use flux_build.Ignore.Decision.{Hits, ignore_iff}
use flux_build.Ignore.Steady.{IsSteady}
use flux_build.Ignore.Glob.{star, any_byte, literal, accepts}
use flux_build.Ignore.Glob.Language.{Language, accepts_iff}
use mathlib.Core.List.{Memᴰ}

accepts_iff_example :
    (accepts (star ∷ literal b'.' ∷ any_byte ∷ []) (codes "a.b") ≡ true)
    ↔ Language (star ∷ literal b'.' ∷ any_byte ∷ []) (codes "a.b")
accepts_iff_example = accepts_iff (star ∷ literal b'.' ∷ any_byte ∷ []) (codes "a.b")

abbrev patterns : List Pattern
patterns = pattern_of (codes "*.txt") ∷ pattern_of (codes "!/keep/") ∷ []

ignore_iff_example : ((ignore patterns (codes "b.txt") false).0 ≡ true) ↔ (
    (codes "b.txt" ≢ [])
    × (codes "b.txt" ≢ codes ".")
    × (codes "b.txt" ≢ codes "./")
    × (p : Pattern) × Memᴰ p patterns
    × Hits p (codes "b.txt") false)
ignore_iff_example = ignore_iff patterns (codes "b.txt") false

patterns-IsSteady : All IsSteady patterns
unfolding IsSteady has_prefix pattern_of trim_suffix
patterns-IsSteady = (refl, (refl, tt))

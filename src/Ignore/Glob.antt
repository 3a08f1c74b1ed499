-- ===== src/Ignore/Glob.antt =====
-- `filepath.Match` on Unix by its documentation, on bytes where Go reads runes: patterns as lists of terms.
-- Go's search keeps the first place where the part behind a star fits, which may differ from this where a
-- class behind a star admits the slash, as a negated one does; elsewhere it agrees.
pub mod Language
use flux_build.Base.{
  ℕ, Bool, true, false, not, ◌&&◌, ◌||◌, Option, none, some, List, [], ◌∷◌, ◌++◌, ◌==◌, nat_eq,
  if◌then◌else◌, any, leb,
}
use flux_build.Base.Text.{Text, is_empty}

pub data Term : Type 0 where
  star any_byte : Term
  literal : ℕ → Term
  class : Bool → List (ℕ × ℕ) → Term

-- Where the reader of a pattern stands: outside of a class, behind a backslash, or in a class that is
-- negated or not, with the ranges read so far
pub data Mode : Type 0 where
  outside escaped opened : Mode
  items low_escaped : Bool → List (ℕ × ℕ) → Mode
  low high high_escaped : Bool → List (ℕ × ℕ) → ℕ → Mode

unfoldable pub read_low : Bool → List (ℕ × ℕ) → ℕ → Option (Mode × List Term)
read_low negated ranges b =
    if b == b'-' || b == b']'
    then none
    else if b == 92
    then some (low_escaped negated ranges, [])
    else some (low negated ranges b, [])

unfoldable pub read_item : Bool → List (ℕ × ℕ) → ℕ → Option (Mode × List Term)
unfolding read_low
read_item negated ranges b =
    if b == b']' && not (is_empty ranges)
    then some (outside, class negated ranges ∷ [])
    else read_low negated ranges b

unfoldable pub advance : Mode → ℕ → Option (Mode × List Term)
unfolding read_item read_low
advance outside b =
    if b == b'*'
    then some (outside, star ∷ [])
    else if b == b'?'
    then some (outside, any_byte ∷ [])
    else if b == b'['
    then some (opened, [])
    else if b == 92
    then some (escaped, [])
    else some (outside, literal b ∷ [])
advance escaped b = some (outside, literal b ∷ [])
advance opened b = if b == b'^' then some (items true [], []) else read_low false [] b
advance (items negated ranges) b = read_item negated ranges b
advance (low_escaped negated ranges) b = some (low negated ranges b, [])
advance (low negated ranges l) b =
    if b == b'-' then some (high negated ranges l, []) else read_item negated ((l, l) ∷ ranges) b
advance (high negated ranges l) b =
    if b == b'-' || b == b']'
    then none
    else if b == 92
    then some (high_escaped negated ranges l, [])
    else some (items negated ((l, b) ∷ ranges), [])
advance (high_escaped negated ranges l) b = some (items negated ((l, b) ∷ ranges), [])

-- The terms of a pattern; none for a malformed one
unfoldable pub terms_from : Mode → Text → Option (List Term)
unfolding advance
terms_from outside [] = some []
terms_from mode [] = none
terms_from mode (b ∷ s) = elim (advance mode b) [
  | none ↦ none
  | some (mode', ts) ↦ elim (terms_from mode' s) [ none ↦ none | some rest ↦ some (ts ++ rest) ]
]

unfoldable pub terms : Text → Option (List Term)
unfolding terms_from
terms p = terms_from outside p

unfoldable pub in_range : ℕ → ℕ × ℕ → Bool
in_range b (lo, hi) = leb lo b && leb b hi

unfoldable pub in_class : Bool → List (ℕ × ℕ) → ℕ → Bool
unfolding in_range
in_class negated ranges b =
    let inside = any (in_range b) ranges in if negated then not inside else inside

-- A star: any text without a slash, then what `rest` accepts
unfoldable pub after_star : (Text → Bool) → Text → Bool
after_star rest [] = rest []
after_star rest (b ∷ s) = rest (b ∷ s) || (not (b == b'/') && after_star rest s)

unfoldable pub accepts : List Term → Text → Bool
unfolding after_star in_class
accepts [] [] = true
accepts [] (b ∷ s) = false
accepts (star ∷ ts) s = after_star (accepts ts) s
accepts (any_byte ∷ ts) [] = false
accepts (any_byte ∷ ts) (b ∷ s) = not (b == b'/') && accepts ts s
accepts (literal c ∷ ts) [] = false
accepts (literal c ∷ ts) (b ∷ s) = c == b && accepts ts s
accepts (class negated ranges ∷ ts) [] = false
accepts (class negated ranges ∷ ts) (b ∷ s) = in_class negated ranges b && accepts ts s

-- `filepath.Match`: nothing for a bad pattern
unfoldable pub glob_match : Text → Text → Option Bool
unfolding terms accepts
glob_match pattern name = elim (terms pattern) [ none ↦ none | some ts ↦ some (accepts ts name) ]

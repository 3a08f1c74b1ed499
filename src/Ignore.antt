-- ===== src/Ignore.antt =====
-- internal/helm/chart/secureloader/ignore/rules.go: the rules of a .helmignore file.
pub mod Glob
pub mod Decision
pub mod Steady
use flux_build.Base.{
  ℕ, Bool, true, false, not, ◌&&◌, ◌||◌, Option, none, some, List, [], ◌∷◌, ◌++◌, ◌==◌,
  if◌then◌else◌,
}
use flux_build.Base.Paths.{base}
use flux_build.Base.Text.{
  Text, codes, text_eq, is_empty, has_prefix, has_suffix, trim_prefix, trim_suffix, contains_text,
  trim,
}
use flux_build.Ignore.Glob.{glob_match}

-- The closure of a rule: it keeps the text that it matches with, and a rooted one changes it.
pub data Matcher : Type 0 where
  rooted structural by_name : Matcher

pub record Pattern : Type 0 where
  pub raw : Text
  pub rule : Text
  pub matcher : Matcher
  pub negate : Bool
  pub must_dir : Bool

pub data RuleError : Type 0 where
  double_star bad_pattern scan_error : RuleError

abbrev spaces : Text
spaces = 9 ∷ 10 ∷ 11 ∷ 12 ∷ 13 ∷ 32 ∷ []

unfoldable pub matcher_of : Text → Matcher
matcher_of rule =
    if has_prefix rule (codes "/")
    then rooted
    else if contains_text rule (codes "/")
    then structural
    else by_name

-- The pattern of a rule that is neither blank nor a comment
unfoldable pub pattern_of : Text → Pattern
unfolding matcher_of
pattern_of raw =
    let negate = has_prefix raw (codes "!") in
    let positive = trim_prefix raw (codes "!") in
    let must_dir = has_suffix positive (codes "/") in
    let rule = trim_suffix positive (codes "/") in
    record {
      raw = raw;
      rule = rule;
      matcher = matcher_of rule;
      negate = negate;
      must_dir = must_dir;
    }

unfoldable pub is_blank : Text → Bool
is_blank rule = is_empty rule || has_prefix rule (codes "#")

unfoldable pub rule_error : Text → Option RuleError
rule_error rule =
    if contains_text rule (codes "**")
    then some double_star
    else elim (glob_match rule (codes "abc")) [ none ↦ some bad_pattern | some _ ↦ none ]

-- `parseRule`: the patterns with that of the rule, and an error
unfoldable pub parse_rule : List Pattern → Text → List Pattern × Option RuleError
unfolding is_blank rule_error pattern_of
parse_rule patterns text =
    let rule = trim text spaces in
    if is_blank rule then (patterns, none) else elim (rule_error rule) [
      | some e ↦ (patterns, some e)
      | none ↦ (patterns ++ (pattern_of rule ∷ []), none)
    ]

unfoldable pub add_defaults : List Pattern → List Pattern
unfolding parse_rule
add_defaults patterns = (parse_rule patterns (codes "templates/.?*")).0

unfoldable pub parse_lines : List Pattern → List Text → Bool → List Pattern × Option RuleError
unfolding parse_rule
parse_lines patterns [] scanned = (patterns, if scanned then none else some scan_error)
parse_lines patterns (line ∷ lines) scanned =
    let (patterns', e) = parse_rule patterns line in
    elim e [ some failure ↦ (patterns', some failure) | none ↦ parse_lines patterns' lines scanned ]

-- `Parse`, for the lines that the scanner gives, and whether it ended without an error
unfoldable pub parse : List Text → Bool → List Pattern × Option RuleError
unfolding parse_lines
parse [] scanned = parse_lines [] [] scanned
parse (line ∷ lines) scanned =
    parse_lines [] (trim_prefix line (239 ∷ 187 ∷ 191 ∷ []) ∷ lines) scanned

-- The rule that a matcher uses, and keeps
unfoldable pub trimmed : Pattern → Pattern
trimmed p = elim p.matcher [
  | rooted ↦ record p { rule = trim_prefix p.rule (codes "/") }
  | structural ↦ p
  | by_name ↦ p
]

-- What a pattern is compared with: the path, or its last element for a rule without a slash
unfoldable pub subject : Matcher → Text → Text
subject by_name path = base path
subject rooted path = path
subject structural path = path

-- Whether a pattern matches; a bad pattern does not.
unfoldable pub matches : Pattern → Text → Bool
unfolding trimmed subject
matches p path = elim (glob_match (trimmed p).rule (subject p.matcher path)) [
  | none ↦ false
  | some answer ↦ answer
]

-- What a pattern says of a file: whether it is to be ignored, and whether the matcher was called
unfoldable pub says : Pattern → Text → Bool → Bool × Bool
unfolding matches
says p path is_dir =
    if p.must_dir && not is_dir
    then (p.negate, false)
    else ((if p.negate then not (matches p path) else matches p path), true)

-- The loop, with the patterns as the matchers leave them
unfoldable pub ignore_by : List Pattern → Text → Bool → Bool × List Pattern
unfolding says trimmed
ignore_by [] path is_dir = (false, [])
ignore_by (p ∷ ps) path is_dir =
    let (hit, called) = says p path is_dir in
    let (rest, ps') = ignore_by ps path is_dir in
    let p' = if called then trimmed p else p in if hit then (true, p' ∷ ps) else (rest, p' ∷ ps')

-- `Ignore`
unfoldable pub ignore : List Pattern → Text → Bool → Bool × List Pattern
unfolding ignore_by
ignore ps path is_dir =
    if is_empty path || path == codes "." || path == codes "./"
    then (false, ps)
    else ignore_by ps path is_dir

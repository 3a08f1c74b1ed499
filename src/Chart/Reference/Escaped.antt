-- ===== src/Chart/Reference/Escaped.antt =====
-- internal/helm/chart/builder.go, `WithEscapedName`: the escaped name can be read back.
use flux_build.Base.{
  ℕ, ◌+◌, ◌-◌, ◌*◌, ◌/◌, ◌%◌, ◌<◌, false, ◌&&◌, Option, none, some, [], ◌∷◌, ◌==◌, nat_eq,
  nat_beq_iff, ◌≡◌, ◌≢◌, refl, ap, inl, inr, arith, All, Bool-cases, if◌then◌else◌, leb, ltb,
}
use flux_build.Base.Text.{Text}
use flux_build.Chart.Reference.{
  RemoteReference, with_escaped_name, is_path_byte, upper_hex, path_escape,
}

hex_value : ℕ → Option ℕ
hex_value c =
    if leb b'0' c && leb c b'9'
    then some (c - b'0')
    else if leb b'A' c && leb c b'F'
    then some (10 + (c - b'A'))
    else none

-- The reader of an escaped text: outside of an escape, or behind the percent sign or its first digit
pub data Place : Type 0 where
  plain percent : Place
  digit : ℕ → Place

abbrev prefixed : ℕ → Option Text → Option Text
prefixed b none = none
prefixed b (some s) = some (b ∷ s)

read_escaped : Place → Text → Option Text
unfolding hex_value
read_escaped plain [] = some []
read_escaped place [] = none
read_escaped plain (b ∷ s) =
    let rest = read_escaped plain s in
    let escape = read_escaped percent s in if b == b'%' then escape else prefixed b rest
read_escaped percent (c ∷ s) = elim (hex_value c) [
  | none ↦ none
  | some d ↦ read_escaped (digit d) s
]
read_escaped (digit d) (c ∷ s) = elim (hex_value c) [
  | none ↦ none
  | some e ↦ prefixed (16 * d + e) (read_escaped plain s)
]

unfoldable pub unescape : Text → Option Text
unfolding read_escaped
unescape s = read_escaped plain s

hex_value-upper_hex : (d : ℕ) → d < 16 → hex_value (upper_hex d) ≡ some d
unfolding hex_value upper_hex
hex_value-upper_hex d h = elim (Bool-cases (ltb d 10)) [
  | inl small ↦ rw small (ground arith)
  | inr large ↦ rw large (ground arith)
]

unescape-path_escape : (s : Text) → All (λ b. b < 256) s → unescape (path_escape s) ≡ some s
unfolding unescape read_escaped path_escape
unescape-path_escape [] h = refl
unescape-path_escape (b ∷ s) (byte, bytes) = elim (Bool-cases (is_path_byte b)) [
  | inl kept ↦
      let other : (b == b'%') ≡ false = unfold is_path_byte in ground (arith, nat_beq_iff b 37) in
      rw kept (rw other (rw (unescape-path_escape s bytes) refl))
  | inr escaped ↦
      let high = hex_value-upper_hex (b / 16) (omega arith) in
      let low = hex_value-upper_hex (b % 16) (omega arith) in
      rw escaped (
        rw high (
          rw low (
            rw (unescape-path_escape s bytes) (
              let value : 16 * (b / 16) + b % 16 ≡ b = omega arith in
              ap (λ c. some (c ∷ s)) value))))
]

-- A byte that does not end a path segment of a URL, or its path
abbrev pub IsInSegment : ℕ → Type 0
IsInSegment b = (b ≢ b'/') × (b ≢ b'?') × (b ≢ b'#')

upper_hex-IsInSegment : (d : ℕ) → d < 16 → IsInSegment (upper_hex d)
unfolding upper_hex
upper_hex-IsInSegment d h = elim (Bool-cases (ltb d 10)) [
  | inl small ↦ rw small (λ e. ground arith, λ e. ground arith, λ e. ground arith)
  | inr large ↦ rw large (λ e. ground arith, λ e. ground arith, λ e. ground arith)
]

path_escape-IsInSegment : (s : Text) → All (λ b. b < 256) s → All IsInSegment (path_escape s)
unfolding path_escape
path_escape-IsInSegment [] h = tt
path_escape-IsInSegment (b ∷ s) (byte, bytes) =
    let rest = path_escape-IsInSegment s bytes in
    elim (Bool-cases (is_path_byte b)) [
      | inl kept ↦
          let here : IsInSegment b =
            unfold is_path_byte in
            (
              λ e. ground (arith, nat_beq_iff b b'/'),
              λ e. ground (arith, nat_beq_iff b b'?'),
              λ e. ground (arith, nat_beq_iff b b'#'),
            ) in
          rw kept (here, rest)
      | inr escaped ↦
          let high = upper_hex-IsInSegment (b / 16) (omega arith) in
          let low = upper_hex-IsInSegment (b % 16) (omega arith) in
          rw escaped ((λ e. omega arith, λ e. omega arith, λ e. omega arith), (high, (low, rest)))
    ]

-- If the name of a reference is made of bytes, the escaped name is one segment of a path: it has no
-- slash, question mark or number sign; and it can be read back, byte by byte.
pub unescape-with_escaped_name :
    (r : RemoteReference)
    → All (λ b. b < 256) r.name
    → All IsInSegment (with_escaped_name r).name
      × (unescape (with_escaped_name r).name ≡ some r.name)
      × ((with_escaped_name r).version ≡ r.version)
unfolding with_escaped_name
unescape-with_escaped_name r bytes =
    (path_escape-IsInSegment r.name bytes, unescape-path_escape r.name bytes, refl)

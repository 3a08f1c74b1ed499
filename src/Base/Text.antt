-- ===== src/Base/Text.antt =====
-- Go's strings as lists of bytes, and the functions of the package `strings` that the code calls,
-- with Go's argument order.
use Prim.Native.Char.{code}
use Prim.Native.Nat.{ℕ}
use Prim.Native.String.{String}
use mathlib.Core.Path.{◌≡◌, refl}
use mathlib.Core.Logic.{◌↔◌, ◌≢◌, inl, inr}
use mathlib.Core.Bool.{Bool, true, false, ◌&&◌}
use mathlib.Core.List.{List, [], ◌∷◌, ◌++◌, reverse}
use native.Mathlib.Omega.{arith}
use flux_build.Base.Tests.{Eq, ◌==◌, nat_eq, nat_beq_iff, if◌then◌else◌, Bool-cases}
use flux_build.Base.Lists.{any}

abbrev pub Text : Type 0
Text = List ℕ

-- The bytes of a literal (all literals of the code are ASCII).
abbrev pub codes : String → Text
codes String.[] = []
codes (String.◌∷◌ c s) = code c ∷ codes s

module _ {ℓ} {A : Type ℓ} ⦃e : Eq A⦄ where
  pub list_beq : List A → List A → Bool
  list_beq [] [] = true
  list_beq (x ∷ xs) (y ∷ ys) = x == y && list_beq xs ys
  list_beq _ _ = false

  pub list_beq_iff : (xs ys : List A) → (list_beq xs ys ≡ true) ↔ (xs ≡ ys)
  unfolding list_beq
  list_beq_iff [] [] = ground arith
  list_beq_iff (x ∷ xs) (y ∷ ys) = ground (arith, e.beq_iff x y, list_beq_iff xs ys)
  list_beq_iff _ _ = ground arith

-- Shut in proofs, which go by `text_iff`.
instance unfoldable pub text_eq : Eq Text
unfolding list_beq
text_eq = record { beq = list_beq; beq_iff = list_beq_iff }

pub text_iff : (s t : Text) → ((s == t) ≡ true) ↔ (s ≡ t)
text_iff = text_eq.beq_iff

abbrev pub is_empty {ℓ} : {A : Type ℓ} → List A → Bool
is_empty [] = true
is_empty (_ ∷ _) = false

-- `strings.HasPrefix(s, p)`
unfoldable pub has_prefix : Text → Text → Bool
has_prefix s [] = true
has_prefix [] (c ∷ p) = false
has_prefix (b ∷ s) (c ∷ p) = b == c && has_prefix s p

-- `s[len(p):]` for a prefix `p`; `strings.TrimPrefix(s, p)`
unfoldable pub drop_prefix : Text → Text → Text
drop_prefix s [] = s
drop_prefix [] (c ∷ p) = []
drop_prefix (b ∷ s) (c ∷ p) = drop_prefix s p

unfoldable pub trim_prefix : Text → Text → Text
unfolding has_prefix drop_prefix
trim_prefix s p = if has_prefix s p then drop_prefix s p else s

-- `strings.HasSuffix(s, p)`, `strings.TrimSuffix(s, p)`
unfoldable pub has_suffix : Text → Text → Bool
unfolding has_prefix
has_suffix s p = has_prefix (reverse s) (reverse p)

unfoldable pub trim_suffix : Text → Text → Text
unfolding trim_prefix
trim_suffix s p = reverse (trim_prefix (reverse s) (reverse p))

-- `strings.Contains(s, p)`
unfoldable pub contains_text : Text → Text → Bool
unfolding has_prefix
contains_text [] p = has_prefix [] p
contains_text (b ∷ s) p = if has_prefix (b ∷ s) p then true else contains_text s p

-- `strings.TrimLeft`, `strings.TrimRight` and `strings.Trim`, for a cutset of single bytes
unfoldable pub trim_left : Text → Text → Text
trim_left [] cut = []
trim_left (b ∷ s) cut = if any (λ c. b == c) cut then trim_left s cut else b ∷ s

unfoldable pub trim_right : Text → Text → Text
unfolding trim_left
trim_right s cut = reverse (trim_left (reverse s) cut)

unfoldable pub trim : Text → Text → Text
unfolding trim_right
trim s cut = trim_right (trim_left s cut) cut

-- `strings.Split(s, sep)` for a separator of one byte; the result has one piece at least.
cons_head : ℕ → List Text → List Text
cons_head b [] = (b ∷ []) ∷ []
cons_head b (p ∷ ps) = (b ∷ p) ∷ ps

unfoldable pub split : ℕ → Text → List Text
unfolding cons_head
split sep [] = [] ∷ []
split sep (b ∷ s) = let rest = split sep s in if b == sep then [] ∷ rest else cons_head b rest

-- `strings.Join(ps, sep)` for a separator of one byte
unfoldable pub join : ℕ → List Text → Text
join sep [] = []
join sep (p ∷ []) = p
join sep (p ∷ q ∷ ps) = p ++ (sep ∷ join sep (q ∷ ps))

join-cons_head :
    (sep b : ℕ) (ps : List Text) → ps ≢ [] → join sep (cons_head b ps) ≡ b ∷ join sep ps
unfolding join cons_head
join-cons_head sep b [] h = absurd (h refl)
join-cons_head sep b (p ∷ []) h = refl
join-cons_head sep b (p ∷ q ∷ ps) h = refl

split-ne-nil : (sep : ℕ) (s : Text) → split sep s ≢ []
unfolding split
split-ne-nil sep [] = λ h. cc
split-ne-nil sep (b ∷ s) = λ h. ground arith

join-nil-cons : (sep : ℕ) (ps : List Text) → ps ≢ [] → join sep ([] ∷ ps) ≡ sep ∷ join sep ps
unfolding join
join-nil-cons sep [] h = absurd (h refl)
join-nil-cons sep (q ∷ ps) h = refl

-- Joining the pieces gives the text back.
pub join-split : (sep : ℕ) (s : Text) → join sep (split sep s) ≡ s
unfolding split
join-split sep [] = unfold join in refl
join-split sep (b ∷ s) = elim (Bool-cases (b == sep)) [
  | inl same ↦
      rw (same, join-nil-cons sep (split sep s) (split-ne-nil sep s), join-split sep s)
        (ground (arith, nat_beq_iff b sep))
  | inr other ↦
      rw (other, join-cons_head sep b (split sep s) (split-ne-nil sep s), join-split sep s)
]

pub has_prefix-append : (p s : Text) → has_prefix (p ++ s) p ≡ true
unfolding has_prefix
has_prefix-append [] [] = refl
has_prefix-append [] (b ∷ s) = refl
has_prefix-append (c ∷ p) s = ground (arith, has_prefix-append p s)

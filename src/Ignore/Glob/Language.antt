-- ===== src/Ignore/Glob/Language.antt =====
-- The texts that a glob pattern describes, as a relation.
use flux_build.Base.{
  ℕ, Bool, true, List, [], ◌∷◌, nat_eq, nat_beq_iff, ◌≡◌, ◌≢◌, ◌↔◌, refl, inl, inr, arith,
  Bool-cases,
}
use flux_build.Base.Text.{Text}
use flux_build.Ignore.Glob.{Term, star, any_byte, literal, class, in_class, after_star, accepts}

pub data Language : List Term → Text → Type 0 where
  nothing : Language [] []
  one_more :
      {ts : List Term} {s : Text} (b : ℕ)
      → b ≢ b'/'
      → Language (star ∷ ts) s
      → Language (star ∷ ts) (b ∷ s)
  no_more : {ts : List Term} {s : Text} → Language ts s → Language (star ∷ ts) s
  one_byte :
      {ts : List Term} {s : Text} (b : ℕ)
      → b ≢ b'/'
      → Language ts s
      → Language (any_byte ∷ ts) (b ∷ s)
  this_byte :
      {ts : List Term} {s : Text} (b : ℕ) → Language ts s → Language (literal b ∷ ts) (b ∷ s)
  of_class :
      {ts : List Term} {s : Text} (negated : Bool) (ranges : List (ℕ × ℕ)) (b : ℕ)
      → in_class negated ranges b ≡ true
      → Language ts s
      → Language (class negated ranges ∷ ts) (b ∷ s)

after_star-now : (rest : Text → Bool) (s : Text) → rest s ≡ true → after_star rest s ≡ true
unfolding after_star
after_star-now rest [] h = h
after_star-now rest (b ∷ s) h = ground arith

accepted : {ts : List Term} {s : Text} → Language ts s → accepts ts s ≡ true
unfolding accepts after_star
accepted nothing = refl
accepted (one_more b other more) = ground (arith, nat_beq_iff b b'/', accepted more)
accepted (no_more {ts} {s} rest) = after_star-now (accepts ts) s (accepted rest)
accepted (one_byte b other rest) = ground (arith, nat_beq_iff b b'/', accepted rest)
accepted (this_byte b rest) = ground (arith, nat_beq_iff b b, accepted rest)
accepted (of_class negated ranges b inside rest) = ground (arith, accepted rest)

star-Language :
    (ts : List Term) (s : Text)
    → ((t : Text) → accepts ts t ≡ true → Language ts t)
    → after_star (accepts ts) s ≡ true
    → Language (star ∷ ts) s
unfolding after_star
star-Language ts [] rest h = Language.no_more (rest [] h)
star-Language ts (b ∷ s) rest h = elim (Bool-cases (accepts ts (b ∷ s))) [
  | inl now ↦ Language.no_more (rest (b ∷ s) now)
  | inr later ↦
      Language.one_more b (ground (arith, nat_beq_iff b b'/'))
        (star-Language ts s rest (ground arith))
]

accepts-Language : (ts : List Term) (s : Text) → accepts ts s ≡ true → Language ts s
unfolding accepts
accepts-Language [] [] h = Language.nothing
accepts-Language [] (b ∷ s) h = cc
accepts-Language (star ∷ ts) s h = star-Language ts s (accepts-Language ts) h
accepts-Language (any_byte ∷ ts) [] h = cc
accepts-Language (any_byte ∷ ts) (b ∷ s) h =
    Language.one_byte b (ground (arith, nat_beq_iff b b'/')) (accepts-Language ts s (ground arith))
accepts-Language (literal c ∷ ts) [] h = cc
accepts-Language (literal c ∷ ts) (b ∷ s) h =
    let same : b ≡ c = ground (arith, nat_beq_iff c b) in
    rw same (Language.this_byte c (accepts-Language ts s (ground arith)))
accepts-Language (class negated ranges ∷ ts) [] h = cc
accepts-Language (class negated ranges ∷ ts) (b ∷ s) h =
    Language.of_class negated ranges b (ground arith) (accepts-Language ts s (ground arith))

-- The matcher accepts exactly the texts of the pattern's language.
pub accepts_iff : (ts : List Term) (s : Text) → (accepts ts s ≡ true) ↔ Language ts s
accepts_iff ts s = (accepts-Language ts s, accepted)

-- ===== src/Base/Lists.antt =====
-- Lists measured by native numbers, and Boolean searches over them.
use Prim.Native.Nat.{ℕ, suc, ◌+◌}
use mathlib.Core.Path.{◌≡◌, refl}
use mathlib.Core.Logic.{◌⊎◌, inl, inr}
use mathlib.Core.Bool.{Bool, true, false, ◌||◌}
use mathlib.Core.Option.{Option, none, some}
use mathlib.Core.List.{List, [], ◌∷◌, ◌++◌, Memᴰ}
use native.Mathlib.Omega.{arith}
use flux_build.Base.Tests.{if◌then◌else◌, Bool-cases}

module _ {ℓ} {A : Type ℓ} where
  abbrev pub length : List A → ℕ
  length [] = 0
  length (x ∷ xs) = suc (length xs)

  abbrev pub any : (A → Bool) → List A → Bool
  any p [] = false
  any p (x ∷ xs) = p x || any p xs

  abbrev pub find : (A → Bool) → List A → Option A
  find p [] = none
  find p (x ∷ xs) = if p x then some x else find p xs

  abbrev pub All {κ} : (A → Type κ) → List A → Type κ
  All P [] = Unit
  All P (x ∷ xs) = P x × All P xs

  pub length-append : (xs ys : List A) → length (xs ++ ys) ≡ length xs + length ys
  length-append [] ys = omega arith
  length-append (x ∷ xs) ys = omega (arith, length-append xs ys)

module _ {ℓ} {A : Type ℓ} where
  pub List-cases : (xs : List A) → (xs ≡ []) ⊎ ((x : A) × (ys : List A) × (xs ≡ x ∷ ys))
  List-cases [] = inl refl
  List-cases (x ∷ ys) = inr (x, ys, refl)

  pub Memᴰ-nil : {x : A} → Memᴰ x [] → ⊥
  Memᴰ-nil m = elim m [ ]

  pub Memᴰ-cases : {x y : A} {ys : List A} → Memᴰ x (y ∷ ys) → (x ≡ y) ⊎ Memᴰ x ys
  Memᴰ-cases (Memᴰ.head e) = inl e
  Memᴰ-cases (Memᴰ.tail m) = inr m

  pub All-Memᴰ {κ} : (P : A → Type κ) {x : A} (xs : List A) → All P xs → Memᴰ x xs → P x
  All-Memᴰ P [] _ m = elim m [ ]
  All-Memᴰ P (y ∷ ys) (p, ps) (Memᴰ.head e) = rw e p
  All-Memᴰ P (y ∷ ys) (p, ps) (Memᴰ.tail m) = All-Memᴰ P ys ps m

  pub find-some :
      (p : A → Bool) (xs : List A) (x : A) → find p xs ≡ some x → Memᴰ x xs × (p x ≡ true)
  find-some p [] x h = cc
  find-some p (y ∷ ys) x h = elim (Bool-cases (p y)) [
    | inl t ↦ let e : x ≡ y = ground arith in (Memᴰ.head e, rw e t)
    | inr f ↦ let (m, t) = find-some p ys x (ground arith) in (Memᴰ.tail m, t)
  ]

  pub find-none :
      (p : A → Bool) (xs : List A) → find p xs ≡ none → (x : A) → Memᴰ x xs → p x ≡ false
  find-none p (y ∷ ys) h x (Memᴰ.head e) = rw e (ground arith)
  find-none p (y ∷ ys) h x (Memᴰ.tail m) = find-none p ys (ground arith) x m
  find-none p [] h x m = elim m [ ]

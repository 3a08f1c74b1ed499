-- ===== src/Repository/Sorting.antt =====
-- What internal/helm/repository needs of the package `sort`: `SliceStable` and `Sort`, as an
-- interface, and the insertion sort by which Go sorts up to twenty elements, as an implementation.
use mathlib.Core.List.{Memᴰ}
use flux_build.Base.{
  ◌≡◌, refl, ◌⊎◌, inl, inr, Bool, true, List, [], ◌∷◌, arith, All, if◌then◌else◌, Bool-cases,
}

pub record IsOrder {ℓ} {A : Type ℓ} (le : A → A → Bool) : Type ℓ where
  pub total : (a b : A) → (le a b ≡ true) ⊎ (le b a ≡ true)
  pub trans : (a b c : A) → le a b ≡ true → le b c ≡ true → le a c ≡ true

-- `sort le xs` puts the least elements of `le` first. Only the first element of the result is used.
pub record Sorter {ℓ} (A : Type ℓ) : Type ℓ where
  pub sort : (A → A → Bool) → List A → List A
  pub sort-nil : (le : A → A → Bool) → sort le [] ≡ []
  pub sort-first :
      (le : A → A → Bool)
      → IsOrder le
      → (x : A) (xs : List A)
      → (y : A) × (ys : List A) × (sort le (x ∷ xs) ≡ y ∷ ys)
        × Memᴰ y (x ∷ xs)
        × All (λ z. le y z ≡ true) (x ∷ xs)

insert_second {ℓ} : {A : Type ℓ} (z y x : A) (xs : List A) → Memᴰ z (y ∷ xs) → Memᴰ z (y ∷ x ∷ xs)
insert_second z y x xs (Memᴰ.head e) = Memᴰ.head e
insert_second z y x xs (Memᴰ.tail m) = Memᴰ.tail (Memᴰ.tail m)

module _ {ℓ} {A : Type ℓ} (le : A → A → Bool) where
  -- One round of the insertion sort, on the sorted part: `x` goes before the first element that it
  -- may stand before.
  place : A → List A → List A
  place x [] = x ∷ []
  place x (y ∷ ys) = if le x y then x ∷ y ∷ ys else y ∷ place x ys

  pub sort_from : List A → List A → List A
  unfolding place
  sort_from done [] = done
  sort_from done (x ∷ xs) = sort_from (place x done) xs

  module _ (order : IsOrder le) where
    le_refl : (x : A) → le x x ≡ true
    le_refl x = elim (order.total x x) [ inl h ↦ h | inr h ↦ h ]

    pub sort_from-first :
        (y : A) (ys xs : List A)
        → (z : A) × (zs : List A) × (sort_from (y ∷ ys) xs ≡ z ∷ zs)
          × (le z y ≡ true)
          × All (λ x. le z x ≡ true) xs
          × Memᴰ z (y ∷ xs)
    unfolding sort_from
    sort_from-first y ys [] = (y, ys, refl, le_refl y, tt, Memᴰ.head refl)
    sort_from-first y ys (x ∷ xs) = elim (Bool-cases (le x y)) [
      | inl before ↦
          let (z, zs, e, z_x, all, m) = sort_from-first x (y ∷ ys) xs in
          (z, zs, rw before e, order.trans z x y z_x before, (z_x, all), Memᴰ.tail m)
      | inr behind ↦
          let (z, zs, e, z_y, all, m) = sort_from-first y (place x ys) xs in
          let y_x : le y x ≡ true = ground (arith, order.total x y) in
          (z, zs, rw behind e, z_y, (order.trans z y x z_y y_x, all), insert_second z y x xs m)
    ]

unfoldable pub insertion_sort {ℓ} : {A : Type ℓ} → Sorter A
unfolding sort_from
insertion_sort = record {
  sort = λ le xs. sort_from le [] xs;
  sort-nil = λ le. refl;
  sort-first = λ le order x xs.
      let (z, zs, e, z_x, all, m) = sort_from-first le order x [] xs in (z, zs, e, m, (z_x, all));
}

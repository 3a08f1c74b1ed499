-- ===== src/Repository/Index.antt =====
-- `IndexFromBytes` of internal/helm/repository/chart_repository.go: what is kept of an index file.
use flux_build.Base.{
  ℕ, suc, zero, ◌≡◌, refl, Option, none, some, List, [], ◌∷◌, ◌++◌, arith, ap, sym, ◌∙◌, inl, inr,
  Option-cases, length, length-append, if◌then◌else◌,
}
use mathlib.Core.List.{reverse, reverse-reverse, reverse-append, append_assoc, append-nil}
use flux_build.Base.Dict.{Dict}
use flux_build.Base.Results.{Result, ok, err}
use flux_build.Base.Text.{Text, codes, is_empty}
use flux_build.Repository.Versions.{ChartVersion}

pub data IndexError : Type 0 where
  empty_index not_yaml no_api_version : IndexError

-- An entry of the YAML: it or its metadata may be missing.
pub data Entry : Type 0 where
  nil : Entry
  no_metadata : Entry
  entry : ChartVersion → Entry

pub record IndexFile : Type 0 where
  pub api_version : Text
  pub entries : Dict Text (List Entry)

abbrev get_elem? {ℓ} : {A : Type ℓ} → List A → ℕ → Option A
get_elem? [] i = none
get_elem? (x ∷ xs) zero = some x
get_elem? (x ∷ xs) (suc i) = get_elem? xs i

abbrev set {ℓ} : {A : Type ℓ} → List A → ℕ → A → List A
set [] i v = []
set (x ∷ xs) zero v = v ∷ xs
set (x ∷ xs) (suc i) v = x ∷ set xs i v

-- `append(cvs[:idx], cvs[idx+1:]...)`
abbrev remove_at {ℓ} : {A : Type ℓ} → List A → ℕ → List A
remove_at [] i = []
remove_at (x ∷ xs) zero = xs
remove_at (x ∷ xs) (suc i) = x ∷ remove_at xs i

get_elem?-middle {ℓ} :
    {A : Type ℓ} (xs : List A) (r : A) (zs : List A) → get_elem? (xs ++ r ∷ zs) (length xs) ≡ some r
get_elem?-middle [] r zs = refl
get_elem?-middle (x ∷ xs) r zs = get_elem?-middle xs r zs

set-middle {ℓ} :
    {A : Type ℓ} (xs : List A) (r v : A) (zs : List A)
    → set (xs ++ r ∷ zs) (length xs) v ≡ xs ++ v ∷ zs
set-middle [] r v zs = refl
set-middle (x ∷ xs) r v zs = ap (◌∷◌ x) (set-middle xs r v zs)

remove_at-middle {ℓ} :
    {A : Type ℓ} (xs : List A) (r : A) (zs : List A)
    → remove_at (xs ++ r ∷ zs) (length xs) ≡ xs ++ zs
remove_at-middle [] r zs = refl
remove_at-middle (x ∷ xs) r zs = ap (◌∷◌ x) (remove_at-middle xs r zs)

length-reverse {ℓ} : {A : Type ℓ} (xs : List A) → length (reverse xs) ≡ length xs
length-reverse [] = refl
length-reverse (x ∷ xs) =
    rw (reverse-append (x ∷ []) xs, length-append (reverse xs) (x ∷ []))
      (omega (arith, length-reverse xs))

-- `validate` is `ChartVersion.Validate` of Helm, which may also clean the entry.
module _ (validate : ChartVersion → Option ChartVersion) where
  -- The defaults for an empty name and an empty API version
  with_defaults : Text → ChartVersion → ChartVersion
  with_defaults key cv = record cv {
    name = if is_empty cv.name then key else cv.name;
    api_version = if is_empty cv.api_version then codes "v1" else cv.api_version;
  }

  -- The body of the loop, at one index
  visit : Text → List Entry → ℕ → Option Entry → List Entry
  unfolding with_defaults
  visit key cvs i none = cvs
  visit key cvs i (some nil) = remove_at cvs i
  visit key cvs i (some no_metadata) = remove_at cvs i
  visit key cvs i (some (entry cv)) = elim (validate (with_defaults key cv)) [
    | none ↦ remove_at cvs i
    | some valid ↦ set cvs i (entry valid)
  ]

  -- `for idx := len(cvs) - 1; idx >= 0; idx--`, with `n` indices left
  unfoldable pub prune : Text → ℕ → List Entry → List Entry
  unfolding visit
  prune key zero cvs = cvs
  prune key (suc n) cvs = prune key n (visit key cvs n (get_elem? cvs n))

  pub prune_entries : Dict Text (List Entry) → Dict Text (List Entry)
  unfolding prune
  prune_entries [] = []
  prune_entries ((key, cvs) ∷ more) = (key, prune key (length cvs) cvs) ∷ prune_entries more

  -- `IndexFromBytes`; `unmarshal` and `sort_entries` are Helm's YAML parser and `SortEntries`.
  unfoldable pub index_from_bytes :
      (unmarshal : Text → Option IndexFile) (sort_entries : IndexFile → IndexFile)
      → Text
      → Result IndexError IndexFile
  unfolding prune_entries
  index_from_bytes unmarshal sort_entries [] = err empty_index
  index_from_bytes unmarshal sort_entries (b ∷ s) = elim (unmarshal (b ∷ s)) [
    | none ↦ err not_yaml
    | some i ↦
        if is_empty i.api_version
        then err no_api_version
        else ok (sort_entries (record i { entries = prune_entries i.entries }))
  ]

  -- What should be kept, in order: the entries with metadata, with the defaults put in, that are
  -- valid.
  pub kept : Text → List Entry → List Entry
  kept key [] = []
  kept key (nil ∷ cvs) = kept key cvs
  kept key (no_metadata ∷ cvs) = kept key cvs
  kept key (entry cv ∷ cvs) =
      let rest = kept key cvs in
      elim (validate (with_defaults key cv)) [ none ↦ rest | some valid ↦ entry valid ∷ rest ]

  kept-append : (key : Text) (xs ys : List Entry) → kept key (xs ++ ys) ≡ kept key xs ++ kept key ys
  unfolding kept
  kept-append key [] ys = refl
  kept-append key (nil ∷ xs) ys = kept-append key xs ys
  kept-append key (no_metadata ∷ xs) ys = kept-append key xs ys
  kept-append key (entry cv ∷ xs) ys = ground (arith, kept-append key xs ys)

  visit_lem :
      (key : Text) (xs : List Entry) (r : Entry) (zs : List Entry)
      → visit key (xs ++ r ∷ zs) (length xs) (some r) ≡ xs ++ (kept key (r ∷ []) ++ zs)
  unfolding visit kept
  visit_lem key xs nil zs = remove_at-middle xs nil zs
  visit_lem key xs no_metadata zs = remove_at-middle xs no_metadata zs
  visit_lem key xs (entry cv) zs = elim (Option-cases (validate (with_defaults key cv))) [
    | inl bad ↦ ground (arith, remove_at-middle xs (entry cv) zs)
    | inr (v, good) ↦ ground (arith, set-middle xs (entry cv) (entry v) zs)
  ]

  visit_at :
      (key : Text) (xs : List Entry) (r : Entry) (zs : List Entry) (n : ℕ)
      → length xs ≡ n
      → visit key (xs ++ r ∷ zs) n (get_elem? (xs ++ r ∷ zs) n) ≡ xs ++ (kept key (r ∷ []) ++ zs)
  visit_at key xs r zs n h = rw (← h) (rw (get_elem?-middle xs r zs) (visit_lem key xs r zs))

  prune-reverse :
      (key : Text) (rs zs : List Entry)
      → prune key (length rs) (reverse rs ++ zs) ≡ kept key (reverse rs) ++ zs
  unfolding prune
  prune-reverse key [] zs = unfold kept in refl
  prune-reverse key (r ∷ rs) zs =
      rw (reverse-append (r ∷ []) rs, append_assoc (reverse rs) (r ∷ []) zs)
        (ap (prune key (length rs)) (visit_at key (reverse rs) r zs (length rs) (length-reverse rs))
          ∙ (prune-reverse key rs (kept key (r ∷ []) ++ zs)
              ∙ (sym (append_assoc (kept key (reverse rs)) (kept key (r ∷ [])) zs)
                  ∙ ap (λ l. l ++ zs) (sym (kept-append key (reverse rs) (r ∷ []))))))

  -- The loop, which runs downwards and deletes in place, keeps what should be kept, in order.
  pub prune-kept : (key : Text) (cvs : List Entry) → prune key (length cvs) cvs ≡ kept key cvs
  prune-kept key cvs =
      rw (length-reverse cvs, reverse-reverse cvs, append-nil cvs, append-nil (kept key cvs)) at
        (prune-reverse key (reverse cvs) [])

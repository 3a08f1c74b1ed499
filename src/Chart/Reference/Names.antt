-- ===== src/Chart/Reference/Names.antt =====
-- The names that the pattern `^([-a-z0-9]+/?)+$` of internal/helm/chart/builder.go accepts.
use flux_build.Base.{
  ℕ, Bool, true, false, [], ◌∷◌, ◌++◌, nat_eq, ◌≡◌, ◌↔◌, arith, refl, Bool-cases, inl, inr,
}
use flux_build.Base.Text.{Text, is_empty}
use flux_build.Chart.Reference.{is_name_byte, matches_from, matches_name}

-- `[-a-z0-9]+`
pub data Word : Text → Type 0 where
  one : (b : ℕ) → is_name_byte b ≡ true → Word (b ∷ [])
  more : (b : ℕ) {w : Text} → is_name_byte b ≡ true → Word w → Word (b ∷ w)

-- `([-a-z0-9]+/?)+`
pub data Name : Text → Type 0 where
  last : {w : Text} → Word w → Name w
  last_slash : {w s : Text} → Word w → s ≡ w ++ (b'/' ∷ []) → Name s
  group : {w n s : Text} → Word w → Name n → s ≡ w ++ n → Name s
  group_slash : {w n s : Text} → Word w → Name n → s ≡ w ++ (b'/' ∷ n) → Name s

Name-of_match :
    (b : ℕ) (s : Text) → is_name_byte b ≡ true → matches_from true s ≡ true → Name (b ∷ s)
unfolding matches_from
Name-of_match b [] h m = last (one b h)
Name-of_match b (c ∷ []) h m = elim (Bool-cases (is_name_byte c)) [
  | inl word ↦ group (one b h) (last (one c word)) refl
  | inr other ↦ last_slash (one b h) (ground arith)
]
Name-of_match b (c ∷ d ∷ s) h m = elim (Bool-cases (is_name_byte c)) [
  | inl word ↦ group (one b h) (Name-of_match c (d ∷ s) word (ground arith)) refl
  | inr other ↦
      group_slash (one b h) (Name-of_match d s (ground arith) (ground arith)) (ground arith)
]

match-Word : {w : Text} (m : Bool) → Word w → matches_from m w ≡ true
unfolding matches_from
match-Word m (one b h) = ground arith
match-Word m (more b h w) = rw h (match-Word true w)

match-Word-append :
    {w : Text} (m : Bool) (r : Text) → Word w → matches_from m (w ++ r) ≡ matches_from true r
unfolding matches_from
match-Word-append m r (one b h) = rw h
match-Word-append m r (more b h w) = rw h (match-Word-append true r w)

match-Name : {s : Text} (m : Bool) → Name s → matches_from m s ≡ true
unfolding matches_from is_name_byte
match-Name m (last w) = match-Word m w
match-Name m (last_slash w e) = rw (e, match-Word-append m (b'/' ∷ []) w)
match-Name m (group {n = n} w r e) = rw (e, match-Word-append m n w) (match-Name true r)
match-Name m (group_slash {n = n} w r e) =
    rw (e, match-Word-append m (b'/' ∷ n) w) (match-Name false r)

Name-not-empty : {s : Text} → Name s → is_empty s ≡ false
Name-not-empty (last (one b h)) = refl
Name-not-empty (last (more b h w)) = refl
Name-not-empty (last_slash (one b h) e) = rw e
Name-not-empty (last_slash (more b h w) e) = rw e
Name-not-empty (group (one b h) r e) = rw e
Name-not-empty (group (more b h w) r e) = rw e
Name-not-empty (group_slash (one b h) r e) = rw e
Name-not-empty (group_slash (more b h w) r e) = rw e

accepted_Name : (s : Text) → matches_name s ≡ true → Name s
unfolding matches_name
accepted_Name [] h = cc
accepted_Name (b ∷ s) h = Name-of_match b s (ground arith) (ground arith)

-- A chart name passes the test of `RemoteReference.Validate` exactly when it is one or more groups,
-- each of lower-case letters, digits and dashes, with at most one slash behind each group.
pub matches_name_iff : (s : Text) → (matches_name s ≡ true) ↔ Name s
unfolding matches_name
matches_name_iff s = (accepted_Name s, λ n. rw (Name-not-empty n, match-Name false n))

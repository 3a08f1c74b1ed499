-- ===== src/Base/Paths.antt =====
-- Go's `path` and `path/filepath` on Unix, on slash-separated bytes.
use flux_build.Base.Tests.{◌==◌, nat_eq, if◌then◌else◌}
use flux_build.Base.Text.{Text, text_eq, codes, is_empty, split, join}
use mathlib.Core.Path.{◌≡◌, refl}
use mathlib.Core.Bool.{Bool, true, false, ◌||◌}
use mathlib.Core.List.{List, [], ◌∷◌, ◌++◌, reverse}

-- `filepath.IsAbs`
unfoldable pub is_abs : Text → Bool
is_abs [] = false
is_abs (b ∷ s) = b == b'/'

-- The element `..`: it takes the one before it away, unless that is another `..`; at the root it is
-- dropped.
unfoldable pub back : Bool → List Text → List Text
back true [] = []
back false [] = codes ".." ∷ []
back r (q ∷ qs) = if q == codes ".." then codes ".." ∷ q ∷ qs else qs

-- One element of the path, on the stack of the elements before it.
unfoldable pub push : Bool → List Text → Text → List Text
unfolding back
push rooted stack p =
    if is_empty p || p == codes "."
    then stack
    else if p == codes ".."
    then back rooted stack
    else p ∷ stack

unfoldable pub push_all : Bool → List Text → List Text → List Text
unfolding push
push_all rooted stack [] = stack
push_all rooted stack (p ∷ ps) = push_all rooted (push rooted stack p) ps

unfoldable pub render : Bool → List Text → Text
render true stack = b'/' ∷ join b'/' (reverse stack)
render false [] = codes "."
render false (p ∷ ps) = join b'/' (reverse (p ∷ ps))

-- `filepath.Clean`
unfoldable pub clean : Text → Text
unfolding push_all render is_abs split join text_eq
clean s = render (is_abs s) (push_all (is_abs s) [] (split b'/' s))

-- `filepath.Join` of two elements
unfoldable pub join_path : Text → Text → Text
unfolding clean
join_path [] [] = []
join_path [] (c ∷ t) = clean (c ∷ t)
join_path (b ∷ s) [] = clean (b ∷ s)
join_path (b ∷ s) (c ∷ t) = clean ((b ∷ s) ++ (b'/' ∷ c ∷ t))

-- `filepath.Base`: the last element, without trailing slashes; `.` for an empty path, and `/` for
-- one of slashes only.
last_element : Text → List Text → Text
last_element found [] = found
last_element found (p ∷ ps) = last_element (if is_empty p then found else p) ps

unfoldable pub base : Text → Text
unfolding last_element split
base [] = codes "."
base (b ∷ s) =
    let found = last_element [] (split b'/' (b ∷ s)) in if is_empty found then codes "/" else found

clean_examples :
    (clean (codes "/a/../../b//./c/") ≡ codes "/b/c")
    × (clean (codes "../x/../..") ≡ codes "../..")
    × (clean (codes "a/..") ≡ codes ".")
    × (base (codes "a/b.txt") ≡ codes "b.txt")
unfolding clean base
clean_examples = (refl, refl, refl, refl)

-- ===== src/Repository/Urls.antt =====
-- internal/helm/repository/utils.go: the URLs of repositories.
use flux_build.Base.{◌||◌, none, some, [], ◌∷◌, ◌++◌, ◌==◌, if◌then◌else◌}
use flux_build.Base.Results.{Result, ok, err}
use flux_build.Base.Text.{Text, codes, text_eq, has_prefix, trim_right}
use flux_build.Auth.Types.{Url, UrlLibrary}

pub data UrlError : Type 0 where
  unparsable : Text → UrlError
  aliased_dep : Text → UrlError
  invalid_dep : Text → UrlError

-- The path that `NormalizeURL` gives a URL.
unfoldable pub normalize_path : Url → Url
normalize_path u =
    if u.scheme == codes "oci"
    then record u { path = trim_right u.path (codes "/") }
    else record u { path = trim_right u.path (codes "/") ++ codes "/" }

-- `NormalizeURL`
unfoldable pub normalize_url : UrlLibrary → Text → Result UrlError Text
unfolding normalize_path
normalize_url urls [] = ok []
normalize_url urls (b ∷ s) = elim (urls.parse (b ∷ s)) [
  | none ↦ err (unparsable (b ∷ s))
  | some u ↦ ok (urls.show (normalize_path u))
]

-- `ValidateDepURL`
unfoldable pub validate_dep_url : Text → Result UrlError (Unit {0})
validate_dep_url url =
    if has_prefix url (codes "oci")
    then ok tt
    else if has_prefix url (codes "https://") || has_prefix url (codes "http://")
    then ok tt
    else if has_prefix url (codes "@")
    then err (aliased_dep url)
    else err (invalid_dep url)

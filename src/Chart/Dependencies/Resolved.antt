-- ===== src/Chart/Dependencies/Resolved.antt =====
-- internal/helm/chart/dependency_manager.go, `resolveRepository`: asking twice.
use flux_build.Base.{Option, none, ◌≡◌, sym, arith, Option-cases, inl, inr}
use flux_build.Base.Dict.{lookup, lookup-insert}
use flux_build.Base.Results.{ok, err, Result-cases}
use flux_build.Base.Text.{Text, text_eq, text_iff}
use flux_build.Auth.Types.{UrlLibrary}
use flux_build.Chart.Dependencies.{
  callback_failed, Session, dependency_url, downloader_of, call_back, put, resolve_repository,
}
use flux_build.Chart.Remote.{Downloader}

module _ {W : Type 0} (urls : UrlLibrary) where
  found-again :
      (n : Text) (s : Session W) (d : Option (Downloader W))
      → (downloader_of n s).0 ≡ ok d
      → downloader_of n (downloader_of n s).1 ≡ (ok d, (downloader_of n s).1)
  unfolding downloader_of call_back put
  found-again n s d h = elim (Option-cases (lookup n s.manager.downloaders)) [
    | inr (old, known) ↦ ground arith
    | inl unknown ↦ elim (Option-cases s.manager.get_chart_downloader) [
      | inl no_callback ↦ ground arith
      | inr (f, callback) ↦ elim (Option-cases (f n s.world).0) [
        | inl failed ↦ ground arith
        | inr (repo, made) ↦
            ground (arith, text_iff n n, lookup-insert n n (f n s.world).0 s.manager.downloaders)
      ]
    ]
  ]

  found-nil :
      (n : Text) (s : Session W) (url : Text)
      → (downloader_of n s).0 ≡ err (callback_failed url)
      → (downloader_of n (downloader_of n s).1).0 ≡ ok none
  unfolding downloader_of call_back put
  found-nil n s url h = elim (Option-cases (lookup n s.manager.downloaders)) [
    | inr (old, known) ↦ ground arith
    | inl unknown ↦ elim (Option-cases s.manager.get_chart_downloader) [
      | inl no_callback ↦ ground arith
      | inr (f, callback) ↦ elim (Option-cases (f n s.world).0) [
        | inl failed ↦
            ground (arith, text_iff n n, lookup-insert n n (f n s.world).0 s.manager.downloaders)
        | inr (repo, made) ↦ ground arith
      ]
    ]
  ]

  -- Once a URL was resolved, every URL with the same normal form is resolved to the same downloader,
  -- and nothing changes: the callback is not called again.
  resolve_repository-again :
      (a b : Text) (s : Session W) (d : Option (Downloader W))
      → dependency_url urls a ≡ dependency_url urls b
      → (resolve_repository urls a s).0 ≡ ok d
      → resolve_repository urls b (resolve_repository urls a s).1
        ≡ (ok d, (resolve_repository urls a s).1)
  unfolding resolve_repository
  resolve_repository-again a b s d same resolved = elim (Result-cases (dependency_url urls a)) [
    | inr (e, bad) ↦ ground arith
    | inl (n, e) ↦ rw (sym same, e) (found-again n s d (ground arith))
  ]

  -- After the callback has failed for a URL, resolving it again succeeds, with a nil downloader.
  pub resolve_repository-after_failure :
      (a b url : Text) (s : Session W)
      → dependency_url urls a ≡ dependency_url urls b
      → (resolve_repository urls a s).0 ≡ err (callback_failed url)
      → (resolve_repository urls b (resolve_repository urls a s).1).0 ≡ ok none
  unfolding resolve_repository
  resolve_repository-after_failure a b url s same failed =
      elim (Result-cases (dependency_url urls a)) [
        | inr (e, bad) ↦ ground arith
        | inl (n, e) ↦ rw (sym same, e) (found-nil n s url (ground arith))
      ]

-- ===== src/Fs/Ends.antt =====
-- internal/fs/fs.go, `CopyDir`: the number of levels that the model is given is enough.
use flux_build.Base.{
  ℕ, zero, suc, ◌<◌, Bool, true, false, some, List, [], ◌∷◌, ◌≡◌, ◌≢◌, refl, inl, inr, arith,
  Bool-cases, Option-cases,
}
use flux_build.Base.Exec.{Exec, ◌>>=◌}
use flux_build.Base.Paths.{clean, join_path}
use flux_build.Base.Results.{Result, ok, err, Result-cases}
use flux_build.Base.Text.{Text}
use flux_build.Fs.{
  FsError, too_deep, create_failed, close_failed, chmod_failed, symlink_failed, mkdir_failed, Probe,
  absent, probe_failed, directory, file, symlink, Os, call, symlink_check, is_symlink, clone_to,
  clone_symlink, stat_check, check_stat, copy_data, copy_open, then_close, copy_contents, copy_by,
  copy_file, source_check, check_source, target_check, check_target, entries_of, copy_entries,
  copy_dir,
}
use mathlib.Core.List.{Memᴰ}

module _ (os : Os) where
  -- An action that does not run out of levels
  abbrev Ends : {A : Type 0} → Exec os.World FsError A → Type 0
  Ends m = (w : os.World) → (m w).0 ≢ err too_deep

  Ends-bind :
      {A B : Type 0} (m : Exec os.World FsError A) (f : A → Exec os.World FsError B)
      → Ends m
      → ((a : A) (w : os.World) → (m w).0 ≡ ok a → (f a (m w).1).0 ≢ err too_deep)
      → Ends (m >>= f)
  Ends-bind m f first later w = elim (Result-cases (m w).0) [
    | inl (a, worked) ↦ rw worked (later a w worked)
    | inr (e, failed) ↦ rw failed (λ same. first w (ground arith))
  ]

  call-Ends : (f : os.World → Bool × os.World) (e : FsError) → e ≢ too_deep → Ends (call os f e)
  unfolding call
  call-Ends f e other w same = elim (Bool-cases (f w).0) [
    | inl good ↦ ground arith
    | inr bad ↦ other (ground arith)
  ]

  stat-Ends : (p : Probe) → stat_check p ≢ err too_deep
  unfolding stat_check
  stat-Ends absent = λ same. ground arith
  stat-Ends probe_failed = λ same. ground arith
  stat-Ends directory = λ same. ground arith
  stat-Ends file = λ same. ground arith
  stat-Ends symlink = λ same. ground arith

  copy_data-Ends : (src dst : Text) → Ends (copy_data os src dst)
  unfolding copy_data call
  copy_data-Ends src dst w same = elim (Bool-cases (os.copy src dst w).0) [
    | inl good ↦ elim (Bool-cases (os.close_target dst (os.copy src dst w).1).0) [
      | inl closed ↦ ground arith
      | inr broken ↦ ground arith
    ]
    | inr bad ↦ ground arith
  ]

  copy_open-Ends : (src dst : Text) → Ends (copy_open os src dst)
  unfolding copy_open check_stat
  copy_open-Ends src dst =
      Ends-bind (call os (os.create dst) create_failed) _
        (call-Ends (os.create dst) create_failed (λ same. ground arith))
        (λ u w is.
          Ends-bind (copy_data os src dst) _ (copy_data-Ends src dst)
            (λ u w is.
              Ends-bind (check_stat os src) _ (λ w. stat-Ends (os.stat w src))
                (λ u w is. call-Ends (os.chmod dst) chmod_failed (λ same. ground arith) _) _)
            _)

  then_close-Ends :
      (src : Text) (r : Result FsError (Unit {0})) → r ≢ err too_deep → Ends (then_close os src r)
  unfolding then_close
  then_close-Ends src (ok u) fine =
      call-Ends (os.close_source src) close_failed (λ same. ground arith)
  then_close-Ends src (err e) fine = λ w. fine

  copy_by-Ends :
      (link : Result FsError Bool) (src dst : Text)
      → link ≢ err too_deep
      → Ends (copy_by os link src dst)
  unfolding copy_by clone_symlink clone_to copy_contents
  copy_by-Ends (err e) src dst fine = λ w same. fine (ground arith)
  copy_by-Ends (ok true) src dst fine = λ w same. elim (Option-cases (os.read_link w src)) [
    | inl unread ↦ ground arith
    | inr (to, read) ↦
        call-Ends (os.make_symlink to dst) symlink_failed (λ same. ground arith) w (ground arith)
  ]
  copy_by-Ends (ok false) src dst fine = λ w same. elim (Bool-cases (os.open_source w src)) [
    | inl opened ↦
        then_close-Ends src (copy_open os src dst w).0 (copy_open-Ends src dst w)
          (copy_open os src dst w).1 (ground arith)
    | inr closed ↦ ground arith
  ]

  symlink-Ends : (p : Probe) → symlink_check p ≢ err too_deep
  unfolding symlink_check
  symlink-Ends absent = λ same. ground arith
  symlink-Ends probe_failed = λ same. ground arith
  symlink-Ends directory = λ same. ground arith
  symlink-Ends file = λ same. ground arith
  symlink-Ends symlink = λ same. ground arith

  copy_file-Ends : (src dst : Text) → Ends (copy_file os src dst)
  unfolding copy_file is_symlink
  copy_file-Ends src dst w =
      copy_by-Ends (is_symlink os w src) src dst (symlink-Ends (os.lstat w src)) w

  copy_entries-Ends :
      (descend : Text → Text → Exec os.World FsError (Unit {0})) (src dst : Text)
      (entries : List (Text × Bool))
      → ((name : Text)
          → Memᴰ (name, true) entries
          → Ends (descend (join_path src name) (join_path dst name)))
      → Ends (copy_entries os descend src dst entries)
  unfolding copy_entries
  copy_entries-Ends descend src dst [] below = λ w same. ground arith
  copy_entries-Ends descend src dst ((name, true) ∷ entries) below =
      Ends-bind (descend (join_path src name) (join_path dst name)) _ (below name (Memᴰ.head refl))
        (λ u w is. copy_entries-Ends descend src dst entries (λ n m. below n (Memᴰ.tail m)) _)
  copy_entries-Ends descend src dst ((name, false) ∷ entries) below =
      Ends-bind (copy_file os (join_path src name) (join_path dst name)) _
        (copy_file-Ends (join_path src name) (join_path dst name))
        (λ u w is. copy_entries-Ends descend src dst entries (λ n m. below n (Memᴰ.tail m)) _)

  source-Ends : (p : Probe) → source_check p ≢ err too_deep
  unfolding source_check
  source-Ends absent = λ same. ground arith
  source-Ends probe_failed = λ same. ground arith
  source-Ends directory = λ same. ground arith
  source-Ends file = λ same. ground arith
  source-Ends symlink = λ same. ground arith

  target-Ends : (p : Probe) → target_check p ≢ err too_deep
  unfolding target_check
  target-Ends absent = λ same. ground arith
  target-Ends probe_failed = λ same. ground arith
  target-Ends directory = λ same. ground arith
  target-Ends file = λ same. ground arith
  target-Ends symlink = λ same. ground arith

  module _ (rank : Text → ℕ)
      (smaller : (w : os.World) (src : Text) (entries : List (Text × Bool)) (name : Text)
        → os.read_dir w (clean src) ≡ some entries
        → Memᴰ (name, true) entries
        → rank (join_path (clean src) name) < rank src) where
    entries-read :
        (src : Text) (w : os.World) (entries : List (Text × Bool))
        → (entries_of os src w).0 ≡ ok entries
        → os.read_dir w src ≡ some entries
    unfolding entries_of
    entries-read src w entries h = elim (Option-cases (os.read_dir w src)) [
      | inl unread ↦ ground arith
      | inr (es, read) ↦ ground arith
    ]

    entries-Ends : (src : Text) → Ends (entries_of os src)
    unfolding entries_of
    entries-Ends src w same = elim (Option-cases (os.read_dir w src)) [
      | inl unread ↦ ground arith
      | inr (es, read) ↦ ground arith
    ]

    -- If the directories below a directory have a smaller rank in every world, as where paths have a
    -- bounded length, the copy of a directory does not run out of levels when it is given more of them
    -- than the rank of the directory.
    copy_dir-ends :
        (depth : ℕ) (src dst : Text) (w : os.World)
        → rank src < depth
        → (copy_dir os depth src dst w).0 ≢ err too_deep
    unfolding copy_dir check_source check_target
    copy_dir-ends zero src dst w few = absurd (omega arith)
    copy_dir-ends (suc depth) src dst w few =
        Ends-bind (check_source os (clean src)) _ (λ w. source-Ends (os.lstat w (clean src)))
          (λ u w is.
            Ends-bind (check_target os (clean dst)) _ (λ w. target-Ends (os.stat w (clean dst)))
              (λ u w is.
                Ends-bind (call os (os.mkdir_all (clean dst)) mkdir_failed) _
                  (call-Ends (os.mkdir_all (clean dst)) mkdir_failed (λ same. ground arith))
                  (λ u w is.
                    Ends-bind (entries_of os (clean src)) _ (entries-Ends (clean src))
                      (λ entries w read.
                        copy_entries-Ends (copy_dir os depth) (clean src) (clean dst) entries
                          (λ name m w.
                            copy_dir-ends depth (join_path (clean src) name)
                              (join_path (clean dst) name) w
                              (omega (
                                arith,
                                smaller _ src entries name (entries-read (clean src) _ entries read)
                                    m,
                              )))
                          _)
                      _)
                  _)
              _)
          w

-- ===== src/Fs/Source.antt =====
-- internal/fs/fs.go and internal/fs/rename.go: a rename that fails leaves the source.
use flux_build.Base.{
  ℕ, zero, suc, Bool, true, false, Option, none, some, List, [], ◌∷◌, ◌≡◌, ◌≢◌, refl, inl, inr,
  arith, Bool-cases,
}
use flux_build.Base.Exec.{Exec, Keeps, Keeps-bind}
use flux_build.Base.Paths.{clean, join_path}
use flux_build.Base.Results.{Result, ok, err, Result-cases}
use flux_build.Base.Text.{Text}
use flux_build.Fs.{
  FsError, cannot_delete, create_failed, chmod_failed, mkdir_failed, Os, Renamed, renamed,
  cross_device, other_link_error, other_error, call, is_symlink, is_dir, clone_to, clone_symlink,
  copy_by, check_stat, copy_data, copy_open, then_close, copy_contents, copy_file, check_source,
  check_target, entries_of, copy_entries, copy_dir, copy_any, rename_by_copy, rename_fallback,
  rename_with_fallback,
}

-- What only a rename that works and a removal may change
pub record IsKept (os : Os) (P : os.World → Type 0) : Type 0 where
  pub rename :
      (from to : Text) (w : os.World)
      → (os.rename from to w).0 ≢ renamed
      → P w
      → P (os.rename from to w).1
  pub mkdir_all : (path : Text) (w : os.World) → P w → P (os.mkdir_all path w).1
  pub make_symlink : (to path : Text) (w : os.World) → P w → P (os.make_symlink to path w).1
  pub create : (path : Text) (w : os.World) → P w → P (os.create path w).1
  pub copy : (src dst : Text) (w : os.World) → P w → P (os.copy src dst w).1
  pub close_target : (path : Text) (w : os.World) → P w → P (os.close_target path w).1
  pub close_source : (path : Text) (w : os.World) → P w → P (os.close_source path w).1
  pub chmod : (path : Text) (w : os.World) → P w → P (os.chmod path w).1

module _ (os : Os) (P : os.World → Type 0) (kept : IsKept os P) where
  call-Keeps :
      (f : os.World → Bool × os.World) (e : FsError)
      → ((w : os.World) → P w → P (f w).1)
      → Keeps P (call os f e)
  unfolding call
  call-Keeps f e h = record { at = h }

  copy_data-Keeps : (src dst : Text) → Keeps P (copy_data os src dst)
  unfolding copy_data call
  copy_data-Keeps src dst = record {
    at = λ w h.
        let copied = kept.copy src dst w h in
        let closed = kept.close_target dst (os.copy src dst w).1 copied in
        elim (Bool-cases (os.copy src dst w).0) [
          | inl good ↦ rw good closed
          | inr bad ↦ rw bad closed
        ];
  }

  check_stat-Keeps : (path : Text) → Keeps P (check_stat os path)
  unfolding check_stat
  check_stat-Keeps path = record { at = λ w h. h }

  copy_open-Keeps : (src dst : Text) → Keeps P (copy_open os src dst)
  unfolding copy_open
  copy_open-Keeps src dst =
      Keeps-bind (call os (os.create dst) create_failed) _
        (call-Keeps (os.create dst) create_failed (kept.create dst))
        (λ _. Keeps-bind (copy_data os src dst) _ (copy_data-Keeps src dst) (λ _.
          Keeps-bind (check_stat os src) _ (check_stat-Keeps src)
            (λ _. call-Keeps (os.chmod dst) chmod_failed (kept.chmod dst))))

  then_close-Keeps : (src : Text) (r : Result FsError (Unit {0})) → Keeps P (then_close os src r)
  unfolding then_close call
  then_close-Keeps src (ok u) = record { at = λ w h. kept.close_source src w h }
  then_close-Keeps src (err e) = record { at = λ w h. kept.close_source src w h }

  copy_contents-Keeps : (src dst : Text) → Keeps P (copy_contents os src dst)
  unfolding copy_contents
  copy_contents-Keeps src dst = record {
    at = λ w h. elim (Bool-cases (os.open_source w src)) [
      | inl good ↦ rw good (
          (then_close-Keeps src (copy_open os src dst w).0).at (copy_open os src dst w).1
            ((copy_open-Keeps src dst).at w h))
      | inr bad ↦ rw bad h
    ];
  }

  clone_to-Keeps : (to : Option Text) (dst : Text) → Keeps P (clone_to os to dst)
  unfolding clone_to call
  clone_to-Keeps none dst = record { at = λ w h. h }
  clone_to-Keeps (some to) dst = record { at = λ w h. kept.make_symlink to dst w h }

  copy_by-Keeps : (link : Result FsError Bool) (src dst : Text) → Keeps P (copy_by os link src dst)
  unfolding copy_by clone_symlink
  copy_by-Keeps (err e) src dst = record { at = λ w h. h }
  copy_by-Keeps (ok true) src dst = record {
    at = λ w h. (clone_to-Keeps (os.read_link w src) dst).at w h;
  }
  copy_by-Keeps (ok false) src dst = copy_contents-Keeps src dst

  copy_file-Keeps : (src dst : Text) → Keeps P (copy_file os src dst)
  unfolding copy_file
  copy_file-Keeps src dst = record {
    at = λ w h. (copy_by-Keeps (is_symlink os w src) src dst).at w h;
  }

  copy_entries-Keeps :
      (descend : Text → Text → Exec os.World FsError (Unit {0})) (src dst : Text)
      (entries : List (Text × Bool))
      → ((src dst : Text) → Keeps P (descend src dst))
      → Keeps P (copy_entries os descend src dst entries)
  unfolding copy_entries
  copy_entries-Keeps descend src dst [] below = record { at = λ w h. h }
  copy_entries-Keeps descend src dst ((name, true) ∷ entries) below =
      Keeps-bind (descend (join_path src name) (join_path dst name)) _
        (below (join_path src name) (join_path dst name))
        (λ _. copy_entries-Keeps descend src dst entries below)
  copy_entries-Keeps descend src dst ((name, false) ∷ entries) below =
      Keeps-bind (copy_file os (join_path src name) (join_path dst name)) _
        (copy_file-Keeps (join_path src name) (join_path dst name))
        (λ _. copy_entries-Keeps descend src dst entries below)

  copy_dir-Keeps : (depth : ℕ) (src dst : Text) → Keeps P (copy_dir os depth src dst)
  unfolding copy_dir check_source check_target entries_of
  copy_dir-Keeps zero src dst = record { at = λ w h. h }
  copy_dir-Keeps (suc depth) src dst =
      Keeps-bind (check_source os (clean src)) _ (record { at = λ w h. h })
        (λ _.
          Keeps-bind (check_target os (clean dst)) _ (record { at = λ w h. h })
            (λ _.
              Keeps-bind (call os (os.mkdir_all (clean dst)) mkdir_failed) _
                (call-Keeps (os.mkdir_all (clean dst)) mkdir_failed (kept.mkdir_all (clean dst)))
                (λ _.
                  Keeps-bind (entries_of os (clean src)) _ (record { at = λ w h. h })
                    (λ entries.
                      copy_entries-Keeps (copy_dir os depth) (clean src) (clean dst) entries
                        (copy_dir-Keeps depth)))))

  copy_any-Keeps : (depth : ℕ) (src dst : Text) → Keeps P (copy_any os depth src dst)
  unfolding copy_any
  copy_any-Keeps depth src dst = record {
    at = λ w h. elim (Bool-cases (is_dir os w src)) [
      | inl t ↦ rw t ((copy_dir-Keeps depth src dst).at w h)
      | inr f ↦ rw f ((copy_file-Keeps src dst).at w h)
    ];
  }

  by_copy-kept :
      (depth : ℕ) (src dst : Text) (w : os.World) (e : FsError)
      → (rename_by_copy os depth src dst w).0 ≡ err e
      → e ≢ cannot_delete
      → P w
      → P (rename_by_copy os depth src dst w).1
  unfolding rename_by_copy call
  by_copy-kept depth src dst w e failed other h =
      let copied = (copy_any-Keeps depth src dst).at w h in
      elim (Result-cases (copy_any os depth src dst w).0) [
        | inr (e', not_copied) ↦ rw not_copied copied
        | inl (u, all_copied) ↦
            elim (Bool-cases (os.remove_all src (copy_any os depth src dst w).1).0) [
              | inl removed ↦ ground arith
              | inr not_removed ↦ absurd (other (ground arith))
            ]
      ]

  fallback-kept :
      (depth : ℕ) (r : Renamed) (src dst : Text) (w : os.World) (e : FsError)
      → (rename_fallback os depth r src dst w).0 ≡ err e
      → e ≢ cannot_delete
      → P w
      → P (rename_fallback os depth r src dst w).1
  unfolding rename_fallback
  fallback-kept depth renamed src dst w e failed other h = h
  fallback-kept depth cross_device src dst w e failed other h =
      by_copy-kept depth src dst w e failed other h
  fallback-kept depth other_link_error src dst w e failed other h = h
  fallback-kept depth other_error src dst w e failed other h = h

  renamed-kept :
      (r : Renamed) (depth : ℕ) (src dst : Text) (w : os.World) (e : FsError)
      → (os.rename src dst w).0 ≡ r
      → (rename_fallback os depth r src dst (os.rename src dst w).1).0 ≡ err e
      → e ≢ cannot_delete
      → P w
      → P (rename_fallback os depth r src dst (os.rename src dst w).1).1
  renamed-kept renamed depth src dst w e is failed other h = unfold rename_fallback in ground arith
  renamed-kept cross_device depth src dst w e is failed other h =
      fallback-kept depth cross_device src dst (os.rename src dst w).1 e failed other
        (kept.rename src dst w (λ same. ground arith) h)
  renamed-kept other_link_error depth src dst w e is failed other h =
      fallback-kept depth other_link_error src dst (os.rename src dst w).1 e failed other
        (kept.rename src dst w (λ same. ground arith) h)
  renamed-kept other_error depth src dst w e is failed other h =
      fallback-kept depth other_error src dst (os.rename src dst w).1 e failed other
        (kept.rename src dst w (λ same. ground arith) h)

  -- If RenameWithFallback fails, and not because the source could not be deleted in the end, then
  -- whatever only a rename that works or a removal may change is as it was: the source is still there.
  pub rename_with_fallback-kept :
      (depth : ℕ) (src dst : Text) (w : os.World) (e : FsError)
      → (rename_with_fallback os depth src dst w).0 ≡ err e
      → e ≢ cannot_delete
      → P w
      → P (rename_with_fallback os depth src dst w).1
  unfolding rename_with_fallback check_stat
  rename_with_fallback-kept depth src dst w e failed other h =
      elim (Result-cases (check_stat os src w).0) [
        | inr (e', missing) ↦ rw missing h
        | inl (u, there) ↦
            rw there
              (renamed-kept (os.rename src dst w).0 depth src dst w e refl (ground arith) other h)
      ]

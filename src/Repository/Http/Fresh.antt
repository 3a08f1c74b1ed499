-- ===== src/Repository/Http/Fresh.antt =====
-- The digests that a `ChartRepository` remembers, and the index that it loads once
-- (internal/helm/repository/chart_repository.go).
use flux_build.Base.{
  ◌≡◌, refl, inl, inr, true, none, some, List, [], ◌∷◌, arith, ◌==◌, Bool-cases, Option-cases,
}
use flux_build.Base.Dict.{Dict, lookup, insert, erase, lookup-insert, lookup-erase, lookup-nil}
use flux_build.Base.Results.{ok, Result-cases}
use flux_build.Base.Text.{Text, text_eq, text_iff}
use flux_build.Repository.Http.{
  File, State, HttpLibrary, max_index_size, take, has_index, invalidate, cache_index, cache_at,
  load_from_path, strategically_load_index, digest, with_digest, read_digest, clear, download_index,
}

module _ (lib : HttpLibrary)
    (create_temp-new : (disk : Dict Text File) (name : Text)
      → lib.create_temp disk ≡ some name
      → lookup name disk ≡ none) where
  -- Every digest that is remembered is that of the file at the path.
  abbrev pub IsFresh : State → Type 0
  IsFresh s =
      (a d : Text)
      → lookup a s.repo.digests ≡ some d
      → (f : File) × (lookup s.repo.path s.disk ≡ some f)
        × (lib.from_reader a (take max_index_size f.content) ≡ some d)

  pub data Op : Type 0 where
    caches loads loads_strategically clears invalidates : Op
    digests : Text → Op

  -- One call of a method
  unfoldable pub run : Op → State → State
  run caches s = (cache_index lib s).1
  run loads s = (load_from_path lib s).1
  run loads_strategically s = (strategically_load_index lib s).1
  run clears s = (clear lib s).1
  run invalidates s = invalidate lib s
  run (digests a) s = (digest lib a s).1

  unfoldable pub run_all : List Op → State → State
  unfolding run
  run_all [] s = s
  run_all (op ∷ ops) s = run_all ops (run op s)

  -- Removing a new file leaves the file at the path alone.
  kept_file :
      (s : State) (name : Text) (f : File)
      → lookup name s.disk ≡ none
      → ((g : File)
          → lookup s.repo.path s.disk ≡ some g
          → lookup s.repo.path (erase name (insert name f s.disk)) ≡ some g)
  kept_file s name f new g e = ground (
    arith,
    text_iff s.repo.path name,
    text_iff name s.repo.path,
    lookup-insert s.repo.path name f s.disk,
    lookup-erase s.repo.path name (insert name f s.disk),
  )

  removed-IsFresh :
      (s : State) (name : Text) (f : File)
      → lookup name s.disk ≡ none
      → IsFresh s
      → IsFresh (record s { disk = erase name (insert name f s.disk) })
  removed-IsFresh s name f new h a d e =
      let (g, found, same) = h a d e in (g, kept_file s name f new g found, same)

  abbrev regular : Text → File
  regular text = record { is_regular = true; content = text }

  cache_at-IsFresh :
      (name : Text) (s : State)
      → lookup name s.disk ≡ none
      → IsFresh s
      → IsFresh (cache_at lib name s).1
  unfolding cache_at
  cache_at-IsFresh name s new h a d l = elim (Result-cases (download_index lib s.repo)) [
    | inr (x, e) ↦ ground (arith, removed-IsFresh s name (regular []) new h a d)
    | inl (text, e) ↦
        ground (arith, removed-IsFresh s name (regular text) new h a d, lookup-nil {V = Text} a)
  ]

  cache_index-IsFresh : (s : State) → IsFresh s → IsFresh (cache_index lib s).1
  unfolding cache_index
  cache_index-IsFresh s h a d l = elim (Option-cases (lib.create_temp s.disk)) [
    | inl e ↦ ground (arith, h a d)
    | inr (name, e) ↦ ground (arith, cache_at-IsFresh name s (create_temp-new s.disk name e) h a d)
  ]

  load_from_path-IsFresh : (s : State) → IsFresh s → IsFresh (load_from_path lib s).1
  unfolding load_from_path
  load_from_path-IsFresh s h a d e = ground (arith, h a d)

  clear-IsFresh : (s : State) → IsFresh s → IsFresh (clear lib s).1
  unfolding clear invalidate
  clear-IsFresh s h a d e = ground (arith, h a d, lookup-nil {V = Text} a)

  new_digest-IsFresh :
      (b v : Text) (s : State) (f : File)
      → lookup s.repo.path s.disk ≡ some f
      → lib.from_reader b (take max_index_size f.content) ≡ some v
      → IsFresh s
      → IsFresh (record s { repo = record s.repo { digests = insert b v s.repo.digests } })
  new_digest-IsFresh b v s f found reads h a d e = elim (Bool-cases (b == a)) [
    | inl same ↦ (f, found, ground (arith, reads, text_iff b a, lookup-insert a b v s.repo.digests))
    | inr other ↦ h a d (ground (arith, lookup-insert a b v s.repo.digests))
  ]

  read_digest_lem :
      (b v : Text) (s : State)
      → read_digest lib b s ≡ some v
      → (f : File) × (lookup s.repo.path s.disk ≡ some f)
        × (lib.from_reader b (take max_index_size f.content) ≡ some v)
  unfolding read_digest
  read_digest_lem b v s e = elim (Option-cases (lookup s.repo.path s.disk)) [
    | inl missing ↦ absurd (ground arith)
    | inr (f, found) ↦ (f, found, ground arith)
  ]

  with_digest-IsFresh : (b : Text) (s : State) → IsFresh s → IsFresh (with_digest lib b s)
  unfolding with_digest
  with_digest-IsFresh b s h a d e = elim (Option-cases (lookup b s.repo.digests)) [
    | inr (v, known) ↦ ground (arith, h a d)
    | inl unknown ↦ elim (Option-cases (read_digest lib b s)) [
      | inl unread ↦ ground (arith, h a d)
      | inr (v, e') ↦
          let (f, found, reads) = read_digest_lem b v s e' in
          ground (arith, new_digest-IsFresh b v s f found reads h a d)
    ]
  ]

  digest-IsFresh : (b : Text) (s : State) → IsFresh s → IsFresh (digest lib b s).1
  unfolding digest
  digest-IsFresh b s h a d e = ground (arith, h a d, with_digest-IsFresh b s h a d)

  load_strategically-IsFresh : (s : State) → IsFresh s → IsFresh (strategically_load_index lib s).1
  unfolding strategically_load_index
  load_strategically-IsFresh s h a d e =
      let c = cache_index-IsFresh s h in
      ground (
        arith,
        h a d,
        c a d,
        load_from_path-IsFresh s h a d,
        load_from_path-IsFresh (cache_index lib s).1 c a d,
      )

  run-IsFresh : (op : Op) (s : State) → IsFresh s → IsFresh (run op s)
  unfolding run
  run-IsFresh caches s h = cache_index-IsFresh s h
  run-IsFresh loads s h = load_from_path-IsFresh s h
  run-IsFresh loads_strategically s h = load_strategically-IsFresh s h
  run-IsFresh clears s h = clear-IsFresh s h
  run-IsFresh invalidates s h =
      λ a d e. absurd (unfold invalidate in ground (arith, lookup-nil {V = Text} a))
  run-IsFresh (digests b) s h = digest-IsFresh b s h

  -- Whatever methods are called, in whatever order, every digest that the repository remembers is
  -- that of the file at its path, if that was so at the start: an index file is never replaced
  -- without the digests of the old one being dropped. The name of a new temporary file is one that
  -- no file had.
  pub run_all-IsFresh : (ops : List Op) (s : State) → IsFresh s → IsFresh (run_all ops s)
  unfolding run_all
  run_all-IsFresh [] s h = h
  run_all-IsFresh (op ∷ ops) s h = run_all-IsFresh ops (run op s) (run-IsFresh op s h)

module _ (lib : HttpLibrary) where
  has_index-load_from_path :
      (s : State) → (load_from_path lib s).0 ≡ ok tt → has_index lib (load_from_path lib s).1 ≡ true
  unfolding load_from_path has_index
  has_index-load_from_path s e = ground arith

  has_index-load :
      (s : State)
      → (strategically_load_index lib s).0 ≡ ok tt
      → has_index lib (strategically_load_index lib s).1 ≡ true
  unfolding strategically_load_index
  has_index-load s e =
      ground (arith, has_index-load_from_path s, has_index-load_from_path (cache_index lib s).1)

  load_again : (s : State) → has_index lib s ≡ true → strategically_load_index lib s ≡ (ok tt, s)
  unfolding strategically_load_index
  load_again s e = rw e refl

  -- The index is loaded once: after a load that succeeded there is one, and a second load succeeds
  -- too and changes nothing.
  strategically_load_index-once :
      (s : State)
      → (strategically_load_index lib s).0 ≡ ok tt
      → (has_index lib (strategically_load_index lib s).1 ≡ true)
        × (strategically_load_index lib (strategically_load_index lib s).1
            ≡ (ok tt, (strategically_load_index lib s).1))
  strategically_load_index-once s e =
      let loaded = has_index-load s e in (loaded, load_again _ loaded)

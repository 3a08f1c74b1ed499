-- ===== src/Lib.antt =====
-- flux-build renders the HelmReleases among a set of Kubernetes resources: it finds the repository
-- of a release's chart, fetches the chart through two caches, composes the values of the release,
-- has Helm render the chart, and has kustomize read the result. This library models the part of it
-- that decides what is fetched, with which credentials, under which locks, and what is rendered.
--
-- The parts, with the files of the repository that they model:
-- - MemCache (internal/cache/cache.go): the generic cache whose `GetOrLock` makes other callers wait
--   for the first one. A channel is a number, and a set of closed channels belongs to the cache.
--   MemCache.Threads has the goroutines: a step is one critical section of the mutex.
-- - ChartCache (internal/helm/chart/cache): the chart caches. The random bytes of a file's name come
--   from a supply `random`; `draws` counts how many were taken.
-- - Chart (internal/helm/chart): Chart.Reference has references, build options and the pattern of
--   names (builder.go); Chart.Metadata the metadata of directories and archives (metadata.go);
--   Chart.Errors the reasons of errors (errors.go); Chart.Packages and Chart.Remote the remote
--   builder (builder_remote.go), Chart.Local the local one (builder_local.go); Chart.Dependencies the
--   dependency manager (dependency_manager.go), with its workers in Chart.Dependencies.Group: an
--   event is an atomic part of a goroutine, and a schedule is a list of events.
-- - Ignore (internal/helm/chart/secureloader/ignore/rules.go): the rules of a .helmignore file, with
--   `filepath.Match` by its documentation in Ignore.Glob.
-- - Loader (internal/helm/chart/secureloader): a chart loaded from a directory inside a root.
--   Loader.Sympath is the walk that follows links (sympath/walk.go), over any state; Loader.Directory
--   the walker with its checks and `SecureLoadDir` (directory.go), and Loader itself `Loader` and
--   `Load` (loader.go). Loader.Visits says what there is to come to.
-- - Fs (internal/fs/fs.go, internal/fs/rename.go): renaming that falls back to a copy, on Unix, and
--   Fs.LongPath for the long paths of Windows. `Os` is the package os.
-- - Auth (internal/helm/getter, internal/helm/registry, internal/oci/auth.go): options, TLS and
--   registry credentials that come from a secret; Auth.Verifier the verifier of signatures
--   (internal/oci/verifier.go).
-- - Repository (internal/helm/repository): URLs, the index file, the choice of a version, and the
--   HTTP repository with the file and the digests that it keeps (Repository.Http), and the OCI
--   repository (Repository.Oci).
-- - Build (internal/build/index.go, internal/build/helm.go): the index of resources; Build.Values is
--   `composeValues`; Build.Credentials and Build.Repositories make the client of a repository;
--   Build.FromRepository is `buildFromHelmRepository`; Build.Render is `renderRelease`, and
--   Build.Renderers two of the renderers that it adds (internal/helm/postrenderer);
--   Build.Release is `Build`, which calls all of them in order. Build.Kustomize is `Kustomize`, which
--   is run on every path first (internal/build/kustomize.go).
-- Base has what they share: equality as an interface, text, paths, results, dictionaries for Go's
-- maps, and `Exec` for functions that change a state and may fail. Tests has concrete runs.
--
-- Text is a list of bytes. A Go function with an error result returns `Result`; a method that
-- changes an object takes the object and returns it, beside the error too, since what was done
-- before an error stays done. A deferred call is `deferring`, with the arguments that Go evaluates
-- at the `defer` statement. Where a call waits for another goroutine, `others` is what the others do
-- to the cache meanwhile.
--
-- Parameters stand for code of other repositories, each in a record: `KubeLibrary` (kustomize's
-- resources, the decoder, Helm's values), `HelmLibrary`, `RenderLibrary` and `OutputLibrary` (Helm,
-- envsubst, kustomize), `CloudLibrary` (fluxcd/pkg), `UrlLibrary`, `TlsLibrary`, `DockerLibrary`,
-- `CosignLibrary` (cosign, fulcio and rekor),
-- `HttpLibrary` (the file system and the HTTP client), `Semver` with the laws of its order, and
-- `Sorter`, which Repository.Sorting implements by an insertion sort. `ChartStore` and `Builder` are
-- the chart cache and the remote chart builder as the release builder sees them. `Host` is what the
-- builders use of the file system, of archives, YAML and Helm, and of package secureloader;
-- `FileLaws` says what a file system promises for the content of files, and `PathLaws` for that of the path
-- where a package goes; the `rename` of a `Host` is `RenameWithFallback`, which Fs models, and of it only what
-- it does where it succeeds is used. `Downloader` is a repository as the remote builder and
-- the dependency manager see it. `Disk` is what the secure loader reads, with `securejoin`, and
-- `KustomizeHost` the operating system with YAML and kustomize. What `Walk` finds is a value of
-- `Entries`, with what cannot be inspected or listed, whose error it passes on, and the disk does not
-- change while a chart is loaded. The data of a file that was loaded is not nil, and the rules, names
-- and patterns of .helmignore are read byte by byte, where Go reads runes, and a class
-- that admits the slash may be searched otherwise behind a star.
--
-- Recursion is structural, a schedule included, and the workers of a dependency manager have a bound
-- on the length of every schedule. `copy_dir` is given a number of levels, and so is the walk of the
-- secure loader, for which it is enough if it is above the rank of the directory; a link has a rank
-- too. Of the digits of a number: `hex32` has eight digits at most for 32
-- bits, and `decimal` is given one more than the number, which has no more digits than that.
--
-- Not modelled: what internal/fs does on Windows but for long paths, the buffer in which a
-- long path is written, the worker pool of
-- internal/action, the renderer of kustomize patches in internal/helm/postrenderer, the pool of
-- transports, the mutex around kustomize, logging and the command line.
-- Texts of errors are left out: an error is a constructor with the names that occur in
-- the message. Timeouts and cancelled contexts do not occur, but for the group of workers that
-- cancels itself.
mod Base
pub mod MemCache
pub mod Chart
pub mod Ignore
pub mod Loader
pub mod Fs
pub mod ChartCache
pub mod Auth
pub mod Repository
pub mod Build
mod Tests

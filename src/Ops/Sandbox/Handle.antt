-- ===== src/Ops/Sandbox/Handle.antt =====
-- crates/nexide/src/ops/fs_sync.rs: `FsHandle`, which asks the sandbox before every call of the
-- backend. The backend is a parameter: a call may change the disk, even when it fails.
use nexide.Prelude.{ℕ, Bool, false, List, [], ◌∷◌, Option, if◌then◌else◌}
use nexide.Prelude.Results.{Result, ok, err, ◌>>=◌}
use nexide.Prelude.Text.{Text}
use nexide.Ops.Sandbox.{FsError, PathSandbox, admit}

-- The operations of a backend on a disk.
pub record FsBackend (Disk FsStat DirEntry : Type 0) : Type 0 where
  pub read : Disk → Text → Result FsError (List ℕ)
  pub write : Disk → Text → List ℕ → Result FsError (Unit {0}) × Disk
  pub stat : Disk → Text → Bool → Result FsError FsStat
  pub exists : Disk → Text → Bool
  pub read_dir : Disk → Text → Result FsError (List DirEntry)
  pub mkdir : Disk → Text → Bool → Result FsError (Unit {0}) × Disk
  pub remove : Disk → Text → Bool → Result FsError (Unit {0}) × Disk
  pub copy : Disk → Text → Text → Result FsError (Unit {0}) × Disk
  pub read_link : Disk → Text → Result FsError Text
  pub realpath : Disk → Text → Result FsError Text

-- A call of the handle.
pub data FsCall : Type 0 where
  read_call : Text → FsCall
  write_call : Text → List ℕ → FsCall
  stat_call : Text → Bool → FsCall
  exists_call : Text → FsCall
  read_dir_call : Text → FsCall
  mkdir_call : Text → Bool → FsCall
  remove_call : Text → Bool → FsCall
  copy_call : Text → Text → FsCall
  read_link_call : Text → FsCall
  realpath_call : Text → FsCall

pub data FsAnswer (FsStat DirEntry : Type 0) : Type 0 where
  bytes_answer : Result FsError (List ℕ) → FsAnswer FsStat DirEntry
  done_answer : Result FsError (Unit {0}) → FsAnswer FsStat DirEntry
  stat_answer : Result FsError FsStat → FsAnswer FsStat DirEntry
  exists_answer : Bool → FsAnswer FsStat DirEntry
  entries_answer : Result FsError (List DirEntry) → FsAnswer FsStat DirEntry
  path_answer : Result FsError Text → FsAnswer FsStat DirEntry

-- A change of the disk at an admitted path; a refusal leaves the disk alone.
unfoldable pub changed :
    {Disk A : Type 0}
    → Disk
    → Result FsError A
    → (A → Result FsError (Unit {0}) × Disk)
    → Result FsError (Unit {0}) × Disk
changed d (ok p) f = f p
changed d (err e) f = (err e, d)

-- `r.map(f).unwrap_or(false)`
unfoldable pub ok_and : {A : Type 0} → Result FsError A → (A → Bool) → Bool
ok_and (ok p) f = f p
ok_and (err e) f = false

module _ {Disk FsStat DirEntry : Type 0} (canonicalize : Disk → Text → Option Text)
    (sandbox : PathSandbox) (b : FsBackend Disk FsStat DirEntry) where
  -- `FsHandle::check`
  unfoldable pub check : Disk → Text → Result FsError Text
  unfolding admit
  check d path = admit (canonicalize d) sandbox path

  -- `FsHandle::remove` at an admitted path: what does not exist is removed.
  unfoldable pub remove_at : Disk → Bool → Text → Result FsError (Unit {0}) × Disk
  remove_at d recursive p = if b.exists d p then b.remove d p recursive else (ok tt, d)

  -- The methods of `FsHandle`.
  unfoldable pub perform : Disk → FsCall → FsAnswer FsStat DirEntry × Disk
  unfolding check changed ok_and remove_at
  perform d (read_call path) = (bytes_answer (check d path >>= b.read d), d)
  perform d (write_call path bytes) =
      let r = changed d (check d path) (λ p. b.write d p bytes) in (done_answer r.0, r.1)
  perform d (stat_call path follow) = (stat_answer (check d path >>= λ p. b.stat d p follow), d)
  perform d (exists_call path) = (exists_answer (ok_and (check d path) (b.exists d)), d)
  perform d (read_dir_call path) = (entries_answer (check d path >>= b.read_dir d), d)
  perform d (mkdir_call path recursive) =
      let r = changed d (check d path) (λ p. b.mkdir d p recursive) in (done_answer r.0, r.1)
  perform d (remove_call path recursive) =
      let r = changed d (check d path) (remove_at d recursive) in (done_answer r.0, r.1)
  perform d (copy_call from to) =
      let r = changed d (check d from) (λ src. changed d (check d to) (b.copy d src)) in
      (done_answer r.0, r.1)
  perform d (read_link_call path) = (path_answer (check d path >>= b.read_link d), d)
  perform d (realpath_call path) = (path_answer (check d path >>= b.realpath d), d)

  -- Calls one after the other, with their answers.
  unfoldable pub perform_all : Disk → List FsCall → List (FsAnswer FsStat DirEntry) × Disk
  unfolding perform
  perform_all d [] = ([], d)
  perform_all d (c ∷ cs) =
      let r = perform d c in let rest = perform_all r.1 cs in (r.0 ∷ rest.0, rest.1)

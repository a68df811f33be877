-- ===== src/Ops/Sandbox/Agreement.antt =====
-- The handle of Ops/Sandbox/Handle uses its backend inside of the sandbox only.
use nexide.Prelude.{ℕ, ◌≡◌, Bool, List, Option}
use nexide.Prelude.Text.{Text}
use nexide.Ops.Sandbox.Inside.{IsInside}
use nexide.Ops.Sandbox.Handle.{FsBackend}

-- Two backends that do the same, on every disk, at every path that is inside as seen on that disk.
pub record AgreeWithin {Disk FsStat DirEntry : Type 0} (canonicalize : Disk → Text → Option Text)
    (roots : List Text) (b b' : FsBackend Disk FsStat DirEntry) : Type 0 where
  pub read :
      (d : Disk) (path p : Text) → IsInside (canonicalize d) roots path p → b.read d p ≡ b'.read d p
  pub write :
      (d : Disk) (path p : Text) (bytes : List ℕ)
      → IsInside (canonicalize d) roots path p
      → b.write d p bytes ≡ b'.write d p bytes
  pub stat :
      (d : Disk) (path p : Text) (follow : Bool)
      → IsInside (canonicalize d) roots path p
      → b.stat d p follow ≡ b'.stat d p follow
  pub exists :
      (d : Disk) (path p : Text)
      → IsInside (canonicalize d) roots path p
      → b.exists d p ≡ b'.exists d p
  pub read_dir :
      (d : Disk) (path p : Text)
      → IsInside (canonicalize d) roots path p
      → b.read_dir d p ≡ b'.read_dir d p
  pub mkdir :
      (d : Disk) (path p : Text) (recursive : Bool)
      → IsInside (canonicalize d) roots path p
      → b.mkdir d p recursive ≡ b'.mkdir d p recursive
  pub remove :
      (d : Disk) (path p : Text) (recursive : Bool)
      → IsInside (canonicalize d) roots path p
      → b.remove d p recursive ≡ b'.remove d p recursive
  pub copy :
      (d : Disk) (path path' p q : Text)
      → IsInside (canonicalize d) roots path p
      → IsInside (canonicalize d) roots path' q
      → b.copy d p q ≡ b'.copy d p q
  pub read_link :
      (d : Disk) (path p : Text)
      → IsInside (canonicalize d) roots path p
      → b.read_link d p ≡ b'.read_link d p
  pub realpath :
      (d : Disk) (path p : Text)
      → IsInside (canonicalize d) roots path p
      → b.realpath d p ≡ b'.realpath d p

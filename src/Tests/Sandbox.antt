-- ===== src/Tests/Sandbox.antt =====
-- A sandbox with one root, and its property on two backends that differ outside of it.
use nexide.Prelude.{ℕ, ◌≡◌, refl, true, List, [], ◌∷◌, Option, none, some, if◌then◌else◌}
use nexide.Prelude.Results.{ok}
use nexide.Prelude.Text.{Text, text_eq}
use nexide.Ops.Request.{is_empty}
use nexide.Ops.Sandbox.{PathSandbox, within_any, lexical_normalise, canonical_within}
use nexide.Ops.Sandbox.Handle.{FsBackend, FsCall, read_call, write_call, remove_call}

abbrev root_r : PathSandbox
root_r = record { roots = (b'/' ∷ b'r' ∷ []) ∷ [] }

abbrev r_a : Text
r_a = b'/' ∷ b'r' ∷ b'/' ∷ b'a' ∷ []

-- `/r/../e`
abbrev climbing : Text
climbing = b'/' ∷ b'r' ∷ b'/' ∷ b'.' ∷ b'.' ∷ b'/' ∷ b'e' ∷ []

climbing_normalised : lexical_normalise climbing ≡ b'/' ∷ b'e' ∷ []
unfolding lexical_normalise is_empty
climbing_normalised = refl

climbing_refused : canonical_within (λ path. none) root_r climbing ≡ none
unfolding canonical_within is_empty
climbing_refused = refl

abbrev own_path : List ℕ → Text → Option Text
own_path d path = some path

-- A disk with a single content, under every path.
abbrev one_content : FsBackend (List ℕ) ℕ Text
one_content = record {
  read = λ d p. ok d;
  write = λ d p bytes. (ok tt, bytes);
  stat = λ d p follow. ok 0;
  exists = λ d p. true;
  read_dir = λ d p. ok [];
  mkdir = λ d p recursive. (ok tt, d);
  remove = λ d p recursive. (ok tt, []);
  copy = λ d p q. (ok tt, d);
  read_link = λ d p. ok p;
  realpath = λ d p. ok p;
}

-- Another content outside of the root.
abbrev with_secret : FsBackend (List ℕ) ℕ Text
with_secret = record one_content {
  read = λ d p. if within_any root_r.roots p then ok d else ok (b's' ∷ []);
}

-- A missing directory followed by `..` and a link: the sandbox admits the link by its own name, though
-- its canonical form is outside of the root.
abbrev with_link : Text → Option Text
with_link path =
    if text_eq path (b'/' ∷ b'r' ∷ b'/' ∷ b'l' ∷ [])
    then some (b'/' ∷ b'e' ∷ [])
    else if text_eq path (b'/' ∷ b'r' ∷ [])
    then some path
    else none

link_refused : canonical_within with_link root_r (b'/' ∷ b'r' ∷ b'/' ∷ b'l' ∷ []) ≡ none
unfolding canonical_within is_empty
link_refused = refl

link_admitted :
    canonical_within with_link root_r
      (b'/' ∷ b'r' ∷ b'/' ∷ b'm' ∷ b'/' ∷ b'.' ∷ b'.' ∷ b'/' ∷ b'l' ∷ [])
    ≡ some (b'/' ∷ b'r' ∷ b'/' ∷ b'l' ∷ [])
unfolding canonical_within is_empty
link_admitted = refl

abbrev some_calls : List FsCall
some_calls =
    read_call r_a
    ∷ write_call r_a (1 ∷ [])
    ∷ read_call (b'/' ∷ b'e' ∷ [])
    ∷ remove_call r_a true
    ∷ []

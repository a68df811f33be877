-- ===== src/Cjs/Loader.antt =====
-- crates/nexide/src/engine/v8_engine/ops_bridge.rs: the ops of the CommonJS loader, as results in
-- place of thrown errors. The loader of native modules is a parameter.
pub mod Specifiers
pub mod Reading
use nexide.Prelude.{
  ℕ, Bool, true, false, not, ◌||◌, List, [], ◌∷◌, Option, none, some, ◌==◌, if◌then◌else◌,
}
use nexide.Prelude.Options.{map_some}
use nexide.Prelude.Results.{Result, ok, err, ◌>>=◌, map_err}
use nexide.Prelude.Text.{Text}
use nexide.Ops.Request.{is_empty}
use nexide.Cjs.Registry.{CjsError, BuiltinRegistry, BuiltinModule, lookup}
use nexide.Cjs.Resolver.{
  FileSystem, Resolved, file, json, native, builtin, FsResolver, to_specifier, from_specifier,
  within_roots,
}
use nexide.Cjs.Resolver.Packages.{resolve}

pub data LoadError : Type 0 where
  invalid_specifier : LoadError
  not_configured : LoadError
  unresolved : CjsError → LoadError
  not_registered : Text → LoadError
  read_denied : Text → LoadError
  read_failed : LoadError
  load_denied : Text → LoadError
  no_path : LoadError
  load_failed : Text → LoadError

-- A line break or a NUL.
unfoldable pub bad : Text → Bool
bad [] = false
bad (c ∷ s) = (c == 10) || (c == 13) || (c == 0) || bad s

-- `FsResolver::builtin_source`
unfoldable pub builtin_source : FsResolver → Text → Option Text
unfolding lookup
builtin_source cjs name = map_some (λ (m : BuiltinModule). m.source) (lookup name cjs.registry)

-- The resolver of the engine, if it has one.
unfoldable pub configured : Option FsResolver → Result LoadError FsResolver
configured none = err not_configured
configured (some resolver) = ok resolver

module _ (fs : FileSystem) where
  -- The outcome of `resolver.resolve`, as the op answers it.
  unfoldable pub specifier_of : Result CjsError Resolved → Result LoadError Text
  unfolding to_specifier
  specifier_of (ok r) = ok (to_specifier fs r)
  specifier_of (err e) = err (unresolved e)

  -- `none` if the resolver does not return.
  unfoldable pub op_cjs_resolve :
      ℕ → Option FsResolver → Text → Text → Option (Result LoadError Text)
  unfolding bad resolve specifier_of
  op_cjs_resolve fuel cjs parent request =
      if bad parent || bad request then some (err invalid_specifier) else elim cjs [
        | none ↦ some (err not_configured)
        | some resolver ↦ map_some specifier_of (resolve fs fuel resolver parent request)
      ]

  -- The text of the file, with the number of its kind.
  unfoldable pub read_text : ℕ → Text → Result LoadError (ℕ × Text)
  read_text kind path = elim (fs.read_to_string path) [
    | none ↦ err read_failed
    | some text ↦ ok (kind, text)
  ]

  -- `is_path_admitted`, in front of what reads the path.
  unfoldable pub guarded :
      {A : Type 0} → LoadError → FsResolver → Text → Result LoadError A → Result LoadError A
  unfolding within_roots
  guarded denied cjs path result = if within_roots fs cjs path then result else err denied

  -- The `match resolved`: the kind of a module and its source.
  unfoldable pub read_resolved : FsResolver → Resolved → Result LoadError (ℕ × Text)
  unfolding builtin_source guarded read_text
  read_resolved cjs (builtin name) = elim (builtin_source cjs name) [
    | none ↦ err (not_registered name)
    | some source ↦ ok (2, source)
  ]
  read_resolved cjs (file path) = guarded (read_denied path) cjs path (read_text 0 path)
  read_resolved cjs (json path) = guarded (read_denied path) cjs path (read_text 1 path)
  read_resolved cjs (native path) = guarded (read_denied path) cjs path (ok (3, path))

  unfoldable pub op_cjs_read_source : Option FsResolver → Text → Result LoadError (ℕ × Text)
  unfolding bad from_specifier configured read_resolved
  op_cjs_read_source cjs specifier =
      if is_empty specifier || bad specifier then err invalid_specifier else (do
        resolved ← map_err unresolved (from_specifier specifier)
        resolver ← configured cjs
        read_resolved resolver resolved)

  unfoldable pub op_napi_load :
      {Exports : Type 0}
      → (Text → Result Text Exports)
      → Option FsResolver
      → Text
      → Result LoadError Exports
  unfolding guarded configured
  op_napi_load load_native_module cjs path = if is_empty path then err no_path else (do
    resolver ← configured cjs
    guarded (load_denied path) resolver path (map_err load_failed (load_native_module path)))

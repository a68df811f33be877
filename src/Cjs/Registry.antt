-- ===== src/Cjs/Registry.antt =====
-- crates/nexide/src/engine/cjs/registry.rs and errors.rs: the built-in modules and the errors. The
-- hash map is the list of its modules, which have distinct names.
use nexide.Prelude.{Bool, false, ◌||◌, List, [], ◌∷◌, map, Option, none, some, if◌then◌else◌}
use nexide.Prelude.Results.{Result, ok, err}
use nexide.Prelude.Text.{Text, text_eq}

pub data CjsError : Type 0 where
  not_found : (request parent : Text) → CjsError
  is_directory : Text → CjsError
  access_denied : Text → CjsError
  io_error : (path source : Text) → CjsError
  native_module : Text → CjsError
  duplicate_builtin : Text → CjsError

pub record BuiltinModule : Type 0 where
  pub name : Text
  pub source : Text

abbrev pub BuiltinRegistry : Type 0
BuiltinRegistry = List BuiltinModule

-- `BuiltinRegistry::lookup`
unfoldable pub lookup : Text → BuiltinRegistry → Option BuiltinModule
lookup name [] = none
lookup name (m ∷ ms) = let rest = lookup name ms in if text_eq m.name name then some m else rest

-- `BuiltinRegistry::contains`
unfoldable pub contains : Text → BuiltinRegistry → Bool
contains name [] = false
contains name (m ∷ ms) = text_eq m.name name || contains name ms

-- `BuiltinRegistry::register`
unfoldable pub register : BuiltinModule → BuiltinRegistry → Result CjsError BuiltinRegistry
unfolding contains
register m registry =
    if contains m.name registry then err (duplicate_builtin m.name) else ok (m ∷ registry)

-- `BuiltinRegistry::names`
unfoldable pub names : BuiltinRegistry → List Text
names registry = map (λ (m : BuiltinModule). m.name) registry

-- `register_node_builtins`: the loop over the table of modules.
unfoldable pub register_node_builtins :
    List BuiltinModule → BuiltinRegistry → Result CjsError BuiltinRegistry
unfolding register
register_node_builtins [] registry = ok registry
register_node_builtins (m ∷ ms) registry = elim (register m registry) [
  | err e ↦ err e
  | ok more ↦ register_node_builtins ms more
]

-- ===== src/Ops/Process.antt =====
-- crates/nexide/src/ops/process.rs and the ops on `process` in
-- crates/nexide/src/engine/v8_engine/ops_bridge.rs: the environment that scripts see. A hash map is
-- a list of entries with distinct keys, a `BTreeSet` a sorted list without repetition; the
-- environment of the host and the system call `kill` are parameters.
pub mod Overlay
pub mod Refinement
use nexide.Prelude.{
  ℕ, zero, suc, Bool, true, false, not, ◌||◌, ◌&&◌, List, [], ◌∷◌, ◌++◌, Option, none, some, leb,
  ltb, ◌==◌, if◌then◌else◌,
}
use nexide.Prelude.Results.{Result, ok, err}
use nexide.Prelude.Text.{Text, text_eq, starts_with}
use nexide.Ops.Request.{is_empty, contains}

-- `EnvOverlay`: `none` marks a key that the guest has deleted.
abbrev pub EnvOverlay : Type 0
EnvOverlay = List (Text × Option Text)

unfoldable pub without : Text → EnvOverlay → EnvOverlay
without key [] = []
without key (entry ∷ overlay) =
    let rest = without key overlay in if text_eq entry.0 key then rest else entry ∷ rest

-- `HashMap::insert`
unfoldable pub insert_entry : Text → Option Text → EnvOverlay → EnvOverlay
unfolding without
insert_entry key value overlay = (key, value) ∷ without key overlay

-- `EnvOverlay::set`
unfoldable pub set_entry : Text → Text → EnvOverlay → EnvOverlay
unfolding insert_entry
set_entry key value overlay = insert_entry key (some value) overlay

-- `EnvOverlay::delete`
unfoldable pub delete_entry : Text → EnvOverlay → EnvOverlay
unfolding insert_entry
delete_entry key overlay = insert_entry key none overlay

-- `EnvOverlay::lookup`
unfoldable pub lookup : Text → EnvOverlay → Option (Option Text)
lookup key [] = none
lookup key (entry ∷ overlay) =
    let rest = lookup key overlay in if text_eq entry.0 key then some entry.1 else rest

-- The keys of `EnvOverlay::live_entries`.
unfoldable pub live_keys : EnvOverlay → List Text
live_keys [] = []
live_keys (entry ∷ overlay) =
    let rest = live_keys overlay in elim (entry.1) [ none ↦ rest | some value ↦ entry.0 ∷ rest ]

-- `EnvOverlay::deleted_keys`
unfoldable pub deleted_keys : EnvOverlay → List Text
deleted_keys [] = []
deleted_keys (entry ∷ overlay) =
    let rest = deleted_keys overlay in elim (entry.1) [ none ↦ entry.0 ∷ rest | some value ↦ rest ]

-- `EnvSource`
pub record EnvSource : Type 0 where
  pub get : Text → Option Text
  pub keys : List Text

-- The clock is left out.
pub record ProcessConfig : Type 0 where
  pub env : EnvSource
  pub prefixes : List Text
  pub keys : List Text
  pub cwd : Text
  pub platform : Text
  pub arch : Text
  pub allow_subprocess : Bool

unfoldable pub mem : Text → List Text → Bool
mem key [] = false
mem key (k ∷ ks) = text_eq k key || mem key ks

unfoldable pub any_prefix : Text → List Text → Bool
unfolding starts_with
any_prefix key [] = false
any_prefix key (p ∷ ps) = starts_with p key || any_prefix key ps

-- `ProcessConfig::is_visible`
unfoldable pub is_visible : ProcessConfig → Text → Bool
unfolding mem any_prefix
is_visible p key = if mem key p.keys then true else any_prefix key p.prefixes

-- `ProcessConfig::get`
unfoldable pub get : ProcessConfig → Text → Option Text
unfolding is_visible
get p key = if not (is_visible p key) then none else p.env.get key

-- The order of byte strings.
unfoldable pub text_ltb : Text → Text → Bool
text_ltb [] [] = false
text_ltb [] (_ ∷ _) = true
text_ltb (_ ∷ _) [] = false
text_ltb (x ∷ xs) (y ∷ ys) = ltb x y || ((x == y) && text_ltb xs ys)

-- `BTreeSet::insert`
unfoldable pub insert_key : Text → List Text → List Text
unfolding text_ltb
insert_key key [] = key ∷ []
insert_key key (k ∷ ks) =
    let rest = insert_key key ks in
    if text_eq k key then k ∷ ks else if text_ltb key k then key ∷ k ∷ ks else k ∷ rest

unfoldable pub insert_keys : List Text → List Text → List Text
unfolding insert_key
insert_keys [] set = set
insert_keys (k ∷ ks) set = insert_keys ks (insert_key k set)

-- `BTreeSet::remove`
unfoldable pub remove_key : Text → List Text → List Text
remove_key key [] = []
remove_key key (k ∷ ks) = let rest = remove_key key ks in if text_eq k key then rest else k ∷ rest

unfoldable pub remove_keys : List Text → List Text → List Text
unfolding remove_key
remove_keys [] set = set
remove_keys (k ∷ ks) set = remove_keys ks (remove_key k set)

unfoldable pub visible_only : ProcessConfig → List Text → List Text
unfolding is_visible
visible_only p [] = []
visible_only p (k ∷ ks) = let rest = visible_only p ks in if is_visible p k then k ∷ rest else rest

-- `ProcessConfig::visible_keys`: sorted and without repetition.
unfoldable pub visible_keys : ProcessConfig → List Text
unfolding visible_only insert_keys
visible_keys p = insert_keys (visible_only p p.env.keys) []

-- The part of the bridge's state that the ops on `process.env` read and write.
pub record EnvState : Type 0 where
  pub env_overlay : EnvOverlay
  pub process : Option ProcessConfig

-- `state.process.as_ref().and_then(|p| p.get(&key))`
unfoldable pub process_get : Option ProcessConfig → Text → Option Text
unfolding get
process_get none key = none
process_get (some p) key = get p key

-- A null result is `none`.
unfoldable pub op_process_env_get : EnvState → Text → Option Text
unfolding lookup process_get
op_process_env_get state key = elim (lookup key state.env_overlay) [
  | some overlay ↦ overlay
  | none ↦ process_get state.process key
]

unfoldable pub is_some : {A : Type 0} → Option A → Bool
is_some none = false
is_some (some a) = true

unfoldable pub op_process_env_has : EnvState → Text → Bool
unfolding lookup process_get is_some
op_process_env_has state key = elim (lookup key state.env_overlay) [
  | some overlay ↦ is_some overlay
  | none ↦ is_some (process_get state.process key)
]

-- `state.process.as_ref().map(|p| p.visible_keys()…).unwrap_or_default()`
unfoldable pub process_keys : Option ProcessConfig → List Text
unfolding visible_keys
process_keys none = []
process_keys (some p) = visible_keys p

unfoldable pub op_process_env_keys : EnvState → List Text
unfolding process_keys insert_keys live_keys remove_keys deleted_keys
op_process_env_keys state =
    remove_keys (deleted_keys state.env_overlay)
      (insert_keys (live_keys state.env_overlay) (process_keys state.process))

pub data EnvError : Type 0 where
  invalid_key invalid_value : EnvError

-- `key.is_empty() || key.contains('=') || key.contains('\0')`
unfoldable pub is_invalid_key : Text → Bool
unfolding is_empty contains
is_invalid_key key = is_empty key || contains key b'=' || contains key 0

unfoldable pub op_process_env_set : EnvState → Text → Text → Result EnvError EnvState
unfolding is_invalid_key contains set_entry
op_process_env_set state key value =
    if is_invalid_key key
    then err invalid_key
    else if contains value 0
    then err invalid_value
    else ok (record state { env_overlay = set_entry key value state.env_overlay })

unfoldable pub op_process_env_delete : EnvState → Text → Result EnvError EnvState
unfolding is_invalid_key delete_entry
op_process_env_delete state key =
    if is_invalid_key key
    then err invalid_key
    else ok (record state { env_overlay = delete_entry key state.env_overlay })

-- The ops that change the environment; an error is thrown to the script and changes nothing.
pub data EnvCall : Type 0 where
  sets : (key value : Text) → EnvCall
  deletes : Text → EnvCall

unfoldable pub or_unchanged : EnvState → Result EnvError EnvState → EnvState
or_unchanged state (ok next) = next
or_unchanged state (err e) = state

unfoldable pub run_call : EnvState → EnvCall → EnvState
unfolding op_process_env_set op_process_env_delete or_unchanged
run_call state (sets key value) = or_unchanged state (op_process_env_set state key value)
run_call state (deletes key) = or_unchanged state (op_process_env_delete state key)

unfoldable pub run_calls : EnvState → List EnvCall → EnvState
unfolding run_call
run_calls state [] = state
run_calls state (call ∷ calls) = run_calls (run_call state call) calls

-- ===== src/Ops/Process/Refinement.antt =====
-- About the ops on `process.env` of Ops/Process: they are those of a map from keys to values.
use nexide.Prelude.{
  ◌≡◌, refl, sym, ap, ◌∙◌, not, ◌||◌, ◌&&◌, List, [], ◌∷◌, Option, none, some, if◌then◌else◌,
  Bool-cases, Option-cases, inl, inr, arith,
}
use nexide.Prelude.Text.{Text, text_eq}
use nexide.Ops.Request.{contains}
use nexide.Ops.Process.{
  insert_entry, set_entry, delete_entry, lookup, live_keys, deleted_keys, ProcessConfig, mem,
  is_visible, get, visible_keys, visible_only, insert_keys, EnvState, process_get, process_keys,
  op_process_env_get, is_some, op_process_env_has, op_process_env_keys, is_invalid_key,
  op_process_env_set, op_process_env_delete, EnvCall, sets, deletes, or_unchanged, run_call,
  run_calls,
}
use nexide.Ops.Process.Overlay.{
  lookup-insert_entry, AreDistinct, insert_entry-AreDistinct, mem-insert_keys, mem-remove_keys,
  mem-visible_only, says_live, says_deleted, mem-live_keys, mem-deleted_keys,
}

-- An environment as a map.
abbrev pub Env : Type 0
Env = Text → Option Text

unfoldable pub update : Text → Option Text → Env → Env
update key value e = λ k. if text_eq key k then value else e k

-- An op on the map: a key that is empty or has an equals sign or a NUL, or a value with a NUL,
-- changes nothing.
unfoldable pub apply_call : Env → EnvCall → Env
unfolding update
apply_call e (sets key value) =
    if is_invalid_key key || contains value 0 then e else update key (some value) e
apply_call e (deletes key) = if is_invalid_key key then e else update key none e

unfoldable pub apply_calls : Env → List EnvCall → Env
unfolding apply_call
apply_calls e [] = e
apply_calls e (call ∷ calls) = apply_calls (apply_call e call) calls

get-insert_entry :
    (st : EnvState) (key : Text) (value : Option Text) (k : Text)
    → op_process_env_get (record st { env_overlay = insert_entry key value st.env_overlay }) k
      ≡ (if text_eq key k then value else op_process_env_get st k)
unfolding op_process_env_get
get-insert_entry st key value k = elim (Bool-cases (text_eq key k)) [
  | inl t ↦ rw (op_process_env_get, lookup-insert_entry key value k st.env_overlay, t) refl
  | inr f ↦ rw (op_process_env_get, lookup-insert_entry key value k st.env_overlay, f) refl
]

-- The state after a call, if the call does nothing, and if it does.
module _ (st : EnvState) where
  run_call-sets :
      (key value : Text)
      → run_call st (sets key value) ≡ (
          if is_invalid_key key || contains value 0
          then st
          else record st { env_overlay = insert_entry key (some value) st.env_overlay })
  unfolding run_call op_process_env_set or_unchanged set_entry
  run_call-sets key value = elim (Bool-cases (is_invalid_key key)) [
    | inl t ↦ rw t refl
    | inr f ↦ elim (Bool-cases (contains value 0)) [
      | inl t ↦ rw (f, t) refl
      | inr g ↦ rw (f, g) refl
    ]
  ]

  run_call-deletes :
      (key : Text)
      → run_call st (deletes key) ≡ (
          if is_invalid_key key
          then st
          else record st { env_overlay = insert_entry key none st.env_overlay })
  unfolding run_call op_process_env_delete or_unchanged delete_entry
  run_call-deletes key = elim (Bool-cases (is_invalid_key key)) [
    | inl t ↦ rw t refl
    | inr f ↦ rw f refl
  ]

-- A state that stands for the map.
record Stands (process : Option ProcessConfig) (st : EnvState) (e : Env) : Type 0 where
  distinct : AreDistinct st.env_overlay
  same : st.process ≡ process
  reads : (k : Text) → op_process_env_get st k ≡ e k

module _ (process : Option ProcessConfig) where
  insert_entry-Stands :
      (st : EnvState) (e : Env) (key : Text) (value : Option Text)
      → Stands process st e
      → Stands process
          (record st { env_overlay = insert_entry key value st.env_overlay })
          (update key value e)
  unfolding update
  insert_entry-Stands st e key value s = record {
    distinct = insert_entry-AreDistinct key value st.env_overlay s.distinct;
    same = s.same;
    reads = λ k.
        get-insert_entry st key value k ∙ ap (λ o. if text_eq key k then value else o) (s.reads k);
  }

  run_call-Stands :
      (st : EnvState) (e : Env) (call : EnvCall)
      → Stands process st e
      → Stands process (run_call st call) (apply_call e call)
  unfolding apply_call
  run_call-Stands st e (sets key value) s =
      elim (Bool-cases (is_invalid_key key || contains value 0)) [
        | inl t ↦ rw (run_call-sets st key value, t) s
        | inr f ↦ rw (run_call-sets st key value, f) (insert_entry-Stands st e key (some value) s)
      ]
  run_call-Stands st e (deletes key) s = elim (Bool-cases (is_invalid_key key)) [
    | inl t ↦ rw (run_call-deletes st key, t) s
    | inr f ↦ rw (run_call-deletes st key, f) (insert_entry-Stands st e key none s)
  ]

  run_calls-Stands :
      (st : EnvState) (e : Env) (calls : List EnvCall)
      → Stands process st e
      → Stands process (run_calls st calls) (apply_calls e calls)
  unfolding run_calls apply_calls
  run_calls-Stands st e [] s = s
  run_calls-Stands st e (call ∷ calls) s =
      run_calls-Stands (run_call st call) (apply_call e call) calls (run_call-Stands st e call s)

has-get : (st : EnvState) (k : Text) → op_process_env_has st k ≡ is_some (op_process_env_get st k)
unfolding op_process_env_has op_process_env_get
has-get st k = elim (Option-cases (lookup k st.env_overlay)) [
  | inl e ↦ rw (op_process_env_has, op_process_env_get, e) refl
  | inr (o, e) ↦ rw (op_process_env_has, op_process_env_get, e) refl
]

-- The keys of the host's environment are those that have a value.
pub record IsConsistent (p : ProcessConfig) : Type 0 where
  pub bound : (key : Text) → mem key p.env.keys ≡ is_some (p.env.get key)

mem-visible_keys :
    (p : ProcessConfig) → IsConsistent p → (k : Text) → mem k (visible_keys p) ≡ is_some (get p k)
unfolding visible_keys get mem is_some
mem-visible_keys p c k =
    let listed = mem-insert_keys (visible_only p p.env.keys) k [] in
    let visible = mem-visible_only p k p.env.keys in
    let bound = c.bound k in
    elim (Bool-cases (is_visible p k)) [
      | inl t ↦ rw (get, t) (ground (arith, listed, visible, bound, t))
      | inr f ↦ rw (get, f) (ground (arith, listed, visible, f))
    ]

mem-process_keys :
    (process : Option ProcessConfig) (p : ProcessConfig)
    → IsConsistent p
    → process ≡ some p
    → (k : Text) → mem k (process_keys process) ≡ is_some (process_get process k)
unfolding process_keys process_get
mem-process_keys process p c e k = rw e (mem-visible_keys p c k)

-- An opinion of the overlay prevails.
overlaid : Option (Option Text) → Option Text → Option Text
overlaid (some o) own = o
overlaid none own = own

is_some-overlaid :
    (l : Option (Option Text)) (own : Option Text)
    → (not (says_deleted l) && (says_live l || is_some own)) ≡ is_some (overlaid l own)
unfolding says_deleted says_live is_some overlaid
is_some-overlaid none own = refl
is_some-overlaid (some none) own = refl
is_some-overlaid (some (some o)) own = refl

op_process_env_get-overlaid :
    (st : EnvState) (k : Text)
    → op_process_env_get st k ≡ overlaid (lookup k st.env_overlay) (process_get st.process k)
unfolding op_process_env_get overlaid
op_process_env_get-overlaid st k = elim (Option-cases (lookup k st.env_overlay)) [
  | inl e ↦ rw (op_process_env_get, e) refl
  | inr (o, e) ↦ rw (op_process_env_get, e) refl
]

mem-op_process_env_keys :
    (st : EnvState) (p : ProcessConfig)
    → IsConsistent p
    → st.process ≡ some p
    → AreDistinct st.env_overlay
    → (k : Text) → mem k (op_process_env_keys st) ≡ is_some (op_process_env_get st k)
unfolding op_process_env_keys
mem-op_process_env_keys st p c e d k =
    let o = st.env_overlay in
    let said = lookup k o in
    let keys = process_keys st.process in
    mem-remove_keys (deleted_keys o) k (insert_keys (live_keys o) keys)
    ∙ (ap (λ b. not b && mem k (insert_keys (live_keys o) keys)) (mem-deleted_keys k o d)
        ∙ (ap (λ b. not (says_deleted said) && b)
              (mem-insert_keys (live_keys o) k keys
                ∙ (ap (λ b. b || mem k keys) (mem-live_keys k o d)
                    ∙ ap (λ b. says_live said || b) (mem-process_keys st.process p c e k)))
            ∙ (is_some-overlaid said (process_get st.process k)
                ∙ ap is_some (sym (op_process_env_get-overlaid st k)))))

-- What the three queries answer for a key, given its value in the map.
pub record AgreesWith (st : EnvState) (value : Option Text) (key : Text) : Type 0 where
  pub reads : op_process_env_get st key ≡ value
  pub has : op_process_env_has st key ≡ is_some value
  pub lists : mem key (op_process_env_keys st) ≡ is_some value

-- If the host's environment lists exactly the keys that have a value: after any calls that set and
-- delete keys, starting with an empty overlay, the ops that read a key, test for it and list the keys
-- answer as the map does which starts with the visible part of the host's environment and is changed
-- by the same calls.
pub run_calls-AgreesWith :
    (p : ProcessConfig)
    → IsConsistent p
    → (calls : List EnvCall) (key : Text)
    → AgreesWith
        (run_calls (record { env_overlay = []; process = some p }) calls)
        (apply_calls (get p) calls key)
        key
unfolding AreDistinct lookup op_process_env_get process_get
run_calls-AgreesWith p c calls key =
    let start : EnvState = record { env_overlay = []; process = some p } in
    let s =
      run_calls-Stands (some p) start (get p) calls
        (record { distinct = tt; same = refl; reads = λ k. refl }) in
    let st = run_calls start calls in
    record {
      reads = s.reads key;
      has = has-get st key ∙ ap is_some (s.reads key);
      lists = mem-op_process_env_keys st p c s.same s.distinct key ∙ ap is_some (s.reads key);
    }

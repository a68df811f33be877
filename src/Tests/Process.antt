-- ===== src/Tests/Process.antt =====
-- Tests of the ops on `process.env`, and their property at a concrete input.
use nexide.Prelude.{
  ◌≡◌, refl, false, List, [], ◌∷◌, none, some, if◌then◌else◌, Bool-cases, inl, inr,
}
use nexide.Prelude.Text.{Text, text_eq}
use nexide.Ops.Process.{
  EnvSource, ProcessConfig, EnvState, EnvCall, sets, deletes, run_calls, op_process_env_get,
  op_process_env_keys, mem, is_some, get,
}
use nexide.Ops.Process.Refinement.{IsConsistent, AgreesWith, apply_calls, run_calls-AgreesWith}

abbrev tz : Text
tz = b'T' ∷ b'Z' ∷ []

abbrev secret : Text
secret = b'K' ∷ b'E' ∷ b'Y' ∷ []

abbrev own : Text
own = b'A' ∷ []

-- The host has a time zone and a secret.
abbrev host : EnvSource
host = record {
  get = λ key.
      if text_eq tz key
      then some (b'u' ∷ [])
      else if text_eq secret key
      then some (b's' ∷ [])
      else none;
  keys = tz ∷ secret ∷ [];
}

abbrev config : ProcessConfig
config = record {
  env = host;
  prefixes = (b'N' ∷ b'O' ∷ b'D' ∷ b'E' ∷ b'_' ∷ []) ∷ [];
  keys = tz ∷ [];
  cwd = b'/' ∷ [];
  platform = b'l' ∷ b'i' ∷ b'n' ∷ b'u' ∷ b'x' ∷ [];
  arch = b'x' ∷ b'6' ∷ b'4' ∷ [];
  allow_subprocess = false;
}

abbrev some_calls : List EnvCall
some_calls = sets own (b'1' ∷ []) ∷ deletes tz ∷ sets [] (b'2' ∷ []) ∷ []

abbrev start : EnvState
start = record { env_overlay = []; process = some config }

visible_at_first : op_process_env_keys start ≡ tz ∷ []
unfolding op_process_env_keys
visible_at_first = refl

own_at_last : op_process_env_keys (run_calls start some_calls) ≡ own ∷ []
unfolding op_process_env_keys run_calls
own_at_last = refl

secret_hidden : op_process_env_get start secret ≡ none
unfolding op_process_env_get
secret_hidden = refl

config-IsConsistent : IsConsistent config
unfolding mem is_some
config-IsConsistent = record {
  bound = λ key. elim (Bool-cases (text_eq tz key)) [
    | inl t ↦ rw t refl
    | inr f ↦ elim (Bool-cases (text_eq secret key)) [
      | inl t ↦ rw (f, t) refl
      | inr g ↦ rw (f, g) refl
    ]
  ];
}

run_calls-AgreesWith_example :
    AgreesWith (run_calls start some_calls) (apply_calls (get config) some_calls own) own
run_calls-AgreesWith_example = run_calls-AgreesWith config config-IsConsistent some_calls own

-- ===== src/Engine/Bridge/Draining.antt =====
-- `drain_pending_pops` of crates/nexide/src/engine/v8_engine/ops_bridge.rs. To resolve a promise may
-- run JavaScript, which can call the ops that take requests before the next round reads the state.
pub mod Fairness
use nexide.Prelude.{ℕ, zero, suc, List, [], ◌∷◌, ◌++◌, Option, none, some}
use nexide.Prelude.Options.{◌>>=◌}
use nexide.Ops.DispatchTable.{RequestId}
use nexide.Engine.Bridge.{
  BridgeState, Resolution, one, batch, op_pop_request, op_pop_request_batch,
  op_try_pop_request_batch, drain_round,
}

-- A call that JavaScript makes while a promise is resolved.
pub data PopCall : Type 0 where
  pop_call : ℕ → PopCall
  pop_batch_call : ℕ → ℕ → PopCall
  try_pop_call : ℕ → PopCall

-- What happens in a drain: the loop resolves a waiting promise, or a call of JavaScript takes ids
-- at once, or its promise has to wait.
pub data Entry : Type 0 where
  woken : Resolution → Entry
  taken : List RequestId → Entry
  parked : ℕ → Entry
  parked_batch : ℕ → Entry

-- The ids that a promise is resolved with.
abbrev pub ids_of : Resolution → List RequestId
ids_of (one resolver id) = id ∷ []
ids_of (batch resolver ids) = ids

-- The entry of a call with what it has resolved, or `waits` if that is nothing.
unfoldable pub entry_of : Entry → List Resolution → Entry
entry_of waits [] = waits
entry_of waits (r ∷ rs) = taken (ids_of r)

unfoldable pub run_pop : BridgeState → PopCall → BridgeState × Entry
unfolding op_pop_request op_pop_request_batch op_try_pop_request_batch entry_of
run_pop s (pop_call resolver) =
    let (s', done) = op_pop_request s resolver in (s', entry_of (parked resolver) done)
run_pop s (pop_batch_call resolver requested) =
    let (s', done) = op_pop_request_batch s resolver requested in
    (s', entry_of (parked_batch resolver) done)
run_pop s (try_pop_call requested) =
    let (s', ids) = op_try_pop_request_batch s requested in (s', taken ids)

unfoldable pub run_pops : BridgeState → List PopCall → BridgeState × List Entry
unfolding run_pop
run_pops s [] = (s, [])
run_pops s (c ∷ cs) = let (s', e) = run_pop s c in let (last, es) = run_pops s' cs in (last, e ∷ es)

-- A script says what JavaScript calls when a promise is resolved in a state.
abbrev pub Script : Type 0
Script = Resolution → BridgeState → List PopCall

-- What follows a round: the return, or the resolution of a promise and the further rounds.
unfoldable pub after_round :
    Script
    → (BridgeState → Option (BridgeState × List Entry))
    → BridgeState × Option Resolution
    → Option (BridgeState × List Entry)
unfolding run_pops
after_round js further (s, none) = some (s, [])
after_round js further (s, some r) =
    let (next, calls) = run_pops s (js r s) in
    further next >>= λ rest. some (rest.0, woken r ∷ (calls ++ rest.1))

-- `drain_pending_pops`, with fuel for its rounds; `none` is a loop that has not returned.
unfoldable pub drain_pending_pops : Script → ℕ → BridgeState → Option (BridgeState × List Entry)
unfolding drain_round after_round
drain_pending_pops js zero s = none
drain_pending_pops js (suc fuel) s = after_round js (drain_pending_pops js fuel) (drain_round s)

-- ===== src/Circuit/Serve.antt =====
-- webtor/src/circuit.rs: `get_ready_circuit`, `get_ready_circuit_and_mark_used` and
-- `get_circuit_for_isolation_key`, run without another task between their phases. A position in the
-- table stands for the circuit that is returned.
use webtor_rs.Base.{
  ℕ, Bool, true, false, not, ◌&&◌, List, Option, none, some, String, leb, if◌then◌else◌,
}
use webtor_rs.Base.Outcome.{ok}
use webtor_rs.Base.Action.{Action, ◌>>=◌}
use webtor_rs.Error.{TorError}
use webtor_rs.Relay.Target.{TargetApi}
use webtor_rs.Circuit.Table.{
  Circuit, set_isolation_key, update_last_used, is_ready, is_failed, is_closed, has_key, find_index,
  update_at, count,
}
use webtor_rs.Circuit.Create.{Network, Draw, Manager, create_circuit_with_isolation, create_circuit}

abbrev pub max_circuits_per_isolation_key : ℕ
max_circuits_per_isolation_key = 1

abbrev is_none : Option String → Bool
is_none none = true
is_none (some k) = false

module _ {T : Type 0} where
  abbrev pub ready_with_key : String → Circuit T → Bool
  ready_with_key key c = is_ready c && has_key key c.isolation_key

  abbrev pub ready_unassigned : Circuit T → Bool
  ready_unassigned c = is_ready c && is_none c.isolation_key

  abbrev pub live_with_key : String → Circuit T → Bool
  live_with_key key c = has_key key c.isolation_key && not (is_failed c) && not (is_closed c)

module _ {api : TargetApi} (network : Network api) (draw : Draw) (now : ℕ) where
  abbrev pub Call : Type 0 → Type 0
  Call A = Action (Manager network draw) TorError A

  unfoldable pub get_ready_circuit : Call ℕ
  get_ready_circuit m = elim (find_index is_ready m.circuits) [
    | some i ↦ (ok i, m)
    | none ↦ create_circuit network draw m
  ]

  -- `circuit.write().await` and a change, with the circuit returned.
  abbrev pub return_changed : (Circuit network.Tunnel → Circuit network.Tunnel) → ℕ → Call ℕ
  return_changed f i m = (ok i, record m { circuits = update_at i f m.circuits })

  unfoldable pub get_ready_circuit_and_mark_used : Call ℕ
  get_ready_circuit_and_mark_used = do
    i ← get_ready_circuit
    return_changed (update_last_used now) i

  -- Phase 4.
  unfoldable pub create_bound : String → Call ℕ
  create_bound key = do
    i ← create_circuit_with_isolation network draw (some key)
    return_changed (update_last_used now) i

  abbrev pub at_limit : String → List (Circuit network.Tunnel) → Bool
  at_limit key cs = leb max_circuits_per_isolation_key (count (live_with_key key) cs)

  -- Phase 3.
  unfoldable pub reuse_or_create : String → Call ℕ
  reuse_or_create key m =
      if at_limit key m.circuits
      then elim (find_index (live_with_key key) m.circuits) [
        | some i ↦ return_changed (update_last_used now) i m
        | none ↦ create_bound key m
      ]
      else create_bound key m

  abbrev pub bind_and_use : String → Circuit network.Tunnel → Circuit network.Tunnel
  bind_and_use key c = update_last_used now (set_isolation_key key c)

  -- Phase 2.
  unfoldable pub bind_or_create : String → Call ℕ
  bind_or_create key m = elim (find_index ready_unassigned m.circuits) [
    | some i ↦ return_changed (bind_and_use key) i m
    | none ↦ reuse_or_create key m
  ]

  -- Phase 1.
  unfoldable pub circuit_for_key : String → Call ℕ
  circuit_for_key key m = elim (find_index (ready_with_key key) m.circuits) [
    | some i ↦ return_changed (update_last_used now) i m
    | none ↦ bind_or_create key m
  ]

  unfoldable pub get_circuit_for_isolation_key : Option String → Call ℕ
  get_circuit_for_isolation_key none = get_ready_circuit_and_mark_used
  get_circuit_for_isolation_key (some key) = circuit_for_key key

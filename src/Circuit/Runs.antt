-- ===== src/Circuit/Runs.antt =====
-- Concrete runs of webtor/src/circuit.rs, and the theorems at concrete inputs.
use webtor_rs.Base.{ℕ, ◌≡◌, refl, true, [], ◌∷◌, ◌++◌, none, some, length}
use webtor_rs.Base.Outcome.{ok}
use webtor_rs.Relay.Criteria.{contains, has_all, has_none, eligible}
use webtor_rs.Relay.Manager.{candidates, place, sort_by_weight, select_relays, select_relay}
use webtor_rs.Relay.Target.{as_circ_target}
use webtor_rs.Circuit.Table.{
  Circuit, CircuitStatus, find_index, update_at, count, set_isolation_key,
}
use webtor_rs.Circuit.Create.{Manager, establish, create_circuit_with_isolation}
use webtor_rs.Circuit.Path.{IsPath, create_circuit-IsPath}
use webtor_rs.Circuit.Serve.{get_circuit_for_isolation_key, circuit_for_key, bind_or_create}
use webtor_rs.Circuit.Cleanup.{cleanup}
use webtor_rs.Circuit.Status.{get_circuit_status, maybe_prebuild_circuit}
use webtor_rs.Circuit.Kept.{cleanup_removes_every}
use webtor_rs.Circuit.Stable.{Evolves, get_circuit_for_isolation_key-Evolves}
use webtor_rs.Circuit.Toy.{zeros, network, first-Chooses, draw, manager, used_at, two}

create_first : (create_circuit_with_isolation network draw none (manager [])).0 ≡ ok 0
unfolding create_circuit_with_isolation establish select_relay select_relays candidates eligible
    contains has_all has_none place sort_by_weight as_circ_target zeros
create_first = refl

create_circuit-IsPath_example :
    (c : Circuit (Unit {0})) × ((create_circuit_with_isolation network draw none
        (manager [])).1.circuits
      ≡ [] ++ c ∷ [])
    × (0 ≡ length (manager []).circuits)
    × IsPath network draw c
create_circuit-IsPath_example =
    create_circuit-IsPath network draw none (manager []) 0 first-Chooses first-Chooses create_first

serve_second :
    (get_circuit_for_isolation_key network draw 9 (some "example.com") (manager two)).0 ≡ ok 1
unfolding get_circuit_for_isolation_key circuit_for_key bind_or_create find_index
serve_second = refl

get_circuit_for_isolation_key-Evolves_example :
    Evolves two
      (get_circuit_for_isolation_key network draw 9 (some "example.com") (manager two)).1.circuits
get_circuit_for_isolation_key-Evolves_example =
    get_circuit_for_isolation_key-Evolves network draw 9 (some "example.com") (manager two)

abbrev late : ℕ
late = 1_000_000_000_000

cleanup_removes_every_example :
    cleanup late (used_at 2 CircuitStatus.ready ∷ used_at 1 CircuitStatus.failed ∷ []) ≡ []
cleanup_removes_every_example =
    cleanup_removes_every late (used_at 2 CircuitStatus.ready) (used_at 1 CircuitStatus.failed ∷ [])
      refl (refl, tt) (λ e. cc)

-- An old circuit is ready, and there is room for another one.
abbrev aged : Manager network draw
aged = manager (used_at 0 CircuitStatus.ready ∷ [])

prebuild_spawns :
    maybe_prebuild_circuit late 5 600 aged ≡ (true, record aged { prebuild_in_progress = true })
unfolding maybe_prebuild_circuit get_circuit_status count
prebuild_spawns = refl

-- The table after the call for "example.com", with another unbound circuit behind.
abbrev after : Manager network draw
after =
    let m = (get_circuit_for_isolation_key network draw 9 (some "example.com") (manager two)).1 in
    record m { circuits = m.circuits ++ used_at 3 CircuitStatus.ready ∷ [] }

serve_third : (get_circuit_for_isolation_key network draw 10 (some "other.org") after).0 ≡ ok 2
unfolding get_circuit_for_isolation_key circuit_for_key bind_or_create find_index update_at
    set_isolation_key
serve_third = refl

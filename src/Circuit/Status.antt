-- ===== src/Circuit/Status.antt =====
-- webtor/src/circuit.rs: `get_circuit_status` and `maybe_prebuild_circuit`, whose task is a call of
-- its own.
use webtor_rs.Base.{
  ℕ, ◌+◌, ◌/◌, ◌≤◌, ◌≡◌, refl, ap, arith, none, Bool, true, false, List, [], ◌∷◌, length,
  length-append, leb, ltb, ◌==◌, if◌then◌else◌,
}
use webtor_rs.Base.Outcome.{Result, ok, err, panics, stuck}
use webtor_rs.Base.Words.{as_u32}
use webtor_rs.Error.{TorError}
use webtor_rs.Relay.Target.{TargetApi}
use webtor_rs.Circuit.Table.{
  Circuit, CircuitStatus, CircuitManager, is_ready, is_failed, age, count,
}
use webtor_rs.Circuit.Create.{
  Network, Draw, Manager, establish, create_circuit_with_isolation, create_circuit, push,
}

pub record CircuitStatusInfo : Type 0 where
  pub total_circuits : ℕ
  pub ready_circuits : ℕ
  pub creating_circuits : ℕ
  pub failed_circuits : ℕ
  pub average_circuit_age : ℕ

abbrev pub has_ready_circuits : CircuitStatusInfo → Bool
has_ready_circuits s = ltb 0 s.ready_circuits

abbrev is_creating_status : CircuitStatus → Bool
is_creating_status CircuitStatus.creating = true
is_creating_status _ = false

abbrev is_creating : {T : Type 0} → Circuit T → Bool
is_creating c = is_creating_status c.status

module _ (now : ℕ) where
  abbrev pub total_age : {T : Type 0} → List (Circuit T) → ℕ
  total_age [] = 0
  total_age (c ∷ cs) = age now c + total_age cs

  unfoldable pub get_circuit_status : {T C : Type 0} → CircuitManager T C → CircuitStatusInfo
  get_circuit_status m = record {
    total_circuits = length m.circuits;
    ready_circuits = count is_ready m.circuits;
    creating_circuits = count is_creating m.circuits;
    failed_circuits = count is_failed m.circuits;
    average_circuit_age =
        if length m.circuits == 0 then 0 else total_age m.circuits / as_u32 (length m.circuits);
  }

  -- The Boolean tells whether a task was spawned; `swap` leaves the flag set either way.
  unfoldable pub maybe_prebuild_circuit :
      {T C : Type 0} → ℕ → ℕ → CircuitManager T C → Bool × CircuitManager T C
  maybe_prebuild_circuit max_circuits age_threshold m =
      let status = get_circuit_status m in
      if status.ready_circuits == 0
      then (false, m)
      else if leb max_circuits status.total_circuits
      then (false, m)
      else if ltb status.average_circuit_age age_threshold
      then (false, m)
      else if m.prebuild_in_progress
      then (false, record m { prebuild_in_progress = true })
      else (true, record m { prebuild_in_progress = true })

module _ {api : TargetApi} (network : Network api) (draw : Draw) where
  -- The spawned task: a circuit is created, and the flag is cleared whatever came of it.
  unfoldable pub prebuild_task : Manager network draw → Manager network draw
  prebuild_task m =
      let (r, m') = create_circuit network draw m in record m' { prebuild_in_progress = false }

  pushed_within :
      (m : Manager network draw) (r : Result TorError (Circuit network.Tunnel))
      → length (push network draw m r).1.circuits ≤ length m.circuits + 1
  pushed_within m (ok c) = omega (arith, length-append m.circuits (c ∷ []))
  pushed_within m (err e) = omega arith
  pushed_within m panics = omega arith
  pushed_within m stuck = omega arith

  task_within :
      (m : Manager network draw) → length (prebuild_task m).circuits ≤ length m.circuits + 1
  unfolding prebuild_task create_circuit_with_isolation
  task_within m = pushed_within m (establish network draw none m)

  -- A call that spawns a task found a ready circuit and no task under way; until the task ends no
  -- other call spawns one, and when it ends the table holds at most `max_circuits` circuits and the
  -- flag is clear again.
  pub maybe_prebuild_circuit_within_limit :
      (now later max_circuits age_threshold other_max other_threshold : ℕ)
      (m m' : Manager network draw)
      → maybe_prebuild_circuit now max_circuits age_threshold m ≡ (true, m')
      → (has_ready_circuits (get_circuit_status now m) ≡ true)
        × (m.prebuild_in_progress ≡ false)
        × ((maybe_prebuild_circuit later other_max other_threshold m').0 ≡ false)
        × (length (prebuild_task m').circuits ≤ max_circuits)
        × ((prebuild_task m').prebuild_in_progress ≡ false)
  unfolding maybe_prebuild_circuit prebuild_task get_circuit_status
  maybe_prebuild_circuit_within_limit now later max_circuits age_threshold other_max other_threshold
        m m' e =
      let same : m' ≡ record m { prebuild_in_progress = true } = ground arith in
      let flag : m'.prebuild_in_progress ≡ true = ap (λ x. x.prebuild_in_progress) same in
      let size : length m'.circuits ≡ length m.circuits = ap (λ x. length x.circuits) same in
      let total : (get_circuit_status now m).total_circuits ≡ length m.circuits = refl in
      let room : length m.circuits + 1 ≤ max_circuits = ground arith in
      (ground arith, ground arith, ground arith, omega (arith, task_within m'), refl)

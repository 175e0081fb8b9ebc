-- ===== src/Circuit/Cleanup.antt =====
-- webtor/src/circuit.rs: `cleanup_circuits`.
use webtor_rs.Base.{ℕ, ◌*◌, ◌-◌, Bool, ◌&&◌, ◌||◌, List, [], ◌∷◌, length, ltb, if◌then◌else◌}
use webtor_rs.Circuit.Table.{Circuit, CircuitManager, is_failed, age, time_since_last_use}

abbrev pub max_age : ℕ
max_age = 3600 * 1_000_000_000

abbrev pub max_idle : ℕ
max_idle = 600 * 1_000_000_000

module _ {T : Type 0} (now : ℕ) where
  -- Failed or very old.
  abbrev pub is_expired : Circuit T → Bool
  is_expired c = is_failed c || ltb max_age (age now c)

  abbrev pub is_idle : Circuit T → Bool
  is_idle c = ltb max_idle (time_since_last_use now c)

  abbrev pub is_removed : ℕ → Circuit T → Bool
  is_removed remaining c = is_expired c || (is_idle c && ltb 1 remaining)

  -- The loop that collects the circuits to remove, and the removal: what is left of `cs`, given how
  -- many circuits remain.
  unfoldable pub keep_from : ℕ → List (Circuit T) → List (Circuit T)
  keep_from remaining [] = []
  keep_from remaining (c ∷ cs) =
      let fewer = keep_from (remaining - 1) cs in
      let same = keep_from remaining cs in if is_removed remaining c then fewer else c ∷ same

  unfoldable pub cleanup : List (Circuit T) → List (Circuit T)
  cleanup cs = keep_from (length cs) cs

  abbrev pub cleanup_circuits : {C : Type 0} → CircuitManager T C → CircuitManager T C
  cleanup_circuits m = record m { circuits = cleanup m.circuits }

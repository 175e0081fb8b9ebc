-- ===== src/Circuit/Stable.antt =====
-- The life of the table in webtor/src/circuit.rs: what a call for a circuit may do to the others.
use webtor_rs.Base.{
  ℕ, zero, suc, ◌≡◌, refl, ◌∙◌, arith, List, [], ◌∷◌, ◌++◌, Option, none, some, String, length,
  Bool-cases, Option-cases, inl, inr, ◌⊎◌,
}
use webtor_rs.Base.Outcome.{Result, ok, err, panics, stuck}
use webtor_rs.Base.Action.{◌>>=◌}
use webtor_rs.Error.{TorError}
use webtor_rs.Relay.Target.{TargetApi}
use webtor_rs.Circuit.Table.{
  Circuit, set_isolation_key, update_last_used, is_ready, find_index, update_at,
}
use webtor_rs.Circuit.Create.{
  Network, Draw, Manager, establish, create_circuit, create_circuit_with_isolation, push,
}
use webtor_rs.Circuit.Serve.{
  ready_with_key, ready_unassigned, live_with_key, bind_and_use, return_changed, create_bound,
  reuse_or_create, bind_or_create, circuit_for_key, get_circuit_for_isolation_key, at_limit,
  get_ready_circuit, get_ready_circuit_and_mark_used,
}

module _ {T : Type 0} where
  -- One circuit at two times: it is the same circuit through the same relays, and a key that it had
  -- it still has.
  abbrev pub Keeps : Circuit T → Circuit T → Type 0
  Keeps c d =
      (d.id ≡ c.id)
      × (d.relays ≡ c.relays)
      × (d.status ≡ c.status)
      × ((c.isolation_key ≡ none) ⊎ (d.isolation_key ≡ c.isolation_key))

  -- A table at two times: its circuits keep what they have, and new ones stand behind them.
  pub data Evolves : List (Circuit T) → List (Circuit T) → Type 0 where
    fresh : (new : List (Circuit T)) → Evolves [] new
    stays :
        {c d : Circuit T} {cs ds : List (Circuit T)}
        → Keeps c d
        → Evolves cs ds
        → Evolves (c ∷ cs) (d ∷ ds)

  Keeps-refl : (c : Circuit T) → Keeps c c
  Keeps-refl c = (refl, refl, refl, inr refl)

  Evolves-refl : (cs : List (Circuit T)) → Evolves cs cs
  Evolves-refl [] = fresh []
  Evolves-refl (c ∷ cs) = stays (Keeps-refl c) (Evolves-refl cs)

  pub Evolves-append : (cs new : List (Circuit T)) → Evolves cs (cs ++ new)
  Evolves-append [] new = fresh new
  Evolves-append (c ∷ cs) new = stays (Keeps-refl c) (Evolves-append cs new)

  Evolves-update_at :
      (f : Circuit T → Circuit T)
      → ((c : Circuit T) → Keeps c (f c))
      → (i : ℕ) (cs ds : List (Circuit T)) → Evolves cs ds
      → Evolves cs (update_at i f ds)
  unfolding update_at
  Evolves-update_at f h i cs ds (fresh new) = fresh _
  Evolves-update_at f h zero (c ∷ cs) (d ∷ ds) (stays k e) =
      let (a, b, s, w) = h d in stays (a ∙ k.0, b ∙ k.1, s ∙ k.2, ground (arith, w, k.3)) e
  Evolves-update_at f h (suc i) (c ∷ cs) (d ∷ ds) (stays k e) =
      stays k (Evolves-update_at f h i cs ds e)

  Keeps-used : (now : ℕ) (c : Circuit T) → Keeps c (update_last_used now c)
  Keeps-used now c = (refl, refl, refl, inr refl)

  Keeps-bound :
      (key : String) (now : ℕ) (c : Circuit T)
      → Keeps c (update_last_used now (set_isolation_key key c))
  unfolding set_isolation_key
  Keeps-bound key now c = go c.isolation_key refl
    where
      go :
          (o : Option String)
          → c.isolation_key ≡ o
          → Keeps c (update_last_used now (set_isolation_key key c))
      go none e = (ground arith, ground arith, ground arith, inl e)
      go (some k) e = (ground arith, ground arith, ground arith, inr (ground arith))

module _ {api : TargetApi} (network : Network api) (draw : Draw) (now : ℕ) where
  -- A call on a manager, seen from its table before.
  abbrev Changes : Manager network draw → Result TorError ℕ × Manager network draw → Type 0
  Changes m p = Evolves m.circuits p.1.circuits

  changed-Changes :
      (f : Circuit network.Tunnel → Circuit network.Tunnel)
      → ((c : Circuit network.Tunnel) → Keeps c (f c))
      → (i : ℕ) (m : Manager network draw) → Changes m (return_changed network draw now f i m)
  changed-Changes f h i m = Evolves-update_at f h i m.circuits m.circuits (Evolves-refl m.circuits)

  pushed-Changes :
      (m : Manager network draw) (r : Result TorError (Circuit network.Tunnel))
      → Changes m (
          ((λ m. push network draw m r)
              >>= (λ i. return_changed network draw now (update_last_used now) i))
            m)
  pushed-Changes m (ok c) =
      Evolves-update_at (update_last_used now) (Keeps-used now) (length m.circuits) m.circuits
        (m.circuits ++ c ∷ []) (Evolves-append m.circuits (c ∷ []))
  pushed-Changes m (err e) = Evolves-refl m.circuits
  pushed-Changes m panics = Evolves-refl m.circuits
  pushed-Changes m stuck = Evolves-refl m.circuits

  create_bound-Changes :
      (key : String) (m : Manager network draw) → Changes m (create_bound network draw now key m)
  unfolding create_bound create_circuit_with_isolation
  create_bound-Changes key m = pushed-Changes m (establish network draw (some key) m)

  reuse_or_create-Changes :
      (key : String) (m : Manager network draw) → Changes m (reuse_or_create network draw now key m)
  unfolding reuse_or_create
  reuse_or_create-Changes key m = elim (Bool-cases (at_limit network draw now key m.circuits)) [
    | inr room ↦ rw room (create_bound-Changes key m)
    | inl full ↦ elim (Option-cases (find_index (live_with_key key) m.circuits)) [
      | inl missing ↦ rw (full, missing, reuse_or_create) (create_bound-Changes key m)
      | inr (i, found) ↦
          rw (full, found, reuse_or_create)
            (changed-Changes (update_last_used now) (Keeps-used now) i m)
    ]
  ]

  bind_or_create-Changes :
      (key : String) (m : Manager network draw) → Changes m (bind_or_create network draw now key m)
  unfolding bind_or_create
  bind_or_create-Changes key m = elim (Option-cases (find_index ready_unassigned m.circuits)) [
    | inl missing ↦ rw (missing, bind_or_create) (reuse_or_create-Changes key m)
    | inr (i, found) ↦
        rw (found, bind_or_create)
          (changed-Changes (bind_and_use network draw now key) (Keeps-bound key now) i m)
  ]

  circuit_for_key-Changes :
      (key : String) (m : Manager network draw) → Changes m (circuit_for_key network draw now key m)
  unfolding circuit_for_key
  circuit_for_key-Changes key m = elim (Option-cases (find_index (ready_with_key key) m.circuits)) [
    | inl missing ↦ rw (missing, circuit_for_key) (bind_or_create-Changes key m)
    | inr (i, found) ↦
        rw (found, circuit_for_key) (changed-Changes (update_last_used now) (Keeps-used now) i m)
  ]

  abbrev found_or_created :
      Option ℕ → Manager network draw → Result TorError ℕ × Manager network draw
  found_or_created o m = elim o [ some i ↦ (ok i, m) | none ↦ create_circuit network draw m ]

  found_or_created-Changes :
      (o : Option ℕ) (m : Manager network draw)
      → Changes m (
          (found_or_created o >>= (λ i. return_changed network draw now (update_last_used now) i))
            m)
  unfolding create_circuit_with_isolation
  found_or_created-Changes none m = pushed-Changes m (establish network draw none m)
  found_or_created-Changes (some i) m = changed-Changes (update_last_used now) (Keeps-used now) i m

  mark_used-Changes :
      (m : Manager network draw) → Changes m (get_ready_circuit_and_mark_used network draw now m)
  unfolding get_ready_circuit_and_mark_used get_ready_circuit
  mark_used-Changes m = found_or_created-Changes (find_index is_ready m.circuits) m

  -- Whatever a call for a circuit does and returns, no circuit leaves the table, changes its relays or
  -- its status, or loses a key that it was bound to; new circuits stand behind the others.
  pub get_circuit_for_isolation_key-Evolves :
      (key : Option String) (m : Manager network draw)
      → Evolves m.circuits (get_circuit_for_isolation_key network draw now key m).1.circuits
  unfolding get_circuit_for_isolation_key
  get_circuit_for_isolation_key-Evolves none m = mark_used-Changes m
  get_circuit_for_isolation_key-Evolves (some key) m = circuit_for_key-Changes key m

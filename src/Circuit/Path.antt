-- ===== src/Circuit/Path.antt =====
-- The relays of a new circuit in webtor/src/circuit.rs.
use webtor_rs.Base.{
  ℕ, ◌≡◌, ◌≢◌, refl, sym, arith, true, List, [], ◌∷◌, ◌++◌, Option, none, some, String, length,
  ◌==◌, subst, Bool-cases, inl, inr,
}
use webtor_rs.Base.Outcome.{Result, ok, err, panics, stuck, >>=-ok}
use webtor_rs.Error.{TorError}
use webtor_rs.Relay.Criteria.{
  Relay, RelayCriteria, eligible, middle_relays, exit_relays, without_fingerprint,
}
use webtor_rs.Relay.Manager.{RelayManager, select_relay}
use webtor_rs.Relay.Selection.{
  Chooses, IsEligible, select_relay-IsEligible, eligible-fingerprint, contains-insert,
  contains-insert_old,
}
use webtor_rs.Relay.Target.{TargetApi}
use webtor_rs.Circuit.Table.{Circuit, is_ready, set_isolation_key}
use webtor_rs.Circuit.Create.{
  Network, Draw, Manager, create_circuit_with_isolation, push, establish, through, along, hops, hop,
  exit_hop, reach, first_hop, extend_to, ready_circuit, or_internal, or_none, bridge_relay,
  middle_criteria, exit_criteria,
}

module _ {api : TargetApi} (network : Network api) (draw : Draw) where
  -- How a new circuit came about: a tunnel, and a middle and an exit that were selected in turn.
  abbrev pub IsBuilt : Option String → RelayManager → Circuit network.Tunnel → Type 0
  IsBuilt key m c =
      (tunnel : network.Tunnel) × (bridge : String) × (middle exit : Relay) × (c
        ≡ ready_circuit network draw key tunnel (bridge_relay bridge ∷ middle ∷ exit ∷ []))
      × (select_relay draw.choose_middle m (middle_criteria bridge) ≡ ok middle)
      × (select_relay draw.choose_exit m (exit_criteria bridge middle.fingerprint) ≡ ok exit)

  hop-selected :
      (choose : List Relay → Option Relay) (m : RelayManager) (c : RelayCriteria)
      (tunnel : network.Tunnel) (r : Relay)
      → hop network draw choose m c tunnel ≡ ok r
      → select_relay choose m c ≡ ok r
  hop-selected choose m c tunnel r e =
      let (x, reached, selected) = >>=-ok (reach network draw tunnel) (select_relay choose m c) e in
      let (done, same, extended) =
        >>=-ok (λ done. ok x) (extend_to network draw tunnel x) reached in
      cc

  hops-selected :
      (m : RelayManager) (bridge : String) (tunnel : network.Tunnel) (path : Relay × Relay)
      → hops network draw m bridge tunnel ≡ ok path
      → (select_relay draw.choose_middle m (middle_criteria bridge) ≡ ok path.0)
        × (select_relay draw.choose_exit m (exit_criteria bridge path.0.fingerprint) ≡ ok path.1)
  hops-selected m bridge tunnel path e =
      let criteria = middle_criteria bridge in
      let (middle, e₁, p₁) =
        >>=-ok (exit_hop network draw m bridge tunnel)
          (hop network draw draw.choose_middle m criteria tunnel) e in
      let exits = exit_criteria bridge middle.fingerprint in
      let (exit, e₂, p₂) =
        >>=-ok (λ x. ok (middle, x)) (hop network draw draw.choose_exit m exits tunnel) e₁ in
      let same : (middle, exit) ≡ path = cc in
      subst
        (λ p.
          (select_relay draw.choose_middle m criteria ≡ ok p.0)
          × (select_relay draw.choose_exit m (exit_criteria bridge p.0.fingerprint) ≡ ok p.1))
        same
        (
          hop-selected draw.choose_middle m criteria tunnel middle p₁,
          hop-selected draw.choose_exit m exits tunnel exit p₂,
        )

  through-IsBuilt :
      (key : Option String) (m : RelayManager) (channel : network.Channel)
      (c : Circuit network.Tunnel)
      → through network draw key m channel ≡ ok c
      → IsBuilt key m c
  through-IsBuilt key m channel c e =
      let (tunnel, e₁, p₁) =
        >>=-ok (along network draw key m channel) (first_hop network draw channel) e in
      let bridge = or_none (network.rsa_identity channel) in
      let (path, e₂, p₂) =
        >>=-ok
          (λ p. ok (ready_circuit network draw key tunnel (bridge_relay bridge ∷ p.0 ∷ p.1 ∷ [])))
          (hops network draw m bridge tunnel) e₁ in
      let (selected, selected_exit) = hops-selected m bridge tunnel path p₂ in
      (tunnel, bridge, path.0, path.1, cc, selected, selected_exit)

  pub establish-IsBuilt :
      (key : Option String) (m : Manager network draw) (c : Circuit network.Tunnel)
      → establish network draw key m ≡ ok c
      → IsBuilt key m.relay_manager c
  unfolding establish
  establish-IsBuilt key m c e = elim (Bool-cases (length m.relay_manager.relays == 0)) [
    | inl empty ↦ ground arith
    | inr stocked ↦
        let e₀ = rw stocked at e in
        let (channel, e₁, p₁) =
          >>=-ok (through network draw key m.relay_manager)
            (or_internal m.channel "Channel not established") e₀ in
        through-IsBuilt key m.relay_manager channel c e₁
  ]

  -- The bridge, the middle and the exit of a new circuit are three relays with different
  -- fingerprints, the last two meet their criteria, and the circuit is ready.
  abbrev pub IsPath : Circuit network.Tunnel → Type 0
  IsPath c =
      (bridge middle exit : Relay) × (c.relays ≡ bridge ∷ middle ∷ exit ∷ [])
      × (middle.fingerprint ≢ bridge.fingerprint)
      × (exit.fingerprint ≢ bridge.fingerprint)
      × (exit.fingerprint ≢ middle.fingerprint)
      × IsEligible middle_relays middle
      × IsEligible exit_relays exit
      × (is_ready c ≡ true)

  hop_differs :
      (c : RelayCriteria) (fingerprint : String) (r : Relay)
      → IsEligible (without_fingerprint c fingerprint) r
      → (r.fingerprint ≢ fingerprint) × IsEligible c r
  unfolding eligible
  hop_differs c fingerprint r h =
      let excluded = eligible-fingerprint (without_fingerprint c fingerprint) r h in
      let there = contains-insert fingerprint c.exclude_fingerprints in
      let others = contains-insert_old r.fingerprint fingerprint c.exclude_fingerprints in
      (λ e. cc, ground arith)

  built-IsPath :
      (key : Option String) (m : RelayManager) (c : Circuit network.Tunnel)
      → Chooses draw.choose_middle
      → Chooses draw.choose_exit
      → IsBuilt key m c
      → IsPath c
  unfolding set_isolation_key
  built-IsPath key m c h k (tunnel, bridge, middle, exit, same, found, found_exit) =
      let (a, b) =
        hop_differs middle_relays bridge middle
          (select_relay-IsEligible draw.choose_middle m (middle_criteria bridge) middle h found) in
      let (p, q) = hop_differs (without_fingerprint exit_relays bridge) middle.fingerprint exit (
        select_relay-IsEligible draw.choose_exit m (exit_criteria bridge middle.fingerprint) exit k
          found_exit) in
      let (u, v) = hop_differs exit_relays bridge exit q in
      subst IsPath (sym same) (
        bridge_relay bridge,
        middle,
        exit,
        (bound key tunnel _).0,
        a,
        u,
        p,
        b,
        v,
        (bound key tunnel _).1,
      )
    where
      bound :
          (key : Option String) (tunnel : network.Tunnel) (relays : List Relay)
          → ((ready_circuit network draw key tunnel relays).relays ≡ relays)
            × (is_ready (ready_circuit network draw key tunnel relays) ≡ true)
      bound none tunnel relays = (refl, refl)
      bound (some k) tunnel relays = (refl, refl)

  -- A circuit that is created is ready and goes through three relays with different fingerprints: a
  -- bridge, and a middle and an exit that meet their criteria. The random choices are premised to pick
  -- from the list that they are given.
  pub create_circuit-IsPath :
      (key : Option String) (m : Manager network draw) (i : ℕ)
      → Chooses draw.choose_middle
      → Chooses draw.choose_exit
      → (create_circuit_with_isolation network draw key m).0 ≡ ok i
      → (c : Circuit network.Tunnel) × ((create_circuit_with_isolation network draw key
            m).1.circuits
          ≡ m.circuits ++ c ∷ [])
        × (i ≡ length m.circuits)
        × IsPath c
  unfolding create_circuit_with_isolation
  create_circuit-IsPath key m i h k = go (establish network draw key m) refl
    where
      go :
          (r : Result TorError (Circuit network.Tunnel))
          → establish network draw key m ≡ r
          → (push network draw m r).0 ≡ ok i
          → (c : Circuit network.Tunnel) × ((push network draw m r).1.circuits
              ≡ m.circuits ++ c ∷ [])
            × (i ≡ length m.circuits)
            × IsPath c
      go (ok c) e p =
          (c, refl, cc, built-IsPath key m.relay_manager c h k (establish-IsBuilt key m c e))
      go (err x) e p = cc
      go panics e p = cc
      go stuck e p = cc

-- ===== src/Circuit/Separation.antt =====
-- Stream isolation in webtor/src/circuit.rs: two keys do not share a circuit.
use webtor_rs.Base.{
  ℕ, zero, suc, ◌≡◌, ◌≢◌, refl, sym, subst, ◌∙◌, List, [], ◌∷◌, some, String, inl, inr,
}
use webtor_rs.Base.Outcome.{ok}
use webtor_rs.Relay.Target.{TargetApi}
use webtor_rs.Circuit.Table.{Circuit, get_elem?}
use webtor_rs.Circuit.Create.{Network, Draw, Manager}
use webtor_rs.Circuit.Serve.{get_circuit_for_isolation_key}
use webtor_rs.Circuit.Isolation.{get_circuit_for_isolation_key-IsServing}
use webtor_rs.Circuit.Stable.{Keeps, Evolves, fresh, stays, get_circuit_for_isolation_key-Evolves}

module _ {T : Type 0} where
  get_elem?-Evolves :
      (cs ds : List (Circuit T)) (i : ℕ) (c : Circuit T)
      → Evolves cs ds
      → get_elem? cs i ≡ some c
      → (d : Circuit T) × (get_elem? ds i ≡ some d) × Keeps c d
  unfolding get_elem?
  get_elem?-Evolves [] ds i c (fresh new) e = cc
  get_elem?-Evolves (b ∷ cs) [] i c v e = elim v [ ]
  get_elem?-Evolves (b ∷ cs) (d ∷ ds) zero c (stays k h) e =
      let same : b ≡ c = cc in (d, refl, subst (λ x. Keeps x d) same k)
  get_elem?-Evolves (b ∷ cs) (d ∷ ds) (suc i) c (stays k h) e = get_elem?-Evolves cs ds i c h e

  bound_still :
      (c d : Circuit T) (key : String)
      → Keeps c d
      → c.isolation_key ≡ some key
      → d.isolation_key ≡ some key
  bound_still c d key k e = elim k.3 [ inl free ↦ cc | inr same ↦ same ∙ e ]

-- A circuit that was returned for one key is not returned for another one, by a call on any table
-- that the first call's table has become.
pub get_circuit_for_isolation_key-separate :
    {api : TargetApi} (network : Network api) (draw draw' : Draw) (now now' : ℕ)
    (key other : String) (m : Manager network draw) (m' : Manager network draw') (i j : ℕ)
    → key ≢ other
    → (get_circuit_for_isolation_key network draw now (some key) m).0 ≡ ok i
    → Evolves (get_circuit_for_isolation_key network draw now (some key) m).1.circuits m'.circuits
    → (get_circuit_for_isolation_key network draw' now' (some other) m').0 ≡ ok j
    → i ≢ j
get_circuit_for_isolation_key-separate network draw draw' now now' key other m m' i j h e v e'
      same =
    let (c, at_i, serving) = get_circuit_for_isolation_key-IsServing network draw now key m i e in
    let (d, at_i', k) = get_elem?-Evolves _ m'.circuits i c v at_i in
    let w = get_circuit_for_isolation_key-Evolves network draw' now' (some other) m' in
    let (x, at_x, k') = get_elem?-Evolves m'.circuits _ i d w at_i' in
    let (y, at_j, serving') =
      get_circuit_for_isolation_key-IsServing network draw' now' other m' j e' in
    let mine = bound_still d x key k' (bound_still c d key k serving.0) in
    let at_i'' =
      subst
        (λ n.
          get_elem? (get_circuit_for_isolation_key network draw' now' (some other) m').1.circuits n
          ≡ some y)
        (sym same) at_j in
    let one : x ≡ y = cc in
    let both : some key ≡ some other =
      sym mine ∙ subst (λ z. z.isolation_key ≡ some other) (sym one) serving'.0 in
    h cc

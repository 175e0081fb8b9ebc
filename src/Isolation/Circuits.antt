-- ===== src/Isolation/Circuits.antt =====
-- Requests for URLs that the policy of webtor/src/isolation.rs separates, on the circuits of
-- webtor/src/circuit.rs.
use webtor_rs.Base.{ℕ, ◌≡◌, ◌≢◌, refl, sym, ap, ◌∙◌, subst, some, String}
use webtor_rs.Base.Outcome.{ok}
use webtor_rs.Relay.Target.{TargetApi}
use webtor_rs.Circuit.Create.{Network, Draw, Manager}
use webtor_rs.Circuit.Serve.{get_circuit_for_isolation_key}
use webtor_rs.Circuit.Stable.{Evolves}
use webtor_rs.Circuit.Separation.{get_circuit_for_isolation_key-separate}
use webtor_rs.Isolation.{
  StreamIsolationPolicy, per_domain, per_subdomain, per_origin, no_isolation, Url, Hosts, from_url,
}
use webtor_rs.Isolation.Groups.{SameGroup, IsUrl, from_url-SameGroup}

isolating :
    (hosts : Hosts) (policy : StreamIsolationPolicy) (u v : Url)
    → ¬ SameGroup hosts policy u v
    → policy ≢ no_isolation
isolating hosts per_origin u v h e = cc
isolating hosts per_subdomain u v h e = cc
isolating hosts per_domain u v h e = cc
isolating hosts no_isolation u v h e = h tt

has_key :
    (hosts : Hosts) (policy : StreamIsolationPolicy) (u : Url)
    → policy ≢ no_isolation
    → (key : String) × (from_url hosts u policy ≡ some key)
unfolding from_url
has_key hosts per_origin u h = (_, refl)
has_key hosts per_subdomain u h = (_, refl)
has_key hosts per_domain u h = (_, refl)
has_key hosts no_isolation u h = absurd (h refl)

-- A circuit that was returned for one URL is not returned for another one that the policy separates
-- from it, by a call on any table that the first call's table has become.
pub get_circuit_for_isolation_key-apart :
    {api : TargetApi} (network : Network api) (draw draw' : Draw) (now now' : ℕ) (hosts : Hosts)
    (policy : StreamIsolationPolicy) (u v : Url) (m : Manager network draw)
    (m' : Manager network draw') (i j : ℕ)
    → IsUrl u
    → IsUrl v
    → ¬ SameGroup hosts policy u v
    → (get_circuit_for_isolation_key network draw now (from_url hosts u policy) m).0 ≡ ok i
    → Evolves
        (get_circuit_for_isolation_key network draw now (from_url hosts u policy) m).1.circuits
        m'.circuits
    → (get_circuit_for_isolation_key network draw' now' (from_url hosts v policy) m').0 ≡ ok j
    → i ≢ j
get_circuit_for_isolation_key-apart network draw draw' now now' hosts policy u v m m' i j p q h e w
      e' =
    let (key, k) = has_key hosts policy u (isolating hosts policy u v h) in
    let (other, o) = has_key hosts policy v (isolating hosts policy u v h) in
    get_circuit_for_isolation_key-separate network draw draw' now now' key other m m' i j
      (λ same. h ((from_url-SameGroup hosts policy u v p q).0 (k ∙ ap some same ∙ sym o)))
      (subst (λ x. (get_circuit_for_isolation_key network draw now x m).0 ≡ ok i) k e)
      (subst
        (λ x. Evolves (get_circuit_for_isolation_key network draw now x m).1.circuits m'.circuits) k
        w)
      (subst (λ x. (get_circuit_for_isolation_key network draw' now' x m').0 ≡ ok j) o e')

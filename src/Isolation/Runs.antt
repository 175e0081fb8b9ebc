-- ===== src/Isolation/Runs.antt =====
-- The theorems on webtor/src/isolation.rs at concrete inputs.
use webtor_rs.Base.{ℕ, ◌≡◌, ◌≢◌, refl, arith, false, [], ◌∷◌, ◌++◌, none, some, String}
use webtor_rs.Base.Outcome.{ok}
use webtor_rs.Circuit.Table.{CircuitStatus, find_index, update_at, set_isolation_key}
use webtor_rs.Circuit.Create.{Manager}
use webtor_rs.Circuit.Serve.{get_circuit_for_isolation_key, circuit_for_key, bind_or_create}
use webtor_rs.Circuit.Stable.{Evolves-append}
use webtor_rs.Isolation.{Url, Hosts, per_subdomain, host_of, port_of, from_url}
use webtor_rs.Isolation.Groups.{SameGroup, IsUrl, from_url-SameGroup}
use webtor_rs.Isolation.Circuits.{get_circuit_for_isolation_key-apart}
use webtor_rs.Circuit.Toy.{network, draw, manager, used_at, two}

serve_second :
    (get_circuit_for_isolation_key network draw 9 (some "example.com") (manager two)).0 ≡ ok 1
unfolding get_circuit_for_isolation_key circuit_for_key bind_or_create find_index
serve_second = refl

-- The table after the call for "example.com", with another unbound circuit behind.
abbrev after : Manager network draw
after =
    let m = (get_circuit_for_isolation_key network draw 9 (some "example.com") (manager two)).1 in
    record m { circuits = m.circuits ++ used_at 3 CircuitStatus.ready ∷ [] }

serve_third : (get_circuit_for_isolation_key network draw 10 (some "other.org") after).0 ≡ ok 2
unfolding get_circuit_for_isolation_key circuit_for_key bind_or_create find_index update_at
    set_isolation_key
serve_third = refl

-- URLs of the two hosts.
abbrev url_of : String → Url
url_of host = record {
  scheme = "https";
  host_str = some host;
  port_or_known_default = some 443;
  path = "/";
  query = none;
}

abbrev hosts : Hosts
hosts = record {
  is_ip_addr = λ host. false;
  in_brackets = λ host. false;
  psl_domain = λ host. some host;
}

url_key : (host : String) → from_url hosts (url_of host) per_subdomain ≡ some host
unfolding from_url host_of
url_key host = refl

url_of-IsUrl : (host : String) → IsUrl (url_of host)
unfolding port_of
url_of-IsUrl host = record { plain_scheme = omega arith; small_port = omega arith }

from_url-SameGroup_example :
    SameGroup hosts per_subdomain (url_of "example.com") (url_of "example.com")
from_url-SameGroup_example =
    (from_url-SameGroup hosts per_subdomain (url_of "example.com") (url_of "example.com")
        (url_of-IsUrl "example.com") (url_of-IsUrl "example.com")).0
      refl

other_hosts : ¬ SameGroup hosts per_subdomain (url_of "example.com") (url_of "other.org")
unfolding host_of
other_hosts e = cc

get_circuit_for_isolation_key-apart_example : ◌≢◌ {A = ℕ} 1 2
get_circuit_for_isolation_key-apart_example =
    get_circuit_for_isolation_key-apart network draw draw 9 10 hosts per_subdomain
      (url_of "example.com") (url_of "other.org") (manager two) after 1 2
      (url_of-IsUrl "example.com") (url_of-IsUrl "other.org") other_hosts
      (rw (url_key "example.com") serve_second)
      (rw (url_key "example.com") (
        Evolves-append
          (get_circuit_for_isolation_key network draw 9 (some "example.com")
            (manager two)).1.circuits
          (used_at 3 CircuitStatus.ready ∷ [])))
      (rw (url_key "other.org") serve_third)

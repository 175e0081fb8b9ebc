-- ===== src/Circuit/Toy.antt =====
-- A network, relays and circuits for tests of webtor/src/circuit.rs.
use text.Mathlib.Text.{◌==◌ as str_eq}
use webtor_rs.Base.{
  ℕ, zero, suc, refl, true, false, List, [], ◌∷◌, Option, none, some, String, if◌then◌else◌,
}
use webtor_rs.Relay.Criteria.{Relay, new_relay}
use webtor_rs.Relay.Selection.{Chooses}
use webtor_rs.Relay.Target.{TargetApi}
use webtor_rs.Circuit.Table
use webtor_rs.Circuit.Table.{
  Circuit, CircuitStatus, CircuitManager, find_index, get_elem?, update_at, count,
  set_isolation_key,
}
use webtor_rs.Circuit.Create.{Network, Draw, Manager}

unfoldable pub zeros : ℕ → List ℕ
zeros zero = []
zeros (suc n) = 0 ∷ zeros n

-- Keys are the text "k" and all other texts are identities.
abbrev pub api : TargetApi
api = record {
  Ip = Unit {0};
  RsaId = Unit {0};
  EdId = Unit {0};
  NtorKey = Unit {0};
  CircTarget = Unit {0};
  parse_ip = λ s. some tt;
  hex_decode = λ s. if str_eq s "k" then some (zeros 32) else some (zeros 20);
  rsa_from_bytes = λ bytes. some tt;
  ed_from_bytes = λ bytes. some tt;
  ntor_from_bytes = λ bytes. tt;
  build = λ parts. some tt;
}

abbrev pub network : Network api
network = record {
  Channel = Unit {0};
  PendingTunnel = Unit {0};
  Tunnel = Unit {0};
  ClientCirc = Unit {0};
  CircParameters = Unit {0};
  new_tunnel = λ c. some tt;
  circ_params = some tt;
  create_firsthop_fast = λ p c. some tt;
  rsa_identity = λ c. some "bridge";
  as_single_circ = λ t. some tt;
  extend = λ c t p. true;
}

abbrev pub first : List Relay → Option Relay
first [] = none
first (r ∷ rs) = some r

pub first-Chooses : Chooses first
first-Chooses r rs = ([], rs, r, refl, refl)

abbrev pub draw : Draw
draw = record { circuit_id = "circuit_1"; choose_middle = first; choose_exit = first; created = 7 }

abbrev pub relay : String → List String → Relay
relay fingerprint flags = new_relay fingerprint "r" "10.0.0.1" 9001 flags "k"

abbrev pub manager : List (Circuit (Unit {0})) → Manager network draw
manager circuits = record {
  circuits = circuits;
  relay_manager = record {
    relays =
        relay "middle" ("Fast" ∷ "Stable" ∷ "V2Dir" ∷ [])
        ∷ relay "exit" ("Fast" ∷ "Stable" ∷ "Exit" ∷ "V2Dir" ∷ [])
        ∷ [];
  };
  channel = some tt;
  prebuild_in_progress = false;
}

abbrev pub used_at : ℕ → CircuitStatus → Circuit (Unit {0})
used_at t status = record (Table.new "c" (some tt) t) { status = status }

-- A failed circuit and one that is ready and not bound.
abbrev pub two : List (Circuit (Unit {0}))
two = used_at 1 CircuitStatus.failed ∷ used_at 2 CircuitStatus.ready ∷ []

-- ===== src/Circuit/Create.antt =====
-- webtor/src/circuit.rs: `create_circuit_with_isolation`. What the Tor crates do on the network is a
-- parameter; an answer `none` or `false` stands for an error.
use webtor_rs.Base.{
  ℕ, Bool, true, false, List, [], ◌∷◌, ◌++◌, Option, none, some, String, length, ◌==◌,
  if◌then◌else◌,
}
use webtor_rs.Base.Outcome.{Result, ok, err, panics, stuck, ◌>>=◌}
use webtor_rs.Base.Action.{Action}
use webtor_rs.Error.{TorError}
use webtor_rs.Relay.Criteria.{
  Relay, RelayCriteria, new_relay, middle_relays, exit_relays, without_fingerprint,
}
use webtor_rs.Relay.Manager.{RelayManager, select_relay}
use webtor_rs.Relay.Target.{TargetApi, as_circ_target}
use webtor_rs.Circuit.Table
use webtor_rs.Circuit.Table.{Circuit, CircuitStatus, CircuitManager, set_isolation_key}

pub record Network (api : TargetApi) : Type 1 where
  pub Channel : Type 0
  pub PendingTunnel : Type 0
  pub Tunnel : Type 0
  pub ClientCirc : Type 0
  pub CircParameters : Type 0
  pub new_tunnel : Channel → Option PendingTunnel
  -- `make_circ_params()`, which builds constants.
  pub circ_params : Option CircParameters
  pub create_firsthop_fast : PendingTunnel → CircParameters → Option Tunnel
  -- The RSA identity of the channel's target, in hexadecimal digits.
  pub rsa_identity : Channel → Option String
  pub as_single_circ : Tunnel → Option ClientCirc
  pub extend : ClientCirc → api.CircTarget → CircParameters → Bool

-- What a call draws from its surroundings: the id, the two random picks and the clock.
pub record Draw : Type 0 where
  pub circuit_id : String
  pub choose_middle : List Relay → Option Relay
  pub choose_exit : List Relay → Option Relay
  pub created : ℕ

abbrev pub or_internal : {A : Type 0} → Option A → String → Result TorError A
or_internal (some a) m = ok a
or_internal none m = err (TorError.internal m)

abbrev pub ensure : Bool → String → Result TorError (Unit {0})
ensure true m = ok tt
ensure false m = err (TorError.internal m)

abbrev no_fingerprint : String
no_fingerprint = "0000000000000000000000000000000000000000"

abbrev no_key : String
no_key = "0000000000000000000000000000000000000000000000000000000000000000"

abbrev pub or_none : Option String → String
or_none (some fingerprint) = fingerprint
or_none none = no_fingerprint

abbrev pub bridge_relay : String → Relay
bridge_relay fingerprint = new_relay fingerprint "Snowflake" "0.0.0.0" 0 [] no_key

abbrev pub middle_criteria : String → RelayCriteria
middle_criteria bridge = without_fingerprint middle_relays bridge

abbrev pub exit_criteria : String → String → RelayCriteria
exit_criteria bridge middle = without_fingerprint (without_fingerprint exit_relays bridge) middle

module _ {api : TargetApi} (network : Network api) (draw : Draw) where
  open network use {
    Channel, Tunnel, CircParameters, new_tunnel, circ_params, create_firsthop_fast, rsa_identity,
    as_single_circ, extend,
  }

  abbrev pub Manager : Type 0
  Manager = CircuitManager Tunnel Channel

  abbrev pub first_hop : Channel → Result TorError Tunnel
  first_hop channel = do
    pending ← or_internal (new_tunnel channel) "Failed to create pending tunnel"
    params ← or_internal circ_params "Failed to build circuit parameters"
    or_internal (create_firsthop_fast pending params) "Failed to create first hop"

  abbrev pub extend_to : Tunnel → Relay → Result TorError (Unit {0})
  extend_to tunnel relay = do
    target ← as_circ_target api relay
    params ← or_internal circ_params "Failed to build circuit parameters"
    circ ← or_internal (as_single_circ tunnel) "Failed to get single circ for extend"
    ensure (extend circ target params) "Failed to extend"

  -- A relay is selected and becomes the next hop.
  abbrev pub reach : Tunnel → Relay → Result TorError Relay
  reach tunnel relay = extend_to tunnel relay >>= (λ done. ok relay)

  abbrev pub hop :
      (List Relay → Option Relay) → RelayManager → RelayCriteria → Tunnel → Result TorError Relay
  hop choose m criteria tunnel = select_relay choose m criteria >>= reach tunnel

  abbrev pub exit_hop : RelayManager → String → Tunnel → Relay → Result TorError (Relay × Relay)
  exit_hop m bridge tunnel middle =
      hop draw.choose_exit m (exit_criteria bridge middle.fingerprint) tunnel
      >>= (λ exit. ok (middle, exit))

  -- The relays behind the bridge: the middle, and then the exit.
  abbrev pub hops : RelayManager → String → Tunnel → Result TorError (Relay × Relay)
  hops m bridge tunnel =
      hop draw.choose_middle m (middle_criteria bridge) tunnel >>= exit_hop m bridge tunnel

  abbrev pub bind : Option String → Circuit Tunnel → Circuit Tunnel
  bind none c = c
  bind (some key) c = set_isolation_key key c

  abbrev pub ready_circuit : Option String → Tunnel → List Relay → Circuit Tunnel
  ready_circuit key tunnel relays =
      bind key (record (Table.new draw.circuit_id (some tunnel) draw.created) {
        relays = relays;
        status = CircuitStatus.ready;
      })

  -- From the first hop on.
  abbrev pub along :
      Option String → RelayManager → Channel → Tunnel → Result TorError (Circuit Tunnel)
  along key m channel tunnel =
      let bridge = or_none (rsa_identity channel) in
      hops m bridge tunnel
      >>= (λ path. ok (ready_circuit key tunnel (bridge_relay bridge ∷ path.0 ∷ path.1 ∷ [])))

  abbrev pub through : Option String → RelayManager → Channel → Result TorError (Circuit Tunnel)
  through key m channel = first_hop channel >>= along key m channel

  -- Everything up to the new circuit's place in the table.
  unfoldable pub establish : Option String → Manager → Result TorError (Circuit Tunnel)
  establish key m =
      if length m.relay_manager.relays == 0
      then err (TorError.internal "No relays available")
      else (or_internal m.channel "Channel not established" >>= through key m.relay_manager)

  abbrev pub push : Manager → Result TorError (Circuit Tunnel) → Result TorError ℕ × Manager
  push m (ok c) = (ok (length m.circuits), record m { circuits = m.circuits ++ (c ∷ []) })
  push m (err e) = (err e, m)
  push m panics = (panics, m)
  push m stuck = (stuck, m)

  unfoldable pub create_circuit_with_isolation : Option String → Action Manager TorError ℕ
  create_circuit_with_isolation key m = push m (establish key m)

  abbrev pub create_circuit : Action Manager TorError ℕ
  create_circuit = create_circuit_with_isolation none

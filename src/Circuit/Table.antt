-- ===== src/Circuit/Table.antt =====
-- webtor/src/circuit.rs: `Circuit`, `CircuitStatus` and the table of `CircuitManager`. An
-- `Arc<RwLock<Circuit>>` is the position of the circuit in the table; an `Instant` is a number of
-- nanoseconds, and the current one is an argument
-- `now`, and `elapsed` stops at 0 as in a native build. An `IsolationKey` of
-- webtor/src/isolation.rs is its string.
use text.Mathlib.Text.{◌==◌ as str_eq}
use webtor_rs.Base.{
  ℕ, zero, suc, ◌-◌, Bool, true, false, List, [], ◌∷◌, Option, none, some, String, if◌then◌else◌,
}
use webtor_rs.Relay.Criteria.{Relay}
use webtor_rs.Relay.Manager.{RelayManager}

pub data CircuitStatus : Type 0 where
  creating ready extending failed closed : CircuitStatus

module _ (Tunnel : Type 0) where
  pub record Circuit : Type 0 where
    pub id : String
    pub status : CircuitStatus
    pub created_at : ℕ
    pub last_used : ℕ
    pub relays : List Relay
    pub internal_circuit : Option Tunnel
    pub isolation_key : Option String

  pub record CircuitManager (Channel : Type 0) : Type 0 where
    pub circuits : List Circuit
    pub relay_manager : RelayManager
    pub channel : Option Channel
    pub prebuild_in_progress : Bool

abbrev pub new : {Tunnel : Type 0} → String → Option Tunnel → ℕ → Circuit Tunnel
new id internal_circuit now = record {
  id = id;
  status = CircuitStatus.creating;
  created_at = now;
  last_used = now;
  relays = [];
  internal_circuit = internal_circuit;
  isolation_key = none;
}

abbrev pub is_ready_status : CircuitStatus → Bool
is_ready_status CircuitStatus.ready = true
is_ready_status _ = false

abbrev pub is_failed_status : CircuitStatus → Bool
is_failed_status CircuitStatus.failed = true
is_failed_status _ = false

abbrev pub is_closed_status : CircuitStatus → Bool
is_closed_status CircuitStatus.closed = true
is_closed_status _ = false

abbrev pub has_key : String → Option String → Bool
has_key key none = false
has_key key (some k) = str_eq k key

module _ {Tunnel : Type 0} where
  -- Binds a circuit once.
  unfoldable pub set_isolation_key : String → Circuit Tunnel → Circuit Tunnel
  set_isolation_key key c = elim c.isolation_key [
    | none ↦ record c { isolation_key = some key }
    | some k ↦ c
  ]

  abbrev pub age : ℕ → Circuit Tunnel → ℕ
  age now c = now - c.created_at

  abbrev pub time_since_last_use : ℕ → Circuit Tunnel → ℕ
  time_since_last_use now c = now - c.last_used

  abbrev pub update_last_used : ℕ → Circuit Tunnel → Circuit Tunnel
  update_last_used now c = record c { last_used = now }

  abbrev pub is_ready : Circuit Tunnel → Bool
  is_ready c = is_ready_status c.status

  abbrev pub is_failed : Circuit Tunnel → Bool
  is_failed c = is_failed_status c.status

  abbrev pub is_closed : Circuit Tunnel → Bool
  is_closed c = is_closed_status c.status

  -- `for circuit in circuits.iter()` up to the first circuit that passes the test.
  unfoldable pub find_index : (Circuit Tunnel → Bool) → List (Circuit Tunnel) → Option ℕ
  find_index p [] = none
  find_index p (c ∷ cs) =
      let rest = find_index p cs in
      if p c then some 0 else elim rest [ none ↦ none | some i ↦ some (suc i) ]

  unfoldable pub get_elem? : List (Circuit Tunnel) → ℕ → Option (Circuit Tunnel)
  get_elem? [] i = none
  get_elem? (c ∷ cs) zero = some c
  get_elem? (c ∷ cs) (suc i) = get_elem? cs i

  -- A change through the lock of the circuit at a position.
  unfoldable pub update_at :
      ℕ → (Circuit Tunnel → Circuit Tunnel) → List (Circuit Tunnel) → List (Circuit Tunnel)
  update_at i f [] = []
  update_at zero f (c ∷ cs) = f c ∷ cs
  update_at (suc i) f (c ∷ cs) = c ∷ update_at i f cs

  unfoldable pub count : (Circuit Tunnel → Bool) → List (Circuit Tunnel) → ℕ
  count p [] = 0
  count p (c ∷ cs) = if p c then suc (count p cs) else count p cs

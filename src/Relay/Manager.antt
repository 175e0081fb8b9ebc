-- ===== src/Relay/Manager.antt =====
-- webtor/src/relay.rs: `RelayManager`.
use text.Mathlib.Text.{◌==◌ as str_eq}
use webtor_rs.Base.{List, [], ◌∷◌, Option, none, some, String, leb, take, if◌then◌else◌}
use webtor_rs.Base.Outcome.{Result, ok, err, ◌>>=◌}
use webtor_rs.Error.{TorError}
use webtor_rs.Relay.Criteria.{Relay, RelayCriteria, eligible}

pub record RelayManager : Type 0 where
  pub relays : List Relay

-- `iter().filter(..).collect()`
unfoldable pub candidates : RelayCriteria → List Relay → List Relay
candidates c [] = []
candidates c (r ∷ rs) = let rest = candidates c rs in if eligible c r then r ∷ rest else rest

-- The stable sort by falling consensus weight: a relay goes before the first lighter one or one that
-- is as heavy and came later.
unfoldable pub place : Relay → List Relay → List Relay
place r [] = r ∷ []
place r (s ∷ rs) =
    let rest = place r rs in
    if leb s.consensus_weight r.consensus_weight then r ∷ s ∷ rs else s ∷ rest

unfoldable pub sort_by_weight : List Relay → List Relay
sort_by_weight [] = []
sort_by_weight (r ∷ rs) = place r (sort_by_weight rs)

abbrev none_match : TorError
none_match = TorError.relay_selection "No relays match the selection criteria"

abbrev pub select_from : RelayCriteria → List Relay → Result TorError (List Relay)
select_from c [] = err none_match
select_from c (r ∷ rs) = ok (take c.max_selection (sort_by_weight (r ∷ rs)))

unfoldable pub select_relays : RelayManager → RelayCriteria → Result TorError (List Relay)
select_relays m c = select_from c (candidates c m.relays)

-- `choose` of the rand crate stands as an argument: the random pick from a slice.
abbrev pub pick : (List Relay → Option Relay) → List Relay → Result TorError Relay
pick choose [] = err (TorError.relay_selection "No suitable relays found")
pick choose (r ∷ rs) = elim (choose (r ∷ rs)) [
  | some picked ↦ ok picked
  | none ↦ err (TorError.relay_selection "Failed to choose random relay")
]

unfoldable pub select_relay :
    (List Relay → Option Relay) → RelayManager → RelayCriteria → Result TorError Relay
select_relay choose m c = select_relays m c >>= pick choose

unfoldable pub find_relay : String → List Relay → Option Relay
find_relay fingerprint [] = none
find_relay fingerprint (r ∷ rs) =
    if str_eq r.fingerprint fingerprint then some r else find_relay fingerprint rs

abbrev pub get_relay : RelayManager → String → Option Relay
get_relay m fingerprint = find_relay fingerprint m.relays

abbrev pub update_relays : RelayManager → List Relay → RelayManager
update_relays m relays = record { relays = relays }

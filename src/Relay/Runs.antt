-- ===== src/Relay/Runs.antt =====
-- Concrete runs of webtor/src/relay.rs, and the theorems at concrete inputs.
use webtor_rs.Base.{◌≡◌, refl, List, [], ◌∷◌, Option, none, some, String}
use webtor_rs.Base.Outcome.{ok}
use webtor_rs.Relay.Criteria
use webtor_rs.Relay.Criteria.{
  Relay, new_relay, contains, has_all, has_none, eligible, with_max_selection,
}
use webtor_rs.Relay.Manager.{
  RelayManager, candidates, place, sort_by_weight, select_relays, select_relay,
}
use webtor_rs.Relay.Selection.{Selects, select_relays-Selects, Chooses}

abbrev exit_flags : List String
exit_flags = "Fast" ∷ "Stable" ∷ "Exit" ∷ []

abbrev light : Relay
light = record (new_relay "A" "a" "10.0.0.1" 9001 exit_flags "00") { consensus_weight = 1 }

abbrev heavy : Relay
heavy = record (new_relay "B" "b" "10.0.0.2" 9001 exit_flags "00") { consensus_weight = 9 }

-- An exit that the criteria reject.
abbrev bad : Relay
bad = new_relay "C" "c" "10.0.0.3" 9001 ("BadExit" ∷ exit_flags) "00"

abbrev manager : RelayManager
manager = record { relays = light ∷ bad ∷ heavy ∷ [] }

select_heaviest :
    select_relays manager (with_max_selection Criteria.exit_relays 1) ≡ ok (heavy ∷ [])
unfolding select_relays candidates eligible has_all has_none contains place sort_by_weight
select_heaviest = refl

select_relays-Selects_example :
    Selects manager (with_max_selection Criteria.exit_relays 1) (heavy ∷ [])
select_relays-Selects_example =
    select_relays-Selects manager (with_max_selection Criteria.exit_relays 1) (heavy ∷ [])
      select_heaviest

abbrev first : List Relay → Option Relay
first [] = none
first (r ∷ rs) = some r

first-Chooses : Chooses first
first-Chooses r rs = ([], rs, r, refl, refl)

select_one : select_relay first manager Criteria.exit_relays ≡ ok heavy
unfolding select_relay select_relays candidates eligible has_all has_none contains place
    sort_by_weight
select_one = refl

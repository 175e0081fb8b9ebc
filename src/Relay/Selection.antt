-- ===== src/Relay/Selection.antt =====
-- What `RelayManager::select_relays` and `select_relay` of webtor/src/relay.rs return.
use mathlib.Core.List.{Perm}
use mathlib.Core.List.Perm
use text.Mathlib.TextPositions.{eq_refl}
use webtor_rs.Base.{
  ℕ, zero, suc, ◌≡◌, refl, subst, arith, true, false, List, [], ◌∷◌, ◌++◌, Option, some, String,
  take, drop, length, min, All, Bool-cases, inl, inr, ◌↔◌, take-append-drop, length-take,
}
use webtor_rs.Base.Outcome.{ok, err, >>=-ok}
use webtor_rs.Error.{TorError}
use webtor_rs.Relay.Criteria.{Relay, RelayCriteria, eligible, contains, insert}
use webtor_rs.Relay.Manager.{
  RelayManager, candidates, sort_by_weight, select_from, select_relays, pick, select_relay,
}
use webtor_rs.Relay.Fit.{IsFit, candidates-perm, All-candidates-IsFit}
use webtor_rs.Relay.Sorting.{
  IsSorted, sort_by_weight-IsSorted, sort_by_weight-perm, All-sort_by_weight,
}

select_from-Selects :
    (c : RelayCriteria) (cs selected : List Relay)
    → All (IsFit c) cs
    → select_from c cs ≡ ok selected
    → (left_out : List Relay) × Perm (selected ++ left_out) cs
      × All (IsFit c) (selected ++ left_out)
      × IsSorted (selected ++ left_out)
      × (length selected ≡ min c.max_selection (length (selected ++ left_out)))
select_from-Selects c [] selected h e = cc
select_from-Selects c (r ∷ rs) selected h e =
    let sorted = sort_by_weight (r ∷ rs) in
    let p : take c.max_selection sorted ≡ selected = cc in
    let whole : selected ++ drop c.max_selection sorted ≡ sorted =
      rw (← p) (take-append-drop c.max_selection sorted) in
    (
      drop c.max_selection sorted,
      rw whole (sort_by_weight-perm (r ∷ rs)),
      rw whole (All-sort_by_weight (IsFit c) (r ∷ rs) h),
      rw whole (sort_by_weight-IsSorted (r ∷ rs)),
      rw (whole, ← p) (omega (arith, length-take c.max_selection sorted)),
    )

-- The result of a selection among the relays: those that fit the criteria are the selected ones and
-- those left out, with the heaviest first and none left out that is heavier than a selected one; the
-- others do not fit. As many are selected as are asked for, or as fit.
abbrev pub Selects : RelayManager → RelayCriteria → List Relay → Type 0
Selects m c selected =
    (left_out : List Relay) × (refused : List Relay) × Perm ((selected ++ left_out) ++ refused)
      m.relays
    × All (IsFit c) (selected ++ left_out)
    × All (λ r. ¬ IsFit c r) refused
    × IsSorted (selected ++ left_out)
    × (length selected ≡ min c.max_selection (length (selected ++ left_out)))

-- A successful selection is the heaviest part of the relays that fit the criteria, heaviest first: they
-- have all needed flags, none of the excluded ones and the bandwidth, and are not excluded themselves.
-- No relay that fits is lost, and as many are selected as are asked for, or as fit.
pub select_relays-Selects :
    (m : RelayManager) (c : RelayCriteria) (selected : List Relay)
    → select_relays m c ≡ ok selected
    → Selects m c selected
unfolding select_relays
select_relays-Selects m c selected e =
    let cs = candidates c m.relays in
    let (left_out, p, fits, sorted, n) =
      select_from-Selects c cs selected (All-candidates-IsFit c m.relays) e in
    let (refused, q, other) = candidates-perm c m.relays in
    (left_out, refused, Perm.trans (Perm.append_right refused p) q, fits, other, sorted, n)

module _ {κ} (P : Relay → Type κ) where
  All-take : (n : ℕ) (rs : List Relay) → All P rs → All P (take n rs)
  All-take zero rs h = tt
  All-take (suc n) [] h = tt
  All-take (suc n) (r ∷ rs) h = (h.0, All-take n rs h.1)

abbrev pub IsEligible : RelayCriteria → Relay → Type 0
IsEligible c r = eligible c r ≡ true

All-candidates : (c : RelayCriteria) (rs : List Relay) → All (IsEligible c) (candidates c rs)
unfolding candidates
All-candidates c [] = tt
All-candidates c (r ∷ rs) = elim (Bool-cases (eligible c r)) [
  | inl fits ↦ rw fits (fits, All-candidates c rs)
  | inr other ↦ rw other (All-candidates c rs)
]

select_from-IsEligible :
    (c : RelayCriteria) (cs selected : List Relay)
    → All (IsEligible c) cs
    → select_from c cs ≡ ok selected
    → All (IsEligible c) selected
select_from-IsEligible c [] selected h e = cc
select_from-IsEligible c (r ∷ rs) selected h e =
    let p : take c.max_selection (sort_by_weight (r ∷ rs)) ≡ selected = cc in
    subst (All (IsEligible c)) p
      (All-take (IsEligible c) c.max_selection _ (All-sort_by_weight (IsEligible c) (r ∷ rs) h))

-- Every selected relay meets the criteria.
select_relays-IsEligible :
    (m : RelayManager) (c : RelayCriteria) (selected : List Relay)
    → select_relays m c ≡ ok selected
    → All (IsEligible c) selected
unfolding select_relays
select_relays-IsEligible m c selected e =
    select_from-IsEligible c (candidates c m.relays) selected (All-candidates c m.relays) e

-- What the documentation of `choose` says: it picks an element of a slice that is not empty.
abbrev pub Chooses : (List Relay → Option Relay) → Type 0
Chooses choose =
    (r : Relay) (rs : List Relay)
    → (before after : List Relay) × (picked : Relay) × (choose (r ∷ rs) ≡ some picked)
      × (r ∷ rs ≡ before ++ picked ∷ after)

All-middle :
    (P : Relay → Type 0) (before after : List Relay) (r : Relay) → All P (before ++ r ∷ after) → P r
All-middle P [] after r h = h.0
All-middle P (b ∷ before) after r h = All-middle P before after r h.1

pick-All :
    (P : Relay → Type 0) (choose : List Relay → Option Relay) (rs : List Relay) (r : Relay)
    → Chooses choose
    → pick choose rs ≡ ok r
    → All P rs
    → P r
pick-All P choose [] r h e hs = cc
pick-All P choose (x ∷ xs) r h e hs =
    let (before, after, picked, chosen, split) = h x xs in
    let same : picked ≡ r = ground arith in
    subst P same (All-middle P before after picked (subst (All P) split hs))

-- A relay that is selected at random meets the criteria.
pub select_relay-IsEligible :
    (choose : List Relay → Option Relay) (m : RelayManager) (c : RelayCriteria) (r : Relay)
    → Chooses choose
    → select_relay choose m c ≡ ok r
    → IsEligible c r
unfolding select_relay
select_relay-IsEligible choose m c r h e =
    let (rs, chosen, found) = >>=-ok (pick choose) (select_relays m c) e in
    pick-All (IsEligible c) choose rs r h chosen (select_relays-IsEligible m c rs found)

candidates-none :
    (c : RelayCriteria) (rs : List Relay)
    → candidates c rs ≡ []
    → All (λ r. eligible c r ≡ false) rs
unfolding candidates
candidates-none c [] = λ e. tt
candidates-none c (r ∷ rs) = elim (Bool-cases (eligible c r)) [
  | inl fits ↦ rw fits (λ e. cc)
  | inr other ↦ rw other (λ e. (refl, candidates-none c rs e))
]

none-candidates :
    (c : RelayCriteria) (rs : List Relay)
    → All (λ r. eligible c r ≡ false) rs
    → candidates c rs ≡ []
unfolding candidates
none-candidates c [] h = refl
none-candidates c (r ∷ rs) h = rw h.0 (none-candidates c rs h.1)

select_from-err :
    (c : RelayCriteria) (cs : List Relay) (e : TorError) → select_from c cs ≡ err e → cs ≡ []
select_from-err c [] e h = refl
select_from-err c (r ∷ rs) e h = cc

-- The selection fails exactly where no relay meets the criteria.
pub select_relays_fails_iff :
    (m : RelayManager) (c : RelayCriteria)
    → ((e : TorError) × (select_relays m c ≡ err e)) ↔ All (λ r. eligible c r ≡ false) m.relays
unfolding select_relays
select_relays_fails_iff m c = (
  λ p. candidates-none c m.relays (select_from-err c (candidates c m.relays) p.0 p.1),
  λ h. (
    TorError.relay_selection "No relays match the selection criteria",
    rw (none-candidates c m.relays h),
  ),
)

-- What a relay that meets the criteria is known not to be.
pub eligible-fingerprint :
    (c : RelayCriteria) (r : Relay)
    → eligible c r ≡ true
    → contains c.exclude_fingerprints r.fingerprint ≡ false
unfolding eligible
eligible-fingerprint c r e = ground arith

pub contains-insert : (x : String) (xs : List String) → contains (insert x xs) x ≡ true
unfolding contains
contains-insert x xs = ground (arith, eq_refl x)

pub contains-insert_old :
    (x y : String) (xs : List String) → contains xs x ≡ true → contains (insert y xs) x ≡ true
unfolding contains
contains-insert_old x y xs h = ground arith

-- ===== src/Relay/Sorting.antt =====
-- The stable sort of `select_relays` in webtor/src/relay.rs.
use mathlib.Core.List.{Perm}
use mathlib.Core.List.Perm
use webtor_rs.Base.{
  ℕ, ◌+◌, ◌≤◌, ◌≡◌, refl, arith, List, [], ◌∷◌, leb, length, All, Bool-cases, inl, inr,
}
use webtor_rs.Relay.Criteria.{Relay}
use webtor_rs.Relay.Manager.{place, sort_by_weight}

-- Heaviest first.
abbrev pub IsSorted : List Relay → Type 0
IsSorted [] = Unit {0}
IsSorted (r ∷ rs) = All (λ s. s.consensus_weight ≤ r.consensus_weight) rs × IsSorted rs

abbrev pub Below : ℕ → List Relay → Type 0
Below n = All (λ s. s.consensus_weight ≤ n)

Below-mono : (m n : ℕ) (rs : List Relay) → m ≤ n → Below m rs → Below n rs
Below-mono m n [] h b = tt
Below-mono m n (r ∷ rs) h b = (omega arith, Below-mono m n rs h b.1)

Below-place :
    (n : ℕ) (r : Relay) (rs : List Relay)
    → r.consensus_weight ≤ n
    → Below n rs
    → Below n (place r rs)
unfolding place
Below-place n r [] h b = (h, tt)
Below-place n r (s ∷ rs) h b = ground (arith, Below-place n r rs h b.1)

place-IsSorted : (r : Relay) (rs : List Relay) → IsSorted rs → IsSorted (place r rs)
unfolding place
place-IsSorted r [] h = (tt, tt)
place-IsSorted r (s ∷ rs) h = ground (
  arith,
  place-IsSorted r rs h.1,
  Below-mono s.consensus_weight r.consensus_weight rs,
  Below-place s.consensus_weight r rs,
)

pub sort_by_weight-IsSorted : (rs : List Relay) → IsSorted (sort_by_weight rs)
unfolding sort_by_weight
sort_by_weight-IsSorted [] = tt
sort_by_weight-IsSorted (r ∷ rs) = place-IsSorted r (sort_by_weight rs) (sort_by_weight-IsSorted rs)

place-perm : (r : Relay) (rs : List Relay) → Perm (place r rs) (r ∷ rs)
unfolding place
place-perm r [] = Perm.refl (r ∷ [])
place-perm r (s ∷ rs) = elim (Bool-cases (leb s.consensus_weight r.consensus_weight)) [
  | inl first ↦ rw first (Perm.refl (r ∷ s ∷ rs))
  | inr later ↦ rw later (Perm.trans (Perm.cons s (place-perm r rs)) (Perm.swap r s rs))
]

pub sort_by_weight-perm : (rs : List Relay) → Perm (sort_by_weight rs) rs
unfolding sort_by_weight
sort_by_weight-perm [] = Perm.refl []
sort_by_weight-perm (r ∷ rs) =
    Perm.trans (place-perm r (sort_by_weight rs)) (Perm.cons r (sort_by_weight-perm rs))

length-place : (r : Relay) (rs : List Relay) → length (place r rs) ≡ 1 + length rs
unfolding place
length-place r [] = refl
length-place r (s ∷ rs) = ground (arith, length-place r rs)

pub length-sort_by_weight : (rs : List Relay) → length (sort_by_weight rs) ≡ length rs
unfolding sort_by_weight
length-sort_by_weight [] = refl
length-sort_by_weight (r ∷ rs) =
    omega (arith, length-place r (sort_by_weight rs), length-sort_by_weight rs)

module _ {κ} (P : Relay → Type κ) where
  All-place : (r : Relay) (rs : List Relay) → P r → All P rs → All P (place r rs)
  unfolding place
  All-place r [] h hs = (h, tt)
  All-place r (s ∷ rs) h hs = elim (Bool-cases (leb s.consensus_weight r.consensus_weight)) [
    | inl first ↦ rw first (h, hs)
    | inr later ↦ rw later (hs.0, All-place r rs h hs.1)
  ]

  pub All-sort_by_weight : (rs : List Relay) → All P rs → All P (sort_by_weight rs)
  unfolding sort_by_weight
  All-sort_by_weight [] h = tt
  All-sort_by_weight (r ∷ rs) h = All-place r (sort_by_weight rs) h.0 (All-sort_by_weight rs h.1)

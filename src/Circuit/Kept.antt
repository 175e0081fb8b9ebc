-- ===== src/Circuit/Kept.antt =====
-- What `cleanup_circuits` of webtor/src/circuit.rs leaves in the table.
use webtor_rs.Base.{
  ℕ, ◌+◌, ◌-◌, ◌≤◌, ◌<◌, ◌≡◌, ◌≢◌, refl, arith, true, false, List, [], ◌∷◌, length, ltb, Bool-cases,
  inl, inr, ◌⊎◌, All,
}
use webtor_rs.Circuit.Table.{Circuit}
use webtor_rs.Circuit.Cleanup.{is_expired, is_idle, is_removed, keep_from, cleanup}

module _ {T : Type 0} (now : ℕ) where
  -- What a cleanup may leave of a table: the circuits in their order, with every circuit that is
  -- neither expired nor idle, and without every one that is expired.
  pub data Cleans : List (Circuit T) → List (Circuit T) → Type 0 where
    done : Cleans [] []
    kept :
        {c : Circuit T} {cs ds : List (Circuit T)}
        → is_expired now c ≡ false
        → Cleans cs ds
        → Cleans (c ∷ cs) (c ∷ ds)
    removed :
        {c : Circuit T} {cs ds : List (Circuit T)}
        → (is_expired now c ≡ true) ⊎ (is_idle now c ≡ true)
        → Cleans cs ds
        → Cleans (c ∷ cs) ds

  keep_from-Cleans : (n : ℕ) (cs : List (Circuit T)) → Cleans cs (keep_from now n cs)
  unfolding keep_from
  keep_from-Cleans n [] = done
  keep_from-Cleans n (c ∷ cs) = elim (Bool-cases (is_removed now n c)) [
    | inl goes ↦ rw goes (removed (ground arith) (keep_from-Cleans (n - 1) cs))
    | inr stays ↦ rw stays (kept (ground arith) (keep_from-Cleans n cs))
  ]

  -- A cleanup removes every failed and every old circuit and some idle ones, and leaves every other
  -- circuit where it was in the order.
  pub cleanup-Cleans : (cs : List (Circuit T)) → Cleans cs (cleanup now cs)
  unfolding cleanup
  cleanup-Cleans cs = keep_from-Cleans (length cs) cs

  -- The count `n` covers the circuits still to visit and those that were kept.
  keep_from_leaves :
      (n : ℕ) (cs : List (Circuit T))
      → All (λ c. is_expired now c ≡ false) cs
      → length cs ≤ n
      → 1 ≤ n
      → 1 ≤ length (keep_from now n cs) + (n - length cs)
  unfolding keep_from
  keep_from_leaves n [] h k l = omega arith
  keep_from_leaves n (c ∷ cs) h k l = elim (Bool-cases (is_removed now n c)) [
    | inl goes ↦
        let more : 1 < n = ground (arith, h.0) in
        rw goes (omega (arith, keep_from_leaves (n - 1) cs h.1 (omega arith) (omega arith)))
    | inr stays ↦ rw stays (omega arith)
  ]

  -- Where no circuit is failed or old, a cleanup leaves at least one of them.
  pub cleanup_keeps_one :
      (cs : List (Circuit T))
      → All (λ c. is_expired now c ≡ false) cs
      → cs ≢ []
      → 1 ≤ length (cleanup now cs)
  unfolding cleanup
  cleanup_keeps_one [] h k = absurd (k refl)
  cleanup_keeps_one (c ∷ cs) h k =
      omega (arith, keep_from_leaves (length (c ∷ cs)) (c ∷ cs) h (omega arith) (omega arith))

  keep_from_expired :
      (n : ℕ) (cs : List (Circuit T))
      → All (λ c. is_expired now c ≡ true) cs
      → keep_from now n cs ≡ []
  unfolding keep_from
  keep_from_expired n [] h = refl
  keep_from_expired n (c ∷ cs) h = ground (arith, h.0, keep_from_expired (n - 1) cs h.1)

  -- An idle circuit with only failed or old circuits behind it is removed with them, although no
  -- circuit is left then.
  pub cleanup_removes_every :
      (c : Circuit T) (cs : List (Circuit T))
      → is_idle now c ≡ true
      → All (λ d. is_expired now d ≡ true) cs
      → cs ≢ []
      → cleanup now (c ∷ cs) ≡ []
  unfolding cleanup keep_from
  cleanup_removes_every c [] h k l = absurd (l refl)
  cleanup_removes_every c (d ∷ ds) h k l =
      let two : ltb 1 (length (c ∷ d ∷ ds)) ≡ true = ground arith in
      let goes : is_removed now (length (c ∷ d ∷ ds)) c ≡ true = ground arith in
      rw goes (keep_from_expired (length (c ∷ d ∷ ds) - 1) (d ∷ ds) k)

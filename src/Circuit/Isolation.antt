-- ===== src/Circuit/Isolation.antt =====
-- Stream isolation in webtor/src/circuit.rs: `get_circuit_for_isolation_key` returns a circuit of the
-- key that it is given.
use text.Mathlib.TextEquality.{eq_iff}
use webtor_rs.Base.{
  ℕ, zero, suc, ◌≡◌, refl, ap, sym, subst, arith, Bool, true, false, List, [], ◌∷◌, ◌++◌, Option,
  none, some, String, length, Bool-cases, Option-cases, inl, inr,
}
use webtor_rs.Base.Outcome.{Result, ok, err, panics, stuck}
use webtor_rs.Base.Action.{◌>>=◌}
use webtor_rs.Error.{TorError}
use webtor_rs.Relay.Target.{TargetApi}
use webtor_rs.Circuit.Table.{
  Circuit, CircuitStatus, set_isolation_key, update_last_used, is_ready, is_failed, is_closed,
  is_ready_status, is_failed_status, is_closed_status, has_key, find_index, get_elem?, update_at,
}
use webtor_rs.Circuit.Create.{
  Network, Draw, Manager, establish, create_circuit_with_isolation, push,
}
use webtor_rs.Circuit.Path.{establish-IsBuilt}
use webtor_rs.Circuit.Serve.{
  ready_with_key, ready_unassigned, live_with_key, bind_and_use, return_changed, create_bound,
  reuse_or_create, bind_or_create, circuit_for_key, get_circuit_for_isolation_key, at_limit,
}

has_key-some : (key : String) (o : Option String) → has_key key o ≡ true → o ≡ some key
has_key-some key none e = cc
has_key-some key (some k) e = ap some ((eq_iff k key).0 e)

live_status :
    (s : CircuitStatus)
    → is_ready_status s ≡ true
    → (is_failed_status s ≡ false) × (is_closed_status s ≡ false)
live_status CircuitStatus.creating e = cc
live_status CircuitStatus.ready e = (refl, refl)
live_status CircuitStatus.extending e = cc
live_status CircuitStatus.failed e = cc
live_status CircuitStatus.closed e = cc

module _ {T : Type 0} where
  find_index-some :
      (p : Circuit T → Bool) (cs : List (Circuit T)) (i : ℕ)
      → find_index p cs ≡ some i
      → (c : Circuit T) × (get_elem? cs i ≡ some c) × (p c ≡ true)
  unfolding find_index get_elem?
  find_index-some p [] i e = cc
  find_index-some p (c ∷ cs) i e = elim (Bool-cases (p c)) [
    | inl here ↦ (c, ground arith, here)
    | inr later ↦ elim (Option-cases (find_index p cs)) [
      | inl missing ↦ ground arith
      | inr (j, found) ↦
          let (d, at_j, passes) = find_index-some p cs j found in
          let next : suc j ≡ i = ground arith in (d, rw (← next) at_j, passes)
    ]
  ]

  get_elem?-update_at :
      (cs : List (Circuit T)) (i : ℕ) (f : Circuit T → Circuit T) (c : Circuit T)
      → get_elem? cs i ≡ some c
      → get_elem? (update_at i f cs) i ≡ some (f c)
  unfolding get_elem? update_at
  get_elem?-update_at [] i f c e = cc
  get_elem?-update_at (d ∷ cs) zero f c e = ground arith
  get_elem?-update_at (d ∷ cs) (suc i) f c e = get_elem?-update_at cs i f c e

  get_elem?-append :
      (cs : List (Circuit T)) (c : Circuit T) → get_elem? (cs ++ c ∷ []) (length cs) ≡ some c
  unfolding get_elem?
  get_elem?-append [] c = refl
  get_elem?-append (d ∷ cs) c = get_elem?-append cs c

  -- A circuit that serves `key` at the time `now`.
  abbrev pub IsServing : String → ℕ → Circuit T → Type 0
  IsServing key now c =
      (c.isolation_key ≡ some key)
      × (c.last_used ≡ now)
      × (is_failed c ≡ false)
      × (is_closed c ≡ false)

  abbrev IsLive : Circuit T → Type 0
  IsLive c = (is_failed c ≡ false) × (is_closed c ≡ false)

  IsServing-ready :
      (key : String) (now : ℕ) (c : Circuit T)
      → ready_with_key key c ≡ true
      → IsServing key now (update_last_used now c)
  IsServing-ready key now c e =
      let ready : is_ready c ≡ true = ground arith in
      let keyed : has_key key c.isolation_key ≡ true = ground arith in
      let (open_c, live_c) = live_status c.status ready in
      (has_key-some key c.isolation_key keyed, refl, open_c, live_c)

  IsServing-live :
      (key : String) (now : ℕ) (c : Circuit T)
      → live_with_key key c ≡ true
      → IsServing key now (update_last_used now c)
  IsServing-live key now c e =
      let keyed : has_key key c.isolation_key ≡ true = ground arith in
      (has_key-some key c.isolation_key keyed, refl, ground arith, ground arith)

  IsServing-unassigned :
      (key : String) (now : ℕ) (c : Circuit T)
      → ready_unassigned c ≡ true
      → IsServing key now (update_last_used now (set_isolation_key key c))
  unfolding set_isolation_key
  IsServing-unassigned key now c e =
      let (open_c, live_c) = live_status c.status (ground arith) in
      go c.isolation_key refl open_c live_c
    where
      go :
          (o : Option String)
          → c.isolation_key ≡ o
          → is_failed c ≡ false
          → is_closed c ≡ false
          → IsServing key now (update_last_used now (set_isolation_key key c))
      go none free a b = (ground arith, refl, ground arith, ground arith)
      go (some k) bound a b = ground arith

module _ {api : TargetApi} (network : Network api) (draw : Draw) (now : ℕ) where
  -- The outcome of a call: where it returns a circuit, that circuit stands in the table and serves
  -- the key.
  abbrev Serves : String → Result TorError ℕ × Manager network draw → Type 0
  Serves key p =
      (i : ℕ)
      → p.0 ≡ ok i
      → (c : Circuit network.Tunnel) × (get_elem? p.1.circuits i ≡ some c) × IsServing key now c

  changed-Serves :
      (key : String) (p : Circuit network.Tunnel → Bool)
      (f : Circuit network.Tunnel → Circuit network.Tunnel) (m : Manager network draw) (i : ℕ)
      → ((c : Circuit network.Tunnel) → p c ≡ true → IsServing key now (f c))
      → find_index p m.circuits ≡ some i
      → Serves key (return_changed network draw now f i m)
  changed-Serves key p f m i h found j e =
      let (c, at_i, passes) = find_index-some p m.circuits i found in
      let same : i ≡ j = cc in
      (f c, rw (← same) (get_elem?-update_at m.circuits i f c at_i), h c passes)

  built-IsServing :
      (key : String) (m : Manager network draw) (c : Circuit network.Tunnel)
      → establish network draw (some key) m ≡ ok c
      → IsServing key now (update_last_used now c)
  unfolding set_isolation_key
  built-IsServing key m c e =
      let (tunnel, bridge, middle, exit, same, middle_found, exit_found) =
        establish-IsBuilt network draw (some key) m c e in
      subst (λ d. IsServing key now (update_last_used now d)) (sym same) (refl, refl, refl, refl)

  pushed-Serves :
      (key : String) (m : Manager network draw) (r : Result TorError (Circuit network.Tunnel))
      → ((c : Circuit network.Tunnel) → r ≡ ok c → IsServing key now (update_last_used now c))
      → Serves key (
          ((λ m. push network draw m r)
              >>= (λ i. return_changed network draw now (update_last_used now) i))
            m)
  pushed-Serves key m (ok c) h j e =
      let at_end = get_elem?-append m.circuits c in
      let same : length m.circuits ≡ j = cc in
      (
        update_last_used now c,
        rw (← same) (
            get_elem?-update_at (m.circuits ++ c ∷ []) (length m.circuits) (update_last_used now) c
              at_end),
        h c refl,
      )
  pushed-Serves key m (err x) h j e = cc
  pushed-Serves key m panics h j e = cc
  pushed-Serves key m stuck h j e = cc

  create_bound-Serves :
      (key : String) (m : Manager network draw) → Serves key (create_bound network draw now key m)
  unfolding create_bound create_circuit_with_isolation
  create_bound-Serves key m =
      pushed-Serves key m (establish network draw (some key) m) (built-IsServing key m)

  reuse_or_create-Serves :
      (key : String) (m : Manager network draw)
      → Serves key (reuse_or_create network draw now key m)
  unfolding reuse_or_create
  reuse_or_create-Serves key m = elim (Bool-cases (at_limit network draw now key m.circuits)) [
    | inr room ↦ rw room (create_bound-Serves key m)
    | inl full ↦ elim (Option-cases (find_index (live_with_key key) m.circuits)) [
      | inl missing ↦ rw (full, missing, reuse_or_create) (create_bound-Serves key m)
      | inr (i, found) ↦
          rw (full, found, reuse_or_create)
            (changed-Serves key (live_with_key key) (update_last_used now) m i
              (IsServing-live key now) found)
    ]
  ]

  bind_or_create-Serves :
      (key : String) (m : Manager network draw) → Serves key (bind_or_create network draw now key m)
  unfolding bind_or_create
  bind_or_create-Serves key m = elim (Option-cases (find_index ready_unassigned m.circuits)) [
    | inl missing ↦ rw (missing, bind_or_create) (reuse_or_create-Serves key m)
    | inr (i, found) ↦
        rw (found, bind_or_create)
          (changed-Serves key ready_unassigned (bind_and_use network draw now key) m i
            (IsServing-unassigned key now) found)
  ]

  circuit_for_key-Serves :
      (key : String) (m : Manager network draw)
      → Serves key (circuit_for_key network draw now key m)
  unfolding circuit_for_key
  circuit_for_key-Serves key m = elim (Option-cases (find_index (ready_with_key key) m.circuits)) [
    | inl missing ↦ rw (missing, circuit_for_key) (bind_or_create-Serves key m)
    | inr (i, found) ↦
        rw (found, circuit_for_key)
          (changed-Serves key (ready_with_key key) (update_last_used now) m i
            (IsServing-ready key now) found)
  ]

  -- A circuit that is returned for a key stands in the table, is bound to that key, whichever way it
  -- was found, is neither failed nor closed, and is marked as used now.
  pub get_circuit_for_isolation_key-IsServing :
      (key : String) (m : Manager network draw) (i : ℕ)
      → (get_circuit_for_isolation_key network draw now (some key) m).0 ≡ ok i
      → (c : Circuit network.Tunnel) × (get_elem?
            (get_circuit_for_isolation_key network draw now (some key) m).1.circuits
            i
          ≡ some c)
        × IsServing key now c
  unfolding get_circuit_for_isolation_key
  get_circuit_for_isolation_key-IsServing key m i e = circuit_for_key-Serves key m i e

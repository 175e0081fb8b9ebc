-- ===== src/Smux/Acknowledge.antt =====
-- Window updates to the peer in webtor/src/smux.rs: the awaited methods keep the bytes that are not
-- acknowledged below half of the window.
use webtor_rs.Base.{
  ℕ, zero, suc, ◌/◌, ◌<◌, ◌≡◌, refl, arith, List, Option, none, some, length, Bool-cases, inl, inr,
  ◌==◌,
}
use webtor_rs.Base.Outcome.{Result, ok, err, panics, stuck}
use webtor_rs.Error.{TorError, IoError}
use webtor_rs.Transport.{Transport}
use webtor_rs.Smux.Command.{SmuxCommand}
use webtor_rs.Smux.Segment.{SmuxSegment, decode}
use webtor_rs.Smux.State.{SmuxState, should_send_update, count_read}
use webtor_rs.Smux.Stream.{
  SmuxStream, drain, received, acknowledge, handle, accept, process_next_segment, recv_loop, recv,
  update_state, is_foreign, buffer_size,
}

abbrev pub IsAcknowledged : SmuxState → Type 0
IsAcknowledged st = st.self_increment < st.self_window / 2

module _ {S : Type 0} (t : Transport S) where
  -- A call that succeeds leaves the invariant.
  abbrev pub Leaves : {A : Type 0} → Result TorError A × SmuxStream S → Type 0
  Leaves {A} p = (a : A) → p.0 ≡ ok a → IsAcknowledged p.1.state

  acknowledge-Leaves : (s : SmuxStream S) → 0 < s.state.self_window / 2 → Leaves (acknowledge t s)
  unfolding acknowledge should_send_update
  acknowledge-Leaves s h a = elim (Bool-cases (should_send_update s.state)) [
    | inl due ↦ rw due (λ e. ground arith)
    | inr early ↦ rw early (λ e. ground arith)
  ]

  handle-Leaves :
      (c : SmuxCommand) (g : SmuxSegment) (s : SmuxStream S)
      → IsAcknowledged s.state
      → Leaves (handle t c g s)
  unfolding handle
  handle-Leaves SmuxCommand.syn g s h a e = h
  handle-Leaves SmuxCommand.fin g s h a e = h
  handle-Leaves SmuxCommand.psh g s h a e =
      ground
        (arith, acknowledge-Leaves (update_state (count_read (length g.bytes)) s) (omega arith) tt)
  handle-Leaves SmuxCommand.nop g s h a e = ground arith
  handle-Leaves SmuxCommand.upd g s h a e = ground arith

  accept-Leaves :
      (g : SmuxSegment) (s : SmuxStream S) → IsAcknowledged s.state → Leaves (accept t g s)
  unfolding accept
  accept-Leaves g s h a = elim (Bool-cases (is_foreign g s.state)) [
    | inl skipped ↦ rw skipped (λ e. h)
    | inr ours ↦ rw ours (handle-Leaves g.command g s h a)
  ]

  process_next_segment-Leaves :
      (s : SmuxStream S) → IsAcknowledged s.state → Leaves (process_next_segment t s)
  unfolding process_next_segment
  process_next_segment-Leaves s h a = go (decode s.read_buffer) refl
    where
      go :
          (r : Result TorError (Option (SmuxSegment × ℕ)))
          → decode s.read_buffer ≡ r
          → (process_next_segment t s).0 ≡ ok a
          → IsAcknowledged (process_next_segment t s).1.state
      go (ok (some (g, n))) e = rw (e, process_next_segment) (accept-Leaves g (drain n s) h a)
      go (ok none) e = rw (e, process_next_segment) (λ p. h)
      go (err x) e = rw (e, process_next_segment) (λ p. h)
      go panics e = rw (e, process_next_segment) (λ p. h)
      go stuck e = rw (e, process_next_segment) (λ p. h)

  -- One round, given the rounds that follow.
  recv_round-Leaves :
      (fuel n : ℕ) (s : SmuxStream S) (out : List ℕ)
      → IsAcknowledged s.state
      → ((s₁ : SmuxStream S)
          → IsAcknowledged s₁.state
          → (recv_loop t fuel n s₁).0 ≡ ok out
          → IsAcknowledged (recv_loop t fuel n s₁).1.state)
      → (recv_loop t (suc fuel) n s).0 ≡ ok out
      → IsAcknowledged (recv_loop t (suc fuel) n s).1.state
  unfolding recv_loop
  recv_round-Leaves fuel n s out h ih = go (process_next_segment t s).0 refl
    where
      s₁ : SmuxStream S
      s₁ = (process_next_segment t s).1

      read :
          (r : Result IoError (List ℕ))
          → (t.read buffer_size s₁.inner).0 ≡ r
          → IsAcknowledged s₁.state
          → (process_next_segment t s).0 ≡ ok none
          → (recv_loop t (suc fuel) n s).0 ≡ ok out
          → IsAcknowledged (recv_loop t (suc fuel) n s).1.state
      read (ok bytes) e k p = elim (Bool-cases (length bytes == 0)) [
        | inl end ↦ rw (p, recv_loop) (rw (e, recv_loop) (rw end (λ q. k)))
        | inr some_bytes ↦
            rw (p, recv_loop)
              (rw (e, recv_loop)
                (rw some_bytes (ih (received (t.read buffer_size s₁.inner).1 bytes s₁) k)))
      ]
      read (err x) e k p = rw (p, recv_loop) (rw (e, recv_loop) (λ q. k))
      read panics e k p = rw (p, recv_loop) (rw (e, recv_loop) (λ q. k))
      read stuck e k p = rw (p, recv_loop) (rw (e, recv_loop) (λ q. k))

      go :
          (r : Result TorError (Option (List ℕ)))
          → (process_next_segment t s).0 ≡ r
          → (recv_loop t (suc fuel) n s).0 ≡ ok out
          → IsAcknowledged (recv_loop t (suc fuel) n s).1.state
      go (ok (some bytes)) e = elim (Bool-cases (length bytes == 0)) [
        | inl none_left ↦
            rw (e, recv_loop) (rw none_left (ih s₁ (process_next_segment-Leaves s h _ e)))
        | inr out_now ↦ rw (e, recv_loop) (rw out_now (λ q. process_next_segment-Leaves s h _ e))
      ]
      go (ok none) e =
          read (t.read buffer_size s₁.inner).0 refl (process_next_segment-Leaves s h _ e) e
      go (err x) e = rw (e, recv_loop) (λ q. cc)
      go panics e = rw (e, recv_loop) (λ q. cc)
      go stuck e = rw (e, recv_loop) (λ q. cc)

  recv_loop-Leaves :
      (fuel n : ℕ) (s : SmuxStream S) (out : List ℕ)
      → IsAcknowledged s.state
      → (recv_loop t fuel n s).0 ≡ ok out
      → IsAcknowledged (recv_loop t fuel n s).1.state
  recv_loop-Leaves zero n s out h e = unfold recv_loop in h
  recv_loop-Leaves (suc fuel) n s out h e =
      recv_round-Leaves fuel n s out h (λ s₁ k p. recv_loop-Leaves fuel n s₁ out k p) e

  -- A successful `recv` leaves the count of bytes since the last window update below half of the window.
  pub recv-IsAcknowledged :
      (fuel n : ℕ) (s s' : SmuxStream S) (out : List ℕ)
      → IsAcknowledged s.state
      → recv t fuel n s ≡ (ok out, s')
      → IsAcknowledged s'.state
  unfolding recv
  recv-IsAcknowledged fuel n s s' out h e = ground (arith, recv_loop-Leaves fuel n s out h)

-- ===== src/Smux/Flow.antt =====
-- Flow control of the awaited methods of `SmuxStream` in webtor/src/smux.rs.
use webtor_rs.Base.{
  ℕ, zero, suc, ◌+◌, ◌^◌, ◌≤◌, ◌<◌, ◌≡◌, refl, arith, true, List, Option, none, some, length,
  Bool-cases, inl, inr,
}
use webtor_rs.Base.Outcome.{Result, ok, err, panics, stuck}
use webtor_rs.Error.{TorError}
use webtor_rs.Transport.{Transport}
use webtor_rs.Smux.Command.{SmuxCommand}
use webtor_rs.Smux.Segment.{SmuxSegment, decode}
use webtor_rs.Smux.State.{SmuxState, can_send, should_send_update, inflight, count_read}
use webtor_rs.Smux.Stream.{
  SmuxStream, drain, initialize, ensure_initialized, ensure_window, acknowledge, handle, accept,
  process_next_segment, process_all, read_once, process_incoming, send, update_state, is_foreign,
}

module _ {S : Type 0} (t : Transport S) where
  -- The count of written bytes, which only `send` and `poll_write` change.
  abbrev written : SmuxStream S → ℕ
  written s = s.state.self_write

  acknowledge-written : (s : SmuxStream S) → written (acknowledge t s).1 ≡ written s
  unfolding acknowledge
  acknowledge-written s = elim (Bool-cases (should_send_update s.state)) [
    | inl due ↦ rw due (ground arith)
    | inr early ↦ rw early
  ]

  handle-written :
      (c : SmuxCommand) (g : SmuxSegment) (s : SmuxStream S)
      → written (handle t c g s).1 ≡ written s
  unfolding handle
  handle-written SmuxCommand.syn g s = refl
  handle-written SmuxCommand.fin g s = refl
  handle-written SmuxCommand.psh g s =
      ground (arith, acknowledge-written (update_state (count_read (length g.bytes)) s))
  handle-written SmuxCommand.nop g s = ground arith
  handle-written SmuxCommand.upd g s = ground arith

  accept-written : (g : SmuxSegment) (s : SmuxStream S) → written (accept t g s).1 ≡ written s
  unfolding accept
  accept-written g s = elim (Bool-cases (is_foreign g s.state)) [
    | inl skipped ↦ rw skipped
    | inr ours ↦ rw ours (handle-written g.command g s)
  ]

  process_next_segment-written :
      (s : SmuxStream S) → written (process_next_segment t s).1 ≡ written s
  unfolding process_next_segment
  process_next_segment-written s = go (decode s.read_buffer) refl
    where
      go :
          (r : Result TorError (Option (SmuxSegment × ℕ)))
          → decode s.read_buffer ≡ r
          → written (process_next_segment t s).1 ≡ written s
      go (ok (some (g, n))) e = rw (e, process_next_segment) (accept-written g (drain n s))
      go (ok none) e = rw (e, process_next_segment)
      go (err x) e = rw (e, process_next_segment)
      go panics e = rw (e, process_next_segment)
      go stuck e = rw (e, process_next_segment)

  process_all-written : (fuel : ℕ) (s : SmuxStream S) → written (process_all t fuel s).1 ≡ written s
  unfolding process_all
  process_all-written zero s = refl
  process_all-written (suc fuel) s =
      ground (
        arith,
        process_next_segment-written s,
        process_all-written fuel (process_next_segment t s).1,
      )

  process_incoming-written : (s : SmuxStream S) → written (process_incoming t s).1 ≡ written s
  unfolding process_incoming read_once
  process_incoming-written s =
      ground
        (arith, process_all-written (suc (length (read_once t s).1.read_buffer)) (read_once t s).1)

  initialize-written : (s : SmuxStream S) → written (ensure_initialized t s).1 ≡ written s
  unfolding ensure_initialized initialize
  initialize-written s = elim (Bool-cases s.state.syn_sent) [
    | inl sent ↦ rw sent
    | inr fresh ↦ rw fresh (ground arith)
  ]

  -- A successful wait leaves room for `len` more bytes.
  ensure_window-room :
      (len : ℕ) (s : SmuxStream S)
      → (ensure_window t len s).0 ≡ ok tt
      → can_send (ensure_window t len s).1.state len ≡ true
  unfolding ensure_window
  ensure_window-room len s = elim (Bool-cases (can_send s.state len)) [
    | inl room ↦ rw room (λ e. room)
    | inr full ↦ rw full (λ e. ground arith)
  ]

  ensure_window-written :
      (len : ℕ) (s : SmuxStream S) → written (ensure_window t len s).1 ≡ written s
  unfolding ensure_window
  ensure_window-written len s = elim (Bool-cases (can_send s.state len)) [
    | inl room ↦ rw room
    | inr full ↦ rw full (ground (arith, process_incoming-written s))
  ]

  can_send_within :
      (st : SmuxState) (len : ℕ)
      → st.self_write + len < 2 ^ 32
      → can_send st len ≡ true
      → inflight st + len ≤ st.peer_window
  unfolding can_send
  can_send_within st len h e = ground arith

  -- A successful `send` reports all of its bytes and counts them, and what is then on its way to the
  -- peer is within the window that the peer has announced. The premise keeps the u32 count from
  -- wrapping.
  pub send_within_window :
      (bytes : List ℕ) (s s' : SmuxStream S) (n : ℕ)
      → s.state.self_write + length bytes < 2 ^ 32
      → send t bytes s ≡ (ok n, s')
      → (n ≡ length bytes)
        × (s'.state.self_write ≡ s.state.self_write + length bytes)
        × (inflight s'.state ≤ s'.state.peer_window)
  unfolding send
  send_within_window bytes s s' n h e =
      let s₁ = (ensure_initialized t s).1 in
      let s₂ = (ensure_window t (length bytes) s₁).1 in
      ground (
        arith,
        initialize-written s,
        ensure_window-written (length bytes) s₁,
        ensure_window-room (length bytes) s₁,
        can_send_within s₂.state (length bytes),
      )

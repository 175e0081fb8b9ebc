-- ===== src/Smux/Faults.antt =====
-- Where the methods of `SmuxStream` in webtor/src/smux.rs disagree with what they mean to do.
use webtor_rs.Base.{
  Bool-cases, inl, inr, if◌then◌else◌, ℕ, suc, ◌+◌, ◌-◌, length-append, ◌/◌, ◌^◌, ◌≤◌, ◌<◌, ◌≡◌,
  ◌≢◌, refl, ap, ◌∙◌, arith, true, false, List, [], ◌++◌, none, some, length, take, ◌==◌,
  drop-length-append, nonempty_length, min,
}
use webtor_rs.Base.Outcome.{ok, err, ready}
use webtor_rs.Base.Words.{wrapping_add, as_u32}
use webtor_rs.Base.Action.{◌>>◌, pure, ◌>>=◌, >>=-step}
use webtor_rs.Error.{TorError}
use webtor_rs.Transport.{Transport}
use webtor_rs.Smux.Command.{SmuxCommand}
use webtor_rs.Smux.Segment.{SmuxSegment, encode, decode, psh, fin}
use webtor_rs.Smux.RoundTrip.{IsValid, decode-encode_segment, length-encode}
use webtor_rs.Smux.State.{can_send, should_send_update, count_read}
use webtor_rs.Smux.Stream.{
  SmuxStream, received, acknowledge, handle, accept, process_next_segment, process_all, recv_loop,
  recv, update_state, Call, write_segment, modify, initialize, read_once, process_incoming,
  ensure_window, ensure_initialized, send, is_foreign, buffer_size,
}
use webtor_rs.Smux.Polling.{poll_read, poll_accept, poll_handle}
use webtor_rs.Smux.Acknowledge.{IsAcknowledged}
use webtor_rs.Smux.Delivery.{holding, poll_segments_next}

module _ {S : Type 0} (t : Transport S) where
  -- The next segment of a buffer is accepted and drained.
  next_segment :
      (g : SmuxSegment) (rest : List ℕ) (s : SmuxStream S)
      → IsValid g
      → process_next_segment t (holding (encode g ++ rest) s) ≡ accept t g (holding rest s)
  unfolding process_next_segment
  next_segment g rest s v =
      rw (decode-encode_segment g rest v, process_next_segment)
        (ap (λ b. accept t g (holding b s)) (drop-length-append (encode g) rest))

  abbrev our_psh : List ℕ → SmuxStream S → SmuxSegment
  our_psh bytes s = psh s.state.stream_id bytes

  acknowledge_early :
      (s : SmuxStream S) → should_send_update s.state ≡ false → acknowledge t s ≡ (ok tt, s)
  unfolding acknowledge
  acknowledge_early s h = rw h

  handle-psh :
      (bytes : List ℕ) (s : SmuxStream S)
      → should_send_update (count_read (length bytes) s.state) ≡ false
      → handle t SmuxCommand.psh (our_psh bytes s) s
        ≡ (ok (some bytes), update_state (count_read (length bytes)) s)
  unfolding handle
  handle-psh bytes s h =
      let e = acknowledge_early (update_state (count_read (length bytes)) s) h in ground (arith, e)

  accept-psh :
      (bytes : List ℕ) (s : SmuxStream S)
      → should_send_update (count_read (length bytes) s.state) ≡ false
      → accept t (our_psh bytes s) s ≡ (ok (some bytes), update_state (count_read (length bytes)) s)
  unfolding accept
  accept-psh bytes s h =
      let ours : is_foreign (our_psh bytes s) s.state ≡ false = ground arith in
      rw ours (handle-psh bytes s h)

  accept-fin : (s : SmuxStream S) → accept t (fin s.state.stream_id) s ≡ (ok none, s)
  unfolding accept handle
  accept-fin s = ground arith

  process_all_next :
      (fuel : ℕ) (s s₁ : SmuxStream S) (bytes : List ℕ)
      → process_next_segment t s ≡ (ok (some bytes), s₁)
      → process_all t (suc fuel) s ≡ process_all t fuel s₁
  unfolding process_all
  process_all_next fuel s s₁ bytes e =
      rw (ap (λ p. p.0) e, process_all) (ap (λ p. process_all t fuel p.1) e)

  process_all_end :
      (fuel : ℕ) (s s₁ : SmuxStream S)
      → process_next_segment t s ≡ (ok none, s₁)
      → process_all t (suc fuel) s ≡ (ok tt, s₁)
  unfolding process_all
  process_all_end fuel s s₁ e = rw (ap (λ p. p.0) e, process_all) (ap (λ p. (ok tt, p.1)) e)

  no_segment :
      (s : SmuxStream S) → decode s.read_buffer ≡ ok none → process_next_segment t s ≡ (ok none, s)
  unfolding process_next_segment
  no_segment s e = rw (e, process_next_segment)

  -- `process_all` takes a PSH segment off the buffer and keeps none of its bytes.
  process_all_drops_data :
      (bytes tail : List ℕ) (fuel : ℕ) (s : SmuxStream S)
      → IsValid (our_psh bytes s)
      → should_send_update (count_read (length bytes) s.state) ≡ false
      → decode tail ≡ ok none
      → process_all t (suc (suc fuel)) (holding (encode (our_psh bytes s) ++ tail) s)
        ≡ (ok tt, update_state (count_read (length bytes)) (holding tail s))
  process_all_drops_data bytes tail fuel s v h e =
      process_all_next (suc fuel) _ (update_state (count_read (length bytes)) (holding tail s))
        bytes (next_segment (our_psh bytes s) tail s v ∙ accept-psh bytes (holding tail s) h)
      ∙ process_all_end fuel _ _ (no_segment _ e)

  -- What is read does not change what can be sent.
  still_full :
      (bytes out : List ℕ) (s : SmuxStream S)
      → can_send s.state (length out) ≡ false
      → can_send (count_read (length bytes) s.state) (length out) ≡ false
  unfolding can_send
  still_full bytes out s f = f

  window_full :
      (out : List ℕ) (s after : SmuxStream S)
      → can_send s.state (length out) ≡ false
      → process_incoming t s ≡ (ok tt, after)
      → can_send after.state (length out) ≡ false
      → ensure_window t (length out) s ≡ (err (TorError.network "SMUX window full"), after)
  unfolding ensure_window
  window_full out s after f p g =
      let again : Call t (Unit {0}) = λ s'.
        if can_send s'.state (length out)
        then (ok tt, s')
        else (err (TorError.network "SMUX window full"), s') in
      rw f (>>=-step (process_incoming t) (λ done. again) s tt after p ∙ rw g refl)

  read_once-chunk :
      (s : SmuxStream S) (chunk : List ℕ) (i : S)
      → t.read buffer_size s.inner ≡ (ok chunk, i)
      → read_once t s ≡ (ok tt, received i chunk s)
  unfolding read_once
  read_once-chunk s chunk i e =
      rw (ap (λ p. p.0) e, read_once) (ap (λ p. (ok tt, received p.1 chunk s)) e)

  process_incoming_drops_data :
      (bytes tail chunk : List ℕ) (s : SmuxStream S) (i : S)
      → t.read buffer_size s.inner ≡ (ok chunk, i)
      → s.read_buffer ++ chunk ≡ encode (our_psh bytes s) ++ tail
      → IsValid (our_psh bytes s)
      → should_send_update (count_read (length bytes) s.state) ≡ false
      → decode tail ≡ ok none
      → process_incoming t s
        ≡ (ok tt, update_state (count_read (length bytes)) (holding tail (record s { inner = i })))
  unfolding process_incoming
  process_incoming_drops_data bytes tail chunk s i r b v h e =
      let n = length-append (encode (our_psh bytes s)) tail in
      let m = length-encode (our_psh bytes s) in
      let fuel : suc (length (encode (our_psh bytes s) ++ tail))
          ≡ suc (suc (length (encode (our_psh bytes s) ++ tail) - 1)) =
        omega arith in
      >>=-step (read_once t) (λ _. λ s. process_all t (suc (length s.read_buffer)) s) s tt
        (received i chunk s) (read_once-chunk s chunk i r)
      ∙ ap (λ buffer. process_all t (suc (length buffer)) (holding buffer (record s { inner = i })))
          b
      ∙ ap
          (λ k.
            process_all t k (holding (encode (our_psh bytes s) ++ tail) (record s { inner = i })))
          fuel
      ∙ process_all_drops_data bytes tail _ (record s { inner = i }) v h e

  initialized : (s : SmuxStream S) → s.state.syn_sent ≡ true → ensure_initialized t s ≡ (ok tt, s)
  unfolding ensure_initialized
  initialized s y = elim (Bool-cases s.state.syn_sent) [
    | inl e ↦ ap (λ b. if b then (ok tt, s) else initialize t s) e
    | inr e ↦ cc
  ]

  >>=-fails :
      {A B : Type 0} (m : Call t A) (f : A → Call t B) (s s' : SmuxStream S) (x : TorError)
      → m s ≡ (err x, s')
      → (m >>= f) s ≡ (err x, s')
  >>=-fails m f s s' x e = rw (ap (λ p. p.0) e, ◌>>=◌) (ap (λ p. (err x, p.1)) e)

  -- A `send` whose window is full reads once from the lower stream. If a PSH segment of the peer is
  -- then whole in the buffer, with nothing whole behind it, the call fails and the segment's bytes are
  -- lost: the buffer holds what came behind it, and the data buffer is as it was.
  pub send_drops_data :
      (out bytes tail chunk : List ℕ) (s : SmuxStream S) (i : S)
      → s.state.syn_sent ≡ true
      → can_send s.state (length out) ≡ false
      → t.read buffer_size s.inner ≡ (ok chunk, i)
      → s.read_buffer ++ chunk ≡ encode (our_psh bytes s) ++ tail
      → IsValid (our_psh bytes s)
      → should_send_update (count_read (length bytes) s.state) ≡ false
      → decode tail ≡ ok none
      → send t out s ≡ (
        err (TorError.network "SMUX window full"),
        update_state (count_read (length bytes)) (holding tail (record s { inner = i })),
      )
  unfolding send
  send_drops_data out bytes tail chunk s i y f r b v h e =
      let rest : Call t ℕ =
        (λ (u : SmuxStream S).
          write_segment t (psh u.state.stream_id out) (TorError.network "Failed to send SMUX data")
            u)
        >> (modify t
              (λ st. record st { self_write = wrapping_add st.self_write (as_u32 (length out)) })
            >> pure (length out)) in
      >>=-step (ensure_initialized t) (λ _. ensure_window t (length out) >> rest) s tt s
        (initialized s y)
      ∙ >>=-fails (ensure_window t (length out)) (λ _. rest) s _ _
          (window_full out s _ f (process_incoming_drops_data bytes tail chunk s i r b v h e)
            (still_full bytes out s f))

  recv_loop-none :
      (fuel n : ℕ) (s s₁ : SmuxStream S) (c : List ℕ) (i : S)
      → process_next_segment t s ≡ (ok none, s₁)
      → t.read buffer_size s₁.inner ≡ (ok c, i)
      → c ≢ []
      → recv_loop t (suc fuel) n s ≡ recv_loop t fuel n (received i c s₁)
  unfolding recv_loop
  recv_loop-none fuel n s s₁ c i p r h =
      let r' = ap (λ q. t.read buffer_size q.1.inner) p ∙ r in
      rw (ap (λ q. q.0) p, recv_loop)
        (rw (ap (λ q. q.0) r', recv_loop)
          (rw (nonempty_length c h) (
            ap (λ q. recv_loop t fuel n (received (t.read buffer_size q.1.inner).1 c q.1)) p
            ∙ ap (λ q. recv_loop t fuel n (received q.1 c s₁)) r)))

  -- A FIN does not end `recv`: it goes on to read from the lower stream.
  pub recv_passes_fin :
      (tail c : List ℕ) (fuel n : ℕ) (s : SmuxStream S) (i : S)
      → IsValid (fin s.state.stream_id)
      → s.data_buffer ≡ []
      → t.read buffer_size s.inner ≡ (ok c, i)
      → c ≢ []
      → recv t (suc fuel) n (holding (encode (fin s.state.stream_id) ++ tail) s)
        ≡ recv_loop t fuel n (received i c (holding tail s))
  unfolding recv
  recv_passes_fin tail c fuel n s i v w r h =
      let empty : (length s.data_buffer == 0) ≡ true = rw w in
      rw empty (
        recv_loop-none fuel n _ (holding tail s) c i
          (next_segment (fin s.state.stream_id) tail s v ∙ accept-fin (holding tail s)) r h)

  -- `poll_read` sends no window update: a PSH segment of half of the window leaves the stream with as
  -- many bytes unacknowledged, and the lower stream as it was.
  pub poll_read_unacknowledged :
      (bytes tail : List ℕ) (n : ℕ) (s : SmuxStream S)
      → IsValid (our_psh bytes s)
      → s.data_buffer ≡ []
      → s.state.self_increment + length bytes < 2 ^ 32
      → s.state.self_window / 2 ≤ s.state.self_increment + length bytes
      → let r = poll_read t n (holding (encode (our_psh bytes s) ++ tail) s) in
        (r.0 ≡ ready (ok (take (min n (length bytes)) bytes)))
        × (r.1.inner ≡ s.inner)
        × (¬ IsAcknowledged r.1.state)
  unfolding poll_read poll_accept poll_handle
  poll_read_unacknowledged bytes tail n s v w h k =
      let empty : (length s.data_buffer == 0) ≡ true = rw w in
      let ours : is_foreign (our_psh bytes s) s.state ≡ false = ground arith in
      rw empty (
        rw (poll_segments_next t _ n s (our_psh bytes s) tail v)
          (rw (ours, poll_accept) (refl, refl, λ q. ground arith)))

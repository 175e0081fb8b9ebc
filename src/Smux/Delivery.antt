-- ===== src/Smux/Delivery.antt =====
-- `poll_read` of webtor/src/smux.rs hands out the carried bytes in order, and ends at a FIN.
use webtor_rs.Base.{ℕ, suc, ◌≤◌, ◌≡◌, ap, List, [], ◌++◌, length, drop-length-append}
use webtor_rs.Base.Outcome.{ok, ready}
use webtor_rs.Transport.{Transport}
use webtor_rs.Smux.Segment.{SmuxSegment, encode}
use webtor_rs.Smux.RoundTrip.{IsValid, decode-encode_segment}
use webtor_rs.Smux.Stream.{SmuxStream}
use webtor_rs.Smux.Polling.{
  Verdict, skip, hand_out, finish, poll_accept, Polled, poll_inner, hand_over, poll_segments,
}
use webtor_rs.Smux.Carried.{segments, carried}

abbrev pub holding : {S : Type 0} → List ℕ → SmuxStream S → SmuxStream S
holding bytes s = record s { read_buffer = bytes }

module _ {S : Type 0} (t : Transport S) where
  abbrev pub act : ℕ → ℕ → Verdict × SmuxStream S → Polled t
  act fuel n p = elim p.0 [
    | skip ↦ poll_segments t fuel n p.1
    | hand_out bytes ↦ hand_over t n bytes p.1
    | finish ↦ (ready (ok []), p.1)
  ]

  -- One round of the loop at a whole segment.
  pub poll_segments_next :
      (fuel n : ℕ) (s : SmuxStream S) (g : SmuxSegment) (rest : List ℕ)
      → IsValid g
      → poll_segments t (suc fuel) n (holding (encode g ++ rest) s)
        ≡ act fuel n (poll_accept g (holding rest s))
  unfolding poll_segments
  poll_segments_next fuel n s g rest v =
      rw (decode-encode_segment g rest v, poll_segments)
        (ap (λ b. act fuel n (poll_accept g (holding b s))) (drop-length-append (encode g) rest))

  -- How `poll_read` ends on whole segments: it hands out bytes, it consumes a FIN, or it has neither
  -- and asks the lower stream. `b` is the length of the caller's buffer.
  pub data Delivers (gs : List SmuxSegment) (tail : List ℕ) (b : ℕ) (s : SmuxStream S)
      : Polled t → Type 0 where
    handed :
        (out : List ℕ) (rest : List SmuxSegment) (s' : SmuxStream S)
        → s.data_buffer ++ carried s.state.stream_id gs
          ≡ out ++ (s'.data_buffer ++ carried s.state.stream_id rest)
        → length out ≤ b
        → s'.read_buffer ≡ segments rest ++ tail
        → s'.state.stream_id ≡ s.state.stream_id
        → s'.inner ≡ s.inner
        → Delivers gs tail b s (ready (ok out), s')
    ended :
        (rest : List SmuxSegment) (s' : SmuxStream S)
        → s.data_buffer ++ carried s.state.stream_id gs ≡ []
        → s'.read_buffer ≡ segments rest ++ tail
        → s'.inner ≡ s.inner
        → Delivers gs tail b s (ready (ok []), s')
    starved :
        (s' : SmuxStream S)
        → s.data_buffer ++ carried s.state.stream_id gs ≡ []
        → s'.read_buffer ≡ tail
        → s'.inner ≡ s.inner
        → Delivers gs tail b s (poll_inner t s')

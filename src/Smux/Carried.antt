-- ===== src/Smux/Carried.antt =====
-- A run of whole segments on the wire of webtor/src/smux.rs, and the bytes that it carries for a
-- stream: the payloads of its PSH segments up to the first FIN.
use webtor_rs.Base.{
  ℕ, ◌≤◌, ◌≡◌, refl, arith, Bool, List, [], ◌∷◌, ◌++◌, length, length-append, if◌then◌else◌, not,
  ◌&&◌, ◌==◌,
}
use webtor_rs.Smux.Command.{SmuxCommand}
use webtor_rs.Smux.Segment.{SmuxSegment, encode}
use webtor_rs.Smux.RoundTrip.{length-encode}
use webtor_rs.Smux.Stream.{SmuxStream}
use webtor_rs.Smux.Polling.{Verdict, skip, hand_out, finish, poll_handle, poll_accept}

abbrev pub segments : List SmuxSegment → List ℕ
segments [] = []
segments (g ∷ gs) = encode g ++ segments gs

-- Addressed to the stream `id`, or to the control stream.
abbrev pub concerns : ℕ → SmuxSegment → Bool
concerns id g = not (not (g.stream_id == id) && not (g.stream_id == 0))

abbrev pub command_verdict : SmuxCommand → List ℕ → Verdict
command_verdict SmuxCommand.psh bytes = hand_out bytes
command_verdict SmuxCommand.fin bytes = finish
command_verdict _ bytes = skip

abbrev pub verdict : ℕ → SmuxSegment → Verdict
verdict id g = if concerns id g then command_verdict g.command g.bytes else skip

abbrev pub carried_by : Verdict → List ℕ → List ℕ
carried_by skip rest = rest
carried_by (hand_out bytes) rest = bytes ++ rest
carried_by finish rest = []

abbrev pub carried : ℕ → List SmuxSegment → List ℕ
carried id [] = []
carried id (g ∷ gs) = carried_by (verdict id g) (carried id gs)

pub length-segments : (gs : List SmuxSegment) → length gs ≤ length (segments gs)
length-segments [] = omega arith
length-segments (g ∷ gs) =
    omega (arith, length-segments gs, length-encode g, length-append (encode g) (segments gs))

module _ {S : Type 0} where
  poll_handle-verdict :
      (c : SmuxCommand) (g : SmuxSegment) (s : SmuxStream S)
      → (poll_handle c g s).0 ≡ command_verdict c g.bytes
  unfolding poll_handle
  poll_handle-verdict SmuxCommand.syn g s = refl
  poll_handle-verdict SmuxCommand.fin g s = refl
  poll_handle-verdict SmuxCommand.psh g s = refl
  poll_handle-verdict SmuxCommand.nop g s = refl
  poll_handle-verdict SmuxCommand.upd g s = ground arith

  -- Handling a segment changes the counters only, and not the stream's id.
  abbrev pub Counts : SmuxStream S → SmuxStream S → Type 0
  Counts s s' =
      (s'.inner ≡ s.inner)
      × (s'.read_buffer ≡ s.read_buffer)
      × (s'.data_buffer ≡ s.data_buffer)
      × (s'.state.stream_id ≡ s.state.stream_id)

  poll_handle-Counts :
      (c : SmuxCommand) (g : SmuxSegment) (s : SmuxStream S) → Counts s (poll_handle c g s).1
  unfolding poll_handle
  poll_handle-Counts SmuxCommand.syn g s = (refl, refl, refl, refl)
  poll_handle-Counts SmuxCommand.fin g s = (refl, refl, refl, refl)
  poll_handle-Counts SmuxCommand.psh g s = (refl, refl, refl, refl)
  poll_handle-Counts SmuxCommand.nop g s = (refl, refl, refl, refl)
  poll_handle-Counts SmuxCommand.upd g s = ground arith

  pub poll_accept-verdict :
      (g : SmuxSegment) (s : SmuxStream S)
      → ((poll_accept g s).0 ≡ verdict s.state.stream_id g) × Counts s (poll_accept g s).1
  unfolding poll_accept
  poll_accept-verdict g s =
      ground (arith, poll_handle-verdict g.command g s, poll_handle-Counts g.command g s)

-- ===== src/Smux/Runs.antt =====
-- Concrete runs of webtor/src/smux.rs, and the theorems at concrete inputs.
use webtor_rs.Base.{
  ◌^◌, ◌%◌, ℕ, zero, suc, ◌+◌, ◌≤◌, ◌<◌, ◌≡◌, refl, arith, List, [], ◌∷◌, ◌++◌, some, true, length,
  take, min,
}
use webtor_rs.Base.Outcome.{err, ok, ready}
use webtor_rs.Error.{TorError}
use webtor_rs.Transport.Script.{Script, script}
use webtor_rs.Smux.Command.{try_from}
use webtor_rs.Smux.Segment.{SmuxSegment, encode, decode, psh, fin, syn}
use webtor_rs.Smux.State.{inflight, can_send, should_send_update}
use webtor_rs.Smux.Stream.{
  SmuxStream, with_stream_id, ensure_initialized, ensure_window, send, recv, recv_loop,
  process_next_segment, accept, handle, acknowledge, update_state,
}
use webtor_rs.Smux.State.{count_read}
use webtor_rs.Smux.Polling.{poll_read}
use webtor_rs.Smux.RoundTrip.{IsValid, decode-encode_oversized}
use webtor_rs.Smux.Delivery.{holding}
use webtor_rs.Smux.Flow.{send_within_window}
use webtor_rs.Smux.Acknowledge.{IsAcknowledged}
use webtor_rs.Smux.Faults.{send_drops_data, poll_read_unacknowledged}

abbrev hi : List ℕ
hi = 72 ∷ 105 ∷ []

encode-psh : encode (psh 3 (72 ∷ [])) ≡ 2 ∷ 2 ∷ 1 ∷ 0 ∷ 3 ∷ 0 ∷ 0 ∷ 0 ∷ 72 ∷ []
unfolding encode
encode-psh = refl

decode-psh : decode (2 ∷ 2 ∷ 1 ∷ 0 ∷ 3 ∷ 0 ∷ 0 ∷ 0 ∷ 72 ∷ 9 ∷ []) ≡ ok (some (psh 3 (72 ∷ []), 9))
unfolding decode try_from
decode-psh = refl

psh-IsValid : IsValid (psh 3 hi)
psh-IsValid = record { version_two = refl; id_fits = omega arith; length_fits = omega arith }

abbrev stream : List (List ℕ) → SmuxStream Script
stream incoming = with_stream_id (record { incoming = incoming; log = [] }) 3

abbrev run_of : List SmuxSegment
run_of = syn 3 ∷ psh 3 hi ∷ fin 3 ∷ []

unfoldable zeros : ℕ → List ℕ
zeros zero = []
zeros (suc n) = 0 ∷ zeros n

length-zeros : (n : ℕ) → length (zeros n) ≡ n
unfolding zeros
length-zeros zero = refl
length-zeros (suc n) = omega (arith, length-zeros n)

abbrev oversized : SmuxSegment
oversized = psh 3 (zeros 65537)

decode-encode_oversized_example :
    (decode (encode oversized)
      ≡ ok (
          some (
            record oversized { bytes = take (length oversized.bytes % 2 ^ 16) oversized.bytes },
            8 + length oversized.bytes % 2 ^ 16,
          )))
    × (8 + length oversized.bytes % 2 ^ 16 < length (encode oversized))
decode-encode_oversized_example =
    decode-encode_oversized oversized refl (omega arith) (omega (arith, length-zeros 65537))

-- A stream that has greeted its peer.
abbrev greeted : SmuxStream Script
greeted = record (stream []) { state = record (stream []).state { syn_sent = true } }

abbrev after_send : SmuxStream Script
after_send = (send script hi greeted).1

send-hi : send script hi greeted ≡ (ok 2, after_send)
unfolding send ensure_initialized ensure_window can_send
send-hi = refl

send_within_window_example :
    (length hi ≡ 2)
    × (after_send.state.self_write ≡ 0 + 2)
    × (inflight after_send.state ≤ after_send.state.peer_window)
send_within_window_example = send_within_window script hi greeted after_send 2 (omega arith) send-hi

-- A PSH segment has arrived.
abbrev arrived : SmuxStream Script
arrived = holding (encode (psh 3 hi)) (stream [])

abbrev after_recv : SmuxStream Script
after_recv = (recv script 1 8 arrived).1

recv-hi : recv script 1 8 arrived ≡ (ok hi, after_recv)
unfolding recv recv_loop process_next_segment encode decode try_from accept handle acknowledge
    should_send_update
recv-hi = refl

-- A stream whose peer has left no room, and whose next read gives a PSH segment.
abbrev full : SmuxStream Script
full = record (stream (encode (psh 3 hi) ∷ [])) {
  state = record (stream []).state { syn_sent = true; peer_window = 0 };
}

abbrev emptied : Script
emptied = record { incoming = []; log = [] }

send_drops_data_example : send script hi full ≡ (
  err (TorError.network "SMUX window full"),
  update_state (count_read 2) (holding [] (record full { inner = emptied })),
)
send_drops_data_example =
    send_drops_data script hi hi [] (encode (psh 3 hi)) full emptied refl (unfold can_send in refl)
      refl (unfold encode in refl) psh-IsValid (unfold should_send_update in refl)
      (unfold decode in refl)

-- A stream whose window is four bytes wide.
abbrev narrow : SmuxStream Script
narrow = record (stream []) { state = record (stream []).state { self_window = 4 } }

poll_read_unacknowledged_example :
    let r = poll_read script 8 (holding (encode (psh 3 hi) ++ []) narrow) in
    (r.0 ≡ ready (ok (take (min 8 2) hi)))
    × (r.1.inner ≡ narrow.inner)
    × (¬ IsAcknowledged r.1.state)
poll_read_unacknowledged_example =
    poll_read_unacknowledged script hi [] 8 narrow psh-IsValid refl (omega arith) (omega arith)

abbrev old_version : List ℕ
old_version = 1 ∷ 2 ∷ 0 ∷ 0 ∷ 3 ∷ 0 ∷ 0 ∷ 0 ∷ []

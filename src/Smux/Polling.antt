-- ===== src/Smux/Polling.antt =====
-- webtor/src/smux.rs: `AsyncRead` and `AsyncWrite` for `SmuxStream`.
use webtor_rs.Base.{ℕ, zero, suc, true, List, [], none, some, length, ◌==◌, if◌then◌else◌}
use webtor_rs.Base.Words.{as_u32, wrapping_add}
use webtor_rs.Base.Outcome.{Poll, ok, err, panics, stuck, pending, ready}
use webtor_rs.Error.{IoError, invalid_data, write_zero}
use webtor_rs.Transport.{Transport}
use webtor_rs.Smux.Command.{SmuxCommand}
use webtor_rs.Smux.Segment
use webtor_rs.Smux.Segment.{SmuxSegment, encode, decode, decode_update}
use webtor_rs.Smux.State.{count_read, apply_update}
use webtor_rs.Smux.Stream.{
  SmuxStream, buffer_size, is_foreign, update_state, drain, received, deliver, drain_data,
}

-- What a decoded segment makes of the loop: it goes on, hands out bytes, or ends the stream.
pub data Verdict : Type 0 where
  skip : Verdict
  hand_out : List ℕ → Verdict
  finish : Verdict

module _ {S : Type 0} where
  -- The arms of `match segment.command` in `poll_read`.
  unfoldable pub poll_handle : SmuxCommand → SmuxSegment → SmuxStream S → Verdict × SmuxStream S
  poll_handle SmuxCommand.syn seg s =
      (skip, update_state (λ st. record st { syn_received = true }) s)
  poll_handle SmuxCommand.psh seg s =
      (hand_out seg.bytes, update_state (count_read (length seg.bytes)) s)
  poll_handle SmuxCommand.fin seg s = (finish, s)
  poll_handle SmuxCommand.upd seg s = elim (decode_update seg.bytes) [
    | ok update ↦ (skip, update_state (apply_update update) s)
    | _ ↦ (skip, s)
  ]
  poll_handle SmuxCommand.nop seg s = (skip, s)

  unfoldable pub poll_accept : SmuxSegment → SmuxStream S → Verdict × SmuxStream S
  poll_accept seg s = if is_foreign seg s.state then (skip, s) else poll_handle seg.command seg s

module _ {S : Type 0} (t : Transport S) where
  abbrev pub Polled : Type 0
  Polled = Poll IoError (List ℕ) × SmuxStream S

  unfoldable pub poll_inner : SmuxStream S → Polled
  poll_inner s =
      let (p, i) = t.poll_read buffer_size s.inner in
      elim p [
        | pending ↦ (pending, record s { inner = i })
        | ready r ↦ elim r [
          | ok bytes ↦
              if length bytes == 0
              then (ready (ok []), record s { inner = i })
              else (pending, received i bytes s)
          | err e ↦ (ready (err e), record s { inner = i })
          | panics ↦ (ready panics, record s { inner = i })
          | stuck ↦ (ready stuck, record s { inner = i })
        ]
      ]

  abbrev pub hand_over : ℕ → List ℕ → SmuxStream S → Polled
  hand_over n bytes s = let (out, done) = deliver t n bytes s in (ready (ok out), done)

  abbrev invalid : IoError
  invalid = record { kind = invalid_data; message = "Protocol error" }

  unfoldable pub poll_segments : ℕ → ℕ → SmuxStream S → Polled
  poll_segments zero n s = (ready stuck, s)
  poll_segments (suc fuel) n s = elim (decode s.read_buffer) [
    | ok next ↦ elim next [
      | some (seg, consumed) ↦
          let (v, s') = poll_accept seg (drain consumed s) in
          elim v [
            | skip ↦ poll_segments fuel n s'
            | hand_out bytes ↦ hand_over n bytes s'
            | finish ↦ (ready (ok []), s')
          ]
      | none ↦ poll_inner s
    ]
    | err e ↦ (ready (err invalid), s)
    | panics ↦ (ready panics, s)
    | stuck ↦ (ready stuck, s)
  ]

  -- Each round of the loop takes eight bytes of the buffer at least.
  unfoldable pub poll_read : ℕ → SmuxStream S → Polled
  poll_read n s =
      let (out, done) = drain_data t n s in
      if length s.data_buffer == 0
      then poll_segments (suc (length s.read_buffer)) n s
      else (ready (ok out), done)

  abbrev partial_write : IoError
  partial_write = record { kind = write_zero; message = "Partial SMUX write" }

  -- The flow control test of the source has an empty body, so it is not here.
  unfoldable pub poll_write : List ℕ → SmuxStream S → Poll IoError ℕ × SmuxStream S
  poll_write bytes s =
      let encoded = encode (Segment.psh s.state.stream_id bytes) in
      let (p, i) = t.poll_write encoded s.inner in
      elim p [
        | pending ↦ (pending, record s { inner = i })
        | ready r ↦ elim r [
          | ok n ↦
              if n == length encoded
              then (
                ready (ok (length bytes)),
                update_state
                    (λ st. record st {
                      self_write = wrapping_add st.self_write (as_u32 (length bytes));
                    })
                    (record s { inner = i }),
              )
              else (ready (err partial_write), record s { inner = i })
          | err e ↦ (ready (err e), record s { inner = i })
          | panics ↦ (ready panics, record s { inner = i })
          | stuck ↦ (ready stuck, record s { inner = i })
        ]
      ]

  unfoldable pub poll_flush : SmuxStream S → Poll IoError (Unit {0}) × SmuxStream S
  poll_flush s = let (p, i) = t.poll_flush s.inner in (p, record s { inner = i })

  -- The FIN counts as sent however much of it the lower stream took.
  unfoldable pub poll_close : SmuxStream S → Poll IoError (Unit {0}) × SmuxStream S
  poll_close s =
      let (p, i) = t.poll_write (encode (Segment.fin s.state.stream_id)) s.inner in
      let (q, j) = t.poll_close i in
      elim p [
        | pending ↦ (pending, record s { inner = i })
        | ready r ↦ elim r [
          | ok n ↦ (q, record s { inner = j })
          | err e ↦ (ready (err e), record s { inner = i })
          | panics ↦ (ready panics, record s { inner = i })
          | stuck ↦ (ready stuck, record s { inner = i })
        ]
      ]

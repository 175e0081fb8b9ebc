-- ===== src/Smux/Stream.antt =====
-- webtor/src/smux.rs: `SmuxStream` and its awaited methods. The lower stream is the parameter `t`;
-- a loop that waits for the lower stream runs on fuel.
use webtor_rs.Base.{
  ℕ, zero, suc, min, Bool, true, not, ◌&&◌, List, [], ◌++◌, Option, none, some, length, take, drop,
  ◌==◌, if◌then◌else◌,
}
use webtor_rs.Base.Words.{as_u32, wrapping_add}
use webtor_rs.Base.Outcome.{Result, ok, err, panics, stuck}
use webtor_rs.Base.Action.{Action, ◌>>=◌, ◌>>◌, pure}
use webtor_rs.Error.{TorError, IoError}
use webtor_rs.Transport.{Transport, map_err}
use webtor_rs.Smux.Command.{SmuxCommand}
use webtor_rs.Smux.Segment
use webtor_rs.Smux.Segment.{SmuxSegment, encode, decode, decode_update, default_stream_id}
use webtor_rs.Smux.State
use webtor_rs.Smux.State.{SmuxState, can_send, should_send_update, count_read, apply_update}

pub record SmuxStream (S : Type 0) : Type 0 where
  pub inner : S
  pub state : SmuxState
  pub read_buffer : List ℕ
  pub data_buffer : List ℕ

abbrev pub with_stream_id : {S : Type 0} → S → ℕ → SmuxStream S
with_stream_id inner stream_id = record {
  inner = inner;
  state = State.new stream_id;
  read_buffer = [];
  data_buffer = [];
}

abbrev pub new : {S : Type 0} → S → SmuxStream S
new inner = with_stream_id inner default_stream_id

abbrev pub buffer_size : ℕ
buffer_size = 4096

-- A segment for another stream; stream 0 is for control.
abbrev pub is_foreign : SmuxSegment → SmuxState → Bool
is_foreign seg st = not (seg.stream_id == st.stream_id) && not (seg.stream_id == 0)

abbrev pub update_state : {S : Type 0} → (SmuxState → SmuxState) → SmuxStream S → SmuxStream S
update_state f s = record s { state = f s.state }

abbrev pub drain : {S : Type 0} → ℕ → SmuxStream S → SmuxStream S
drain consumed s = record s { read_buffer = drop consumed s.read_buffer }

abbrev pub received : {S : Type 0} → S → List ℕ → SmuxStream S → SmuxStream S
received i bytes s = record s { inner = i; read_buffer = s.read_buffer ++ bytes }

module _ {S : Type 0} (t : Transport S) where
  abbrev pub Call : Type 0 → Type 0
  Call A = Action (SmuxStream S) TorError A

  abbrev pub on_inner : {A : Type 0} → Action S IoError A → TorError → Call A
  on_inner call e s = let (r, i) = call s.inner in (map_err r e, record s { inner = i })

  abbrev pub modify : (SmuxState → SmuxState) → Call (Unit {0})
  modify f s = (ok tt, update_state f s)

  abbrev pub lift : {A : Type 0} → Result TorError A → Call A
  lift r s = (r, s)

  -- `self.inner.write_all(&segment.encode())`
  abbrev pub write_segment : SmuxSegment → TorError → Call (Unit {0})
  write_segment seg e = on_inner (t.write_all (encode seg)) e

  abbrev send_syn : Call (Unit {0})
  send_syn s =
      (do
        write_segment (Segment.syn s.state.stream_id) (TorError.network "Failed to send SMUX SYN")
        write_segment (Segment.upd s.state.stream_id 0 s.state.self_window)
            (TorError.network "Failed to send SMUX UPD")
        on_inner t.flush (TorError.network "Failed to flush SMUX init")
        modify (λ st. record st { syn_sent = true }))
        s

  unfoldable pub initialize : Call (Unit {0})
  initialize s = if s.state.syn_sent then (ok tt, s) else send_syn s

  -- Sends a window update once half of the window has been read.
  unfoldable pub acknowledge : Call (Unit {0})
  acknowledge s =
      if should_send_update s.state
      then (do
        write_segment (Segment.upd s.state.stream_id s.state.self_read s.state.self_window)
            (TorError.network "Failed to send UPD")
        modify (λ st. record st { self_increment = 0 }))
          s
      else (ok tt, s)

  -- The arms of `match segment.command`; `none` is the end of the stream.
  unfoldable pub handle : SmuxCommand → SmuxSegment → Call (Option (List ℕ))
  handle SmuxCommand.syn seg = do modify (λ st. record st { syn_received = true }); pure (some [])
  handle SmuxCommand.fin seg = pure none
  handle SmuxCommand.psh seg = do
    modify (count_read (length seg.bytes))
    acknowledge
    pure (some seg.bytes)
  handle SmuxCommand.nop seg = do
    write_segment (Segment.nop seg.stream_id) (TorError.network "Failed to send NOP")
    pure (some [])
  handle SmuxCommand.upd seg = do
    update ← lift (decode_update seg.bytes)
    modify (apply_update update)
    pure (some [])

  unfoldable pub accept : SmuxSegment → Call (Option (List ℕ))
  accept seg s = if is_foreign seg s.state then (ok (some []), s) else handle seg.command seg s

  unfoldable pub process_next_segment : Call (Option (List ℕ))
  process_next_segment s = elim (decode s.read_buffer) [
    | ok next ↦ elim next [
      | some (seg, consumed) ↦ accept seg (drain consumed s)
      | none ↦ (ok none, s)
    ]
    | err e ↦ (err e, s)
    | panics ↦ (panics, s)
    | stuck ↦ (stuck, s)
  ]

  -- `while let Some(_) = self.process_next_segment().await? {}`
  unfoldable pub process_all : ℕ → Call (Unit {0})
  process_all zero s = (stuck, s)
  process_all (suc fuel) s =
      let (r, s') = process_next_segment s in
      elim r [
        | ok next ↦ elim next [ some bytes ↦ process_all fuel s' | none ↦ (ok tt, s') ]
        | err e ↦ (err e, s')
        | panics ↦ (panics, s')
        | stuck ↦ (stuck, s')
      ]

  -- A failed or empty read is passed over.
  unfoldable pub read_once : Call (Unit {0})
  read_once s =
      let (r, i) = t.read buffer_size s.inner in
      elim r [
        | ok bytes ↦ (ok tt, received i bytes s)
        | err e ↦ (ok tt, record s { inner = i })
        | panics ↦ (panics, record s { inner = i })
        | stuck ↦ (stuck, record s { inner = i })
      ]

  -- Each round takes a segment of eight bytes at least off the buffer.
  unfoldable pub process_incoming : Call (Unit {0})
  process_incoming = do read_once; λ s. process_all (suc (length s.read_buffer)) s

  unfoldable pub ensure_window : ℕ → Call (Unit {0})
  ensure_window len s =
      if can_send s.state len
      then (ok tt, s)
      else (do
        process_incoming
        λ s'.
            if can_send s'.state len
            then (ok tt, s')
            else (err (TorError.network "SMUX window full"), s'))
          s

  -- `if !self.state.syn_sent { self.initialize().await?; }`
  unfoldable pub ensure_initialized : Call (Unit {0})
  ensure_initialized s = if s.state.syn_sent then (ok tt, s) else initialize s

  abbrev push : List ℕ → Call (Unit {0})
  push bytes s =
      write_segment (Segment.psh s.state.stream_id bytes)
        (TorError.network "Failed to send SMUX data") s

  unfoldable pub send : List ℕ → Call ℕ
  send bytes = do
    ensure_initialized
    ensure_window (length bytes)
    push bytes
    modify (λ st. record st { self_write = wrapping_add st.self_write (as_u32 (length bytes)) })
    pure (length bytes)

  unfoldable pub close : Call (Unit {0})
  close s =
      (do
        write_segment (Segment.fin s.state.stream_id) (TorError.network "Failed to send FIN")
        on_inner t.flush (TorError.network "Failed to flush FIN"))
        s

  -- Hands out what fits the caller's buffer of `n` bytes and keeps the remainder.
  abbrev pub deliver : ℕ → List ℕ → SmuxStream S → List ℕ × SmuxStream S
  deliver n bytes s =
      let len = min n (length bytes) in
      (take len bytes, record s { data_buffer = s.data_buffer ++ drop len bytes })

  abbrev pub drain_data : ℕ → SmuxStream S → List ℕ × SmuxStream S
  drain_data n s =
      let len = min n (length s.data_buffer) in
      (take len s.data_buffer, record s { data_buffer = drop len s.data_buffer })

  unfoldable pub recv_loop : ℕ → ℕ → Call (List ℕ)
  recv_loop zero n s = (stuck, s)
  recv_loop (suc fuel) n s =
      let (r, s') = process_next_segment s in
      elim r [
        | ok next ↦ elim next [
          | some bytes ↦
              let rest = recv_loop fuel n s' in
              let (out, done) = deliver n bytes s' in
              if length bytes == 0 then rest else (ok out, done)
          | none ↦
              let (got, i) = t.read buffer_size s'.inner in
              elim got [
                | ok bytes ↦
                    let rest = recv_loop fuel n (received i bytes s') in
                    if length bytes == 0 then (ok [], record s' { inner = i }) else rest
                | err e ↦ (err (TorError.network "SMUX read error"), record s' { inner = i })
                | panics ↦ (panics, record s' { inner = i })
                | stuck ↦ (stuck, record s' { inner = i })
              ]
        ]
        | err e ↦ (err e, s')
        | panics ↦ (panics, s')
        | stuck ↦ (stuck, s')
      ]

  unfoldable pub recv : ℕ → ℕ → Call (List ℕ)
  recv fuel n s =
      let (out, done) = drain_data n s in
      if length s.data_buffer == 0 then recv_loop fuel n s else (ok out, done)

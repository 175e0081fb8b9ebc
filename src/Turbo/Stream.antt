-- ===== src/Turbo/Stream.antt =====
-- webtor/src/turbo.rs: `TurboStream`. The lower stream is the parameter `t`; a loop that waits
-- for the lower stream runs on fuel.
use webtor_rs.Base.{
  ℕ, zero, suc, min, Bool, true, false, List, [], ◌++◌, none, some, length, take, drop, ◌==◌,
  if◌then◌else◌,
}
use webtor_rs.Base.Outcome.{Result, Poll, ok, err, panics, stuck, pending, ready}
use webtor_rs.Base.Action.{Action, ◌>>=◌, ◌>>◌}
use webtor_rs.Error.{TorError, IoError, invalid_data, write_zero}
use webtor_rs.Transport.{Transport, map_err}
use webtor_rs.Turbo.Frame.{new, turbo_token, encode, decode}

pub record TurboStream (S : Type 0) : Type 0 where
  pub inner : S
  pub read_buffer : List ℕ
  -- Bytes of a decoded frame that the caller has not taken yet.
  pub write_buffer : List ℕ
  pub initialized : Bool
  pub client_id : List ℕ

-- `rand::random()` gives the client id of a stream that `TurboStream::new` makes.
abbrev pub with_client_id : {S : Type 0} → S → List ℕ → TurboStream S
with_client_id inner client_id = record {
  inner = inner;
  read_buffer = [];
  write_buffer = [];
  initialized = false;
  client_id = client_id;
}

abbrev pub buffer_size : ℕ
buffer_size = 4096

module _ {S : Type 0} (t : Transport S) where
  -- A call on the lower stream, with its error mapped.
  abbrev on_inner : {A : Type 0} → Action S IoError A → TorError → Action (TurboStream S) TorError A
  on_inner call e s = let (r, i) = call s.inner in (map_err r e, record s { inner = i })

  abbrev set_initialized : Action (TurboStream S) TorError (Unit {0})
  set_initialized s = (ok tt, record s { initialized = true })

  abbrev send_hello : Action (TurboStream S) TorError (Unit {0})
  send_hello s =
      (do
        on_inner (t.write_all (turbo_token ++ s.client_id))
            (TorError.network "Failed to send Turbo init")
        on_inner t.flush (TorError.network "Failed to flush Turbo init")
        set_initialized)
        s

  unfoldable pub initialize : Action (TurboStream S) TorError (Unit {0})
  initialize s = if s.initialized then (ok tt, s) else send_hello s

  abbrev lift : {A : Type 0} → Result TorError A → Action (TurboStream S) TorError A
  lift r s = (r, s)

  -- `if !self.initialized { self.initialize().await?; }`
  unfoldable pub ensure_initialized : Action (TurboStream S) TorError (Unit {0})
  ensure_initialized s = if s.initialized then (ok tt, s) else initialize s

  unfoldable pub send_frame : List ℕ → Action (TurboStream S) TorError (Unit {0})
  send_frame bytes = do
    ensure_initialized
    encoded ← lift (encode (new bytes))
    on_inner (t.write_all encoded) (TorError.network "Failed to send Turbo frame")

  -- `self.read_buffer.drain(..consumed)` and `self.read_buffer.extend_from_slice(..)`
  abbrev pub drain : ℕ → TurboStream S → TurboStream S
  drain consumed s = record s { read_buffer = drop consumed s.read_buffer }

  abbrev pub received : S → List ℕ → TurboStream S → TurboStream S
  received i bytes s = record s { inner = i; read_buffer = s.read_buffer ++ bytes }

  unfoldable pub recv_frame : ℕ → Action (TurboStream S) TorError (List ℕ)
  recv_frame zero s = (stuck, s)
  recv_frame (suc fuel) s = elim (decode s.read_buffer) [
    | ok next ↦ elim next [
      | some (frame, consumed) ↦
          let rest = recv_frame fuel (drain consumed s) in
          if frame.is_padding then rest else (ok frame.bytes, drain consumed s)
      | none ↦
          let (r, i) = t.read buffer_size s.inner in
          elim r [
            | ok bytes ↦
                let rest = recv_frame fuel (received i bytes s) in
                if length bytes == 0
                then (err (TorError.network "Turbo connection closed"), record s { inner = i })
                else rest
            | err e ↦ (err (TorError.network "Failed to read Turbo data"), record s { inner = i })
            | panics ↦ (panics, record s { inner = i })
            | stuck ↦ (stuck, record s { inner = i })
          ]
    ]
    | err e ↦ (err e, s)
    | panics ↦ (panics, s)
    | stuck ↦ (stuck, s)
  ]

  -- Hands out what fits the caller's buffer of `n` bytes and keeps the remainder.
  abbrev pub deliver : ℕ → List ℕ → TurboStream S → Poll IoError (List ℕ) × TurboStream S
  deliver n bytes s = (
    ready (ok (take (min n (length bytes)) bytes)),
    record s { write_buffer = s.write_buffer ++ drop (min n (length bytes)) bytes },
  )

  abbrev pub drain_decoded : ℕ → TurboStream S → Poll IoError (List ℕ) × TurboStream S
  drain_decoded n s =
      let len = min n (length s.write_buffer) in
      (ready (ok (take len s.write_buffer)), record s { write_buffer = drop len s.write_buffer })

  unfoldable pub poll_inner : TurboStream S → Poll IoError (List ℕ) × TurboStream S
  poll_inner s =
      let (p, i) = t.poll_read buffer_size s.inner in
      elim p [
        | pending ↦ (pending, record s { inner = i })
        | ready r ↦ elim r [
          | ok bytes ↦
              if length bytes == 0
              then (ready (ok []), record s { inner = i })
              else (pending, received i bytes s)
          | err e ↦ (ready (err e), record s { inner = i })
          | panics ↦ (ready panics, record s { inner = i })
          | stuck ↦ (ready stuck, record s { inner = i })
        ]
      ]

  abbrev invalid : IoError
  invalid = record { kind = invalid_data; message = "Turbo frame too large" }

  unfoldable pub poll_frames : ℕ → ℕ → TurboStream S → Poll IoError (List ℕ) × TurboStream S
  poll_frames zero n s = (ready stuck, s)
  poll_frames (suc fuel) n s = elim (decode s.read_buffer) [
    | ok next ↦ elim next [
      | some (frame, consumed) ↦
          let rest = poll_frames fuel n (drain consumed s) in
          if frame.is_padding then rest else deliver n frame.bytes (drain consumed s)
      | none ↦ poll_inner s
    ]
    | err e ↦ (ready (err invalid), s)
    | panics ↦ (ready panics, s)
    | stuck ↦ (ready stuck, s)
  ]

  -- Each round of the loop takes a byte of the buffer at least.
  unfoldable pub poll_read : ℕ → TurboStream S → Poll IoError (List ℕ) × TurboStream S
  poll_read n s =
      if length s.write_buffer == 0
      then poll_frames (suc (length s.read_buffer)) n s
      else drain_decoded n s

  abbrev partial_write : IoError
  partial_write = record { kind = write_zero; message = "Partial Turbo frame write" }

  unfoldable pub poll_write : List ℕ → TurboStream S → Poll IoError ℕ × TurboStream S
  poll_write bytes s = elim (encode (new bytes)) [
    | ok encoded ↦
        let (p, i) = t.poll_write encoded s.inner in
        elim p [
          | pending ↦ (pending, record s { inner = i })
          | ready r ↦ elim r [
            | ok n ↦ (
              ready (if n == length encoded then ok (length bytes) else err partial_write),
              record s { inner = i },
            )
            | err e ↦ (ready (err e), record s { inner = i })
            | panics ↦ (ready panics, record s { inner = i })
            | stuck ↦ (ready stuck, record s { inner = i })
          ]
        ]
    | err e ↦ (ready panics, s)
    | panics ↦ (ready panics, s)
    | stuck ↦ (ready stuck, s)
  ]

  unfoldable pub poll_flush : TurboStream S → Poll IoError (Unit {0}) × TurboStream S
  poll_flush s = let (p, i) = t.poll_flush s.inner in (p, record s { inner = i })

  unfoldable pub poll_close : TurboStream S → Poll IoError (Unit {0}) × TurboStream S
  poll_close s = let (p, i) = t.poll_close s.inner in (p, record s { inner = i })

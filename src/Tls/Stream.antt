-- ===== src/Tls/Stream.antt =====
-- `TlsStream` of subtle-tls/src/stream.rs: application data over the record layer. A loop that
-- waits for the stream below runs on fuel. The certificate and the keying material that the
-- connection keeps are left out.
pub mod Reads
pub mod PollRead
pub mod PollWrite
mod Runs
use webtor_rs.Base.{
  ℕ, zero, suc, ◌+◌, min, Bool, true, false, ◌&&◌, List, [], ◌∷◌, ◌++◌, Option, none, some, length,
  take, drop, get_or, leb, ltb, ◌==◌, if◌then◌else◌,
}
use webtor_rs.Base.BigEndian.{be16}
use webtor_rs.Base.Outcome.{Result, ok, err, panics, stuck}
use webtor_rs.Base.Action.{Action, given}
use webtor_rs.Error.{IoError, other}
use webtor_rs.Transport.{Transport}
use webtor_rs.Tls.Error.{TlsError, to_string}
use webtor_rs.Tls.Alert.{parse_alert}
use webtor_rs.Tls.Cipher.{Crypto}
use webtor_rs.Tls.Layer.{RecordLayer, content_type_application_data}
use webtor_rs.Tls.Record.{read_record, write_record}

pub record TlsStream (K C S : Type 0) : Type 0 where
  pub inner : S
  pub record_layer : RecordLayer K C
  pub read_buffer : List ℕ
  pub read_pos : ℕ
  -- Encrypted bytes that have been read, and that are still to be written.
  pub record_read_buffer : List ℕ
  pub record_write_buffer : List ℕ

-- What `connect` ends with.
abbrev pub connected : {K C S : Type 0} → RecordLayer K C → S → TlsStream K C S
connected layer inner = record {
  inner = inner;
  record_layer = layer;
  read_buffer = [];
  read_pos = 0;
  record_read_buffer = [];
  record_write_buffer = [];
}

abbrev pub is_close_notify : List ℕ → Bool
is_close_notify bytes = leb 2 (length bytes) && ((get_or bytes 0 0 == 1) && (get_or bytes 1 0 == 0))

module _ {K C S : Type 0} where
  abbrev pub with_conn : RecordLayer K C × S → TlsStream K C S → TlsStream K C S
  with_conn (layer, inner) s = record s { record_layer = layer; inner = inner }

  -- A read from the buffered plaintext, for a caller's buffer of `n` bytes.
  unfoldable pub drain_buffered : ℕ → TlsStream K C S → List ℕ × TlsStream K C S
  drain_buffered n s =
      let available = drop s.read_pos s.read_buffer in
      let to_copy = min n (length available) in
      (
        take to_copy available,
        if leb (length s.read_buffer) (s.read_pos + to_copy)
            then record s { read_buffer = []; read_pos = 0 }
            else record s { read_pos = s.read_pos + to_copy },
      )

  -- Hands out what fits of the data of one record, and buffers the rest.
  unfoldable pub hand_out : ℕ → List ℕ → TlsStream K C S → List ℕ × TlsStream K C S
  hand_out n bytes s =
      let to_copy = min n (length bytes) in
      (
        take to_copy bytes,
        if ltb to_copy (length bytes)
            then record s { read_buffer = drop to_copy bytes; read_pos = 0 }
            else s,
      )

-- What the loop of `read_app_data` makes of a record: none if it goes on.
unfoldable pub app_data : ℕ → List ℕ → Option (Result TlsError (List ℕ))
app_data content_type bytes =
    if content_type == content_type_application_data
    then some (ok bytes)
    else if content_type == 21
    then some
        (err (if is_close_notify bytes then TlsError.connection_closed else parse_alert bytes))
    else none

module _ {K C S : Type 0} (crypto : Crypto K C) (t : Transport S) where
  unfoldable pub read_app_data : ℕ → Action (TlsStream K C S) TlsError (List ℕ)
  read_app_data zero s = (stuck, s)
  read_app_data (suc fuel) s =
      let (r, conn) = read_record crypto t (s.record_layer, s.inner) in
      given r (with_conn conn s) (λ record_. elim (app_data record_.0 record_.1) [
        | some answer ↦ (answer, with_conn conn s)
        | none ↦ read_app_data fuel (with_conn conn s)
      ])

  unfoldable pub write_app_data : List ℕ → Action (TlsStream K C S) TlsError (Unit {0})
  write_app_data bytes s =
      let (r, conn) =
        write_record crypto t content_type_application_data bytes (s.record_layer, s.inner) in
      (r, with_conn conn s)

  unfoldable pub close : Action (TlsStream K C S) TlsError (Unit {0})
  close s =
      let (r, conn) = write_record crypto t 21 (1 ∷ 0 ∷ []) (s.record_layer, s.inner) in
      (r, with_conn conn s)

  abbrev as_io : {A : Type 0} → TlsError → Result IoError A
  as_io e = err (record { kind = other; message = to_string e })

  -- `Err(TlsError::ConnectionClosed)` is the end of the data.
  abbrev pub read_error : TlsError → Result IoError (List ℕ)
  read_error TlsError.connection_closed = ok []
  read_error e = as_io e

  -- What `read` makes of the answer of `read_app_data`, for a caller's buffer of `n` bytes.
  unfoldable pub read_answer :
      ℕ → Result TlsError (List ℕ) → TlsStream K C S → Result IoError (List ℕ) × TlsStream K C S
  read_answer n (ok bytes) s = let (first, kept) = hand_out n bytes s in (ok first, kept)
  read_answer n (err e) s = (read_error e, s)
  read_answer n panics s = (panics, s)
  read_answer n stuck s = (stuck, s)

  unfoldable pub read : ℕ → ℕ → Action (TlsStream K C S) IoError (List ℕ)
  read fuel n s =
      let (out, drained) = drain_buffered n s in
      let (r, s') = read_app_data fuel s in
      let fresh = read_answer n r s' in
      if ltb s.read_pos (length s.read_buffer) then (ok out, drained) else fresh

  unfoldable pub write : List ℕ → Action (TlsStream K C S) IoError ℕ
  write bytes s =
      let (r, s') = write_app_data bytes s in
      elim r [
        | ok done ↦ (ok (length bytes), s')
        | err e ↦ (as_io e, s')
        | panics ↦ (panics, s')
        | stuck ↦ (stuck, s')
      ]

  unfoldable pub flush : Action (TlsStream K C S) IoError (Unit {0})
  flush s = let (r, inner) = t.flush s.inner in (r, record s { inner = inner })

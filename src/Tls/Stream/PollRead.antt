-- ===== src/Tls/Stream/PollRead.antt =====
-- The read of `TlsStream` of subtle-tls/src/stream.rs that polls the stream below and
-- uses the synchronous ciphers.
use webtor_rs.Base.{
  ℕ, zero, suc, ◌+◌, Bool, true, false, ◌&&◌, String, List, [], ◌∷◌, ◌++◌, Option, none, some,
  length, take, drop, get_or, ltb, ◌==◌, if◌then◌else◌,
}
use webtor_rs.Base.BigEndian.{be16}
use webtor_rs.Base.Outcome.{Result, Poll, ok, err, panics, stuck, pending, ready}
use webtor_rs.Error.{IoError, invalid_data, connection_reset}
use webtor_rs.Transport.{Transport}
use webtor_rs.Tls.Error.{TlsError, to_string}
use webtor_rs.Tls.Alert.{parse_alert}
use webtor_rs.Tls.Cipher.{Crypto}
use webtor_rs.Tls.Layer.{
  RecordLayer, max_record_size, content_type_application_data, decrypt_record_sync,
}
use webtor_rs.Tls.Stream.{TlsStream, is_close_notify, drain_buffered, hand_out}

module _ {K C S : Type 0} (crypto : Crypto K C) (t : Transport S) where
  abbrev invalid : {A : Type 0} → String → Poll IoError A
  invalid message = ready (err (record { kind = invalid_data; message = message }))

  -- `self.record_layer.has_read_cipher()`
  abbrev has_read_cipher : RecordLayer K C → Bool
  has_read_cipher layer = elim layer.read_cipher [ none ↦ false | some c ↦ true ]

  -- The record at the front of the buffer, decrypted, with the state that has dropped it.
  unfoldable pub take_record : ℕ → TlsStream K C S → Result TlsError (ℕ × List ℕ) × TlsStream K C S
  take_record total_len s =
      let record_data = take total_len s.record_read_buffer in
      let content_type = get_or record_data 0 0 in
      let (r, layer) =
        decrypt_record_sync crypto (take 5 record_data) (drop 5 record_data) s.record_layer in
      let rest = record s { record_read_buffer = drop total_len s.record_read_buffer } in
      if has_read_cipher s.record_layer && (content_type == content_type_application_data)
      then (r, record rest { record_layer = layer })
      else (ok (content_type, drop 5 record_data), rest)

  -- What the loop of `poll_read` makes of a record: none if it goes on.
  unfoldable pub on_record :
      ℕ → ℕ × List ℕ → TlsStream K C S → Option (Poll IoError (List ℕ) × TlsStream K C S)
  on_record n (actual_type, plaintext) s =
      let (out, kept) = hand_out n plaintext s in
      if actual_type == content_type_application_data
      then some (ready (ok out), kept)
      else if actual_type == 21
      then some (
        if is_close_notify plaintext
            then ready (ok [])
            else ready (
                err (record {
                  kind = connection_reset;
                  message = to_string (parse_alert plaintext);
                })),
        s,
      )
      else none

  unfoldable pub poll_records : ℕ → ℕ → TlsStream K C S → Poll IoError (List ℕ) × TlsStream K C S
  poll_records zero n s = (ready stuck, s)
  poll_records (suc fuel) n s =
      let buffer = s.record_read_buffer in
      let size = be16 (get_or buffer 3 0) (get_or buffer 4 0) in
      let (q, taken) = take_record (5 + size) s in
      let (p, inner) = t.poll_read 4096 s.inner in
      let opened : Poll IoError (List ℕ) × TlsStream K C S = elim q [
        | ok record_ ↦ elim (on_record n record_ taken) [
          | some answer ↦ answer
          | none ↦ poll_records fuel n taken
        ]
        | err e ↦ (invalid "Decryption failed", taken)
        | panics ↦ (ready panics, taken)
        | stuck ↦ (ready stuck, taken)
      ] in
      let more : Poll IoError (List ℕ) × TlsStream K C S = elim p [
        | pending ↦ (pending, record s { inner = inner })
        | ready r ↦ elim r [
          | ok [] ↦ (ready (ok []), record s { inner = inner })
          | ok (b ∷ bytes) ↦
              poll_records fuel n
                (record s { inner = inner; record_read_buffer = buffer ++ b ∷ bytes })
          | err e ↦ (ready (err e), record s { inner = inner })
          | panics ↦ (ready panics, record s { inner = inner })
          | stuck ↦ (ready stuck, record s { inner = inner })
        ]
      ] in
      if ltb (length buffer) 5
      then more
      else if ltb max_record_size size
      then (invalid "TLS record too large", s)
      else if ltb (length buffer) (5 + size)
      then more
      else opened

  unfoldable pub poll_read : ℕ → ℕ → TlsStream K C S → Poll IoError (List ℕ) × TlsStream K C S
  poll_read fuel n s =
      let (out, drained) = drain_buffered n s in
      let polled = poll_records fuel n s in
      if ltb s.read_pos (length s.read_buffer) then (ready (ok out), drained) else polled

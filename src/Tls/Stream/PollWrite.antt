-- ===== src/Tls/Stream/PollWrite.antt =====
-- `poll_write`, `poll_flush` and `poll_close` of `TlsStream` in subtle-tls/src/stream.rs.
pub mod Queue
use webtor_rs.Base.{ℕ, zero, suc, String, List, [], ◌++◌, length, drop, ◌==◌, if◌then◌else◌}
use webtor_rs.Base.Outcome.{Result, Poll, ok, err, panics, stuck, pending, ready}
use webtor_rs.Error.{IoError, invalid_data, write_zero}
use webtor_rs.Transport.{Transport}
use webtor_rs.Tls.Error.{TlsError}
use webtor_rs.Tls.Cipher.{Crypto}
use webtor_rs.Tls.Layer.{RecordLayer, content_type_application_data, encrypt_record_sync}
use webtor_rs.Tls.Stream.{TlsStream}

module _ {K C S : Type 0} where
  -- A poll of the stream, and what comes after it once it is ready with a value.
  abbrev pub ready_then :
      {A : Type 0}
      → Poll IoError (Unit {0}) × TlsStream K C S
      → (TlsStream K C S → Poll IoError A × TlsStream K C S)
      → Poll IoError A × TlsStream K C S
  ready_then (pending, s) f = (pending, s)
  ready_then (ready (ok done), s) f = f s
  ready_then (ready (err e), s) f = (ready (err e), s)
  ready_then (ready panics, s) f = (ready panics, s)
  ready_then (ready stuck, s) f = (ready stuck, s)

  -- One round of the loop, after the write below; `k` goes on.
  unfoldable pub after_write :
      (TlsStream K C S → Poll IoError (Unit {0}) × TlsStream K C S)
      → TlsStream K C S
      → Poll IoError ℕ × S
      → Poll IoError (Unit {0}) × TlsStream K C S
  after_write k s (pending, inner) = (pending, record s { inner = inner })
  after_write k s (ready (ok zero), inner) = (
    ready (err (record { kind = write_zero; message = "write returned 0" })),
    record s { inner = inner },
  )
  after_write k s (ready (ok (suc n)), inner) =
      k (record s { inner = inner; record_write_buffer = drop (suc n) s.record_write_buffer })
  after_write k s (ready (err e), inner) = (ready (err e), record s { inner = inner })
  after_write k s (ready panics, inner) = (ready panics, record s { inner = inner })
  after_write k s (ready stuck, inner) = (ready stuck, record s { inner = inner })

  -- The end of `poll_write`, after the write of the encrypted record.
  unfoldable pub after_record :
      ℕ → List ℕ → TlsStream K C S → Poll IoError ℕ × S → Poll IoError ℕ × TlsStream K C S
  after_record n encrypted s (pending, inner) =
      (pending, record s { inner = inner; record_write_buffer = encrypted })
  after_record n encrypted s (ready (ok sent), inner) = (
    ready (ok n),
    record s { inner = inner; record_write_buffer = s.record_write_buffer ++ drop sent encrypted },
  )
  after_record n encrypted s (ready (err e), inner) = (ready (err e), record s { inner = inner })
  after_record n encrypted s (ready panics, inner) = (ready panics, record s { inner = inner })
  after_record n encrypted s (ready stuck, inner) = (ready stuck, record s { inner = inner })

module _ {K C S : Type 0} (crypto : Crypto K C) (t : Transport S) where
  -- `while !self.record_write_buffer.is_empty()`
  unfoldable pub write_pending : ℕ → TlsStream K C S → Poll IoError (Unit {0}) × TlsStream K C S
  write_pending zero s = (ready stuck, s)
  write_pending (suc fuel) s =
      if length s.record_write_buffer == 0
      then (ready (ok tt), s)
      else after_write (write_pending fuel) s (t.poll_write s.record_write_buffer s.inner)

  -- Each round writes one byte at least.
  abbrev pub write_all_pending : TlsStream K C S → Poll IoError (Unit {0}) × TlsStream K C S
  write_all_pending s = write_pending (suc (length s.record_write_buffer)) s

  -- The record is encrypted, and goes out or waits.
  unfoldable pub send_encrypted :
      List ℕ
      → TlsStream K C S
      → Result TlsError (List ℕ) × RecordLayer K C
      → Poll IoError ℕ × TlsStream K C S
  send_encrypted bytes s (ok encrypted, layer) =
      after_record (length bytes) encrypted (record s { record_layer = layer })
        (t.poll_write encrypted s.inner)
  send_encrypted bytes s (err e, layer) = (
    ready (err (record { kind = invalid_data; message = "Encryption failed" })),
    record s { record_layer = layer },
  )
  send_encrypted bytes s (panics, layer) = (ready panics, record s { record_layer = layer })
  send_encrypted bytes s (stuck, layer) = (ready stuck, record s { record_layer = layer })

  unfoldable pub poll_write : List ℕ → TlsStream K C S → Poll IoError ℕ × TlsStream K C S
  poll_write bytes s = ready_then (write_all_pending s) (λ s'.
      send_encrypted bytes s'
        (encrypt_record_sync crypto content_type_application_data bytes s'.record_layer))

  unfoldable pub poll_flush : TlsStream K C S → Poll IoError (Unit {0}) × TlsStream K C S
  poll_flush s =
      ready_then (write_all_pending s)
        (λ s'. let (q, inner) = t.poll_flush s'.inner in (q, record s' { inner = inner }))

  unfoldable pub poll_close : TlsStream K C S → Poll IoError (Unit {0}) × TlsStream K C S
  poll_close s =
      ready_then (poll_flush s)
        (λ s'. let (q, inner) = t.poll_close s'.inner in (q, record s' { inner = inner }))

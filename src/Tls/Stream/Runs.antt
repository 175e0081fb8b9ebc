-- ===== src/Tls/Stream/Runs.antt =====
-- Concrete runs of subtle-tls/src/stream.rs, and the theorems at concrete inputs.
use mathlib.Core.List.{flatten}
use webtor_rs.Base.{ℕ, ◌≡◌, refl, false, List, [], ◌∷◌, some, length}
use webtor_rs.Base.Outcome.{ok, pending, ready}
use webtor_rs.Transport.Script.{Script, script}
use webtor_rs.Tls.Toy.{Key, toy, cipher, primitives, trusting, handshake, Busy, busy, busy-Wire}
use webtor_rs.Tls.Cipher.{chacha_encrypt, encrypt_sync}
use webtor_rs.Tls.Nonce.{xor_at, compute_nonce}
use webtor_rs.Tls.Hkdf.{expand, expand_label, expand_rounds}
use webtor_rs.Tls.Layer.{
  RecordLayer, new_layer, with_write_cipher, seal_record, encrypt_record_sync,
}
use webtor_rs.Tls.Record.{read_record, unprotect}
use webtor_rs.Tls.Record.Messages.{messages_bytes}
use webtor_rs.Tls.Handshake.{HandshakeState}
use webtor_rs.Tls.Handshake.Parse.{
  byte, slice, be16_at, be24_at, skip_extensions, certificate, certificates, certificate_list,
  parse_certificate, parse_certificate_verify,
}
use webtor_rs.Tls.Handshake.Keys.{compute_finished, verify_server_finished}
use webtor_rs.Tls.Encrypted.{
  process_encrypted_handshake, await_finished, on_record, drain_messages, on_message,
  on_certificate, on_certificate_verify, on_finished, check_certificates, check_signature,
}
use webtor_rs.Tls.Stream.{
  TlsStream, connected, drain_buffered, hand_out, app_data, read, read_answer, read_app_data,
}
use webtor_rs.Tls.Stream.PollWrite.{
  after_write, after_record, write_pending, send_encrypted, poll_write,
}
use webtor_rs.Tls.Stream.PollWrite.Queue.{IsQueued, poll_write-IsQueued, poll_write-twice}

-- The server's messages in one record: extensions, certificate, signature, Finished.
abbrev server_flight : List ℕ
server_flight =
    messages_bytes
      ((8, 0 ∷ 0 ∷ [])
        ∷ (11, 0 ∷ 0 ∷ 0 ∷ 6 ∷ 0 ∷ 0 ∷ 1 ∷ 48 ∷ 0 ∷ 0 ∷ [])
        ∷ (15, 4 ∷ 3 ∷ 0 ∷ 1 ∷ 7 ∷ [])
        ∷ (20, 1 ∷ 2 ∷ [])
        ∷ [])
      []

abbrev conn : RecordLayer Key Key × Script
conn = (
  new_layer,
  record { incoming = (22 ∷ 3 ∷ 3 ∷ 0 ∷ length server_flight ∷ server_flight) ∷ []; log = [] },
)

abbrev after_handshake : (RecordLayer Key Key × Script) × HandshakeState
after_handshake =
    (process_encrypted_handshake primitives toy script 2 trusting false (conn, handshake)).1

handshake_run :
    process_encrypted_handshake primitives toy script 2 trusting false (conn, handshake)
    ≡ (ok (some (48 ∷ [])), after_handshake)
unfolding process_encrypted_handshake await_finished on_record drain_messages on_message
    on_certificate on_certificate_verify on_finished check_certificates check_signature
    compute_finished verify_server_finished parse_certificate parse_certificate_verify
    certificate_list certificates certificate skip_extensions be24_at be16_at byte slice read_record
    unprotect flatten expand_label expand expand_rounds
handshake_run = refl

abbrev hi : List ℕ
hi = 72 ∷ 105 ∷ []

abbrev writer : ℕ → TlsStream Key Key Busy
writer waits = connected (with_write_cipher cipher new_layer) (record { waits = waits; log = [] })

abbrev after : TlsStream Key Key Busy → TlsStream Key Key Busy
after s = (poll_write toy busy hi s).1

write_waits : poll_write toy busy hi (writer 1) ≡ (pending, after (writer 1))
unfolding poll_write write_pending send_encrypted after_record encrypt_record_sync seal_record
    encrypt_sync chacha_encrypt compute_nonce xor_at
write_waits = refl

write_goes_on : poll_write toy busy hi (after (writer 1)) ≡ (ready (ok 2), after (after (writer 1)))
unfolding poll_write write_pending after_write send_encrypted after_record encrypt_record_sync
    seal_record encrypt_sync chacha_encrypt compute_nonce xor_at
write_goes_on = refl

write_now : poll_write toy busy hi (writer 0) ≡ (ready (ok 2), after (writer 0))
unfolding poll_write write_pending send_encrypted after_record encrypt_record_sync seal_record
    encrypt_sync chacha_encrypt compute_nonce xor_at
write_now = refl

poll_write-IsQueued_example :
    (2 ≡ length hi) × IsQueued toy busy busy-Wire hi (writer 0) (after (writer 0))
poll_write-IsQueued_example =
    poll_write-IsQueued toy busy busy-Wire hi (writer 0) (after (writer 0)) 2 write_now

poll_write-twice_example :
    IsQueued toy busy busy-Wire hi (writer 1) (after (writer 1))
    × IsQueued toy busy busy-Wire hi (after (writer 1)) (after (after (writer 1)))
poll_write-twice_example =
    poll_write-twice toy busy busy-Wire hi (writer 1) (after (writer 1)) (after (after (writer 1)))
      2 refl write_waits write_goes_on

-- A record of two bytes, read one byte at a time.
abbrev reader : TlsStream Key Key Script
reader = connected new_layer (record { incoming = (23 ∷ 3 ∷ 3 ∷ 0 ∷ 2 ∷ hi) ∷ []; log = [] })

read_one : read toy script 1 1 reader ≡ (ok (72 ∷ []), (read toy script 1 1 reader).1)
unfolding read drain_buffered hand_out app_data read_answer read_app_data read_record unprotect
    flatten
read_one = refl

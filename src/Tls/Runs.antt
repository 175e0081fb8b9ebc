-- ===== src/Tls/Runs.antt =====
-- Concrete runs of subtle-tls/src/record.rs, and the theorems at concrete inputs.
use mathlib.Core.List.{flatten}
use webtor_rs.Base.{ℕ, zero, suc, ◌≡◌, refl, ap, arith, List, [], ◌∷◌, ◌++◌, length}
use webtor_rs.Base.Outcome.{ok, err}
use webtor_rs.Transport.Script.{Script, script, recorder, arrivals}
use webtor_rs.Tls.Error.{TlsError}
use webtor_rs.Tls.Toy.{Key, toy, toy-Works, cipher}
use webtor_rs.Tls.Cipher.{chacha_encrypt, encrypt}
use webtor_rs.Tls.Nonce.{xor_at, compute_nonce, increment_sequence}
use webtor_rs.Tls.Nonces.{compute_nonce-advance_injective}
use webtor_rs.Tls.Layer.{
  RecordLayer, new_layer, with_read_cipher, with_write_cipher, record_header, seal_record,
  open_record,
}
use webtor_rs.Tls.Record.{
  unprotect, read_record, protect, write_single_record, write_record, read_handshake_messages,
}
use webtor_rs.Tls.Record.ReadBack.{ReadsBack, write_record-ReadsBack}
use webtor_rs.Tls.Record.Messages.{messages_bytes, read_handshake_messages-messages_bytes}
use webtor_rs.Tls.Record.Sync.{
  open_record-padded, encrypt_record_sync-wire, encrypt_record_sync-too_large,
}
use webtor_rs.Tls.Hkdf.{zeros}

abbrev hi : List ℕ
hi = 72 ∷ 105 ∷ []

abbrev quiet : List ℕ → Script
quiet bytes = record { incoming = bytes ∷ []; log = [] }

abbrev layer : RecordLayer Key Key
layer = with_write_cipher cipher (with_read_cipher cipher new_layer)

-- The record of `hi` as application data.
abbrev hi_record : List ℕ
hi_record = 23 ∷ 3 ∷ 3 ∷ 0 ∷ 19 ∷ 72 ∷ 105 ∷ 23 ∷ zeros 16

abbrev fifth : ℕ
fifth = 5

compute_nonce-advance_injective_example : fifth ≡ 5
compute_nonce-advance_injective_example =
    compute_nonce-advance_injective cipher.aead (zeros 12) 5 5 (omega arith) (omega arith)
      (omega arith) refl

write_hi : (write_record toy script 23 hi (layer, quiet [])).1.1.log ≡ [] ++ hi_record
unfolding write_record write_single_record protect seal_record encrypt chacha_encrypt compute_nonce
    xor_at
write_hi = refl

write_record-ReadsBack_example :
    ReadsBack toy toy-Works script recorder script arrivals 23 hi
      (9 ∷ [])
      (layer, quiet (hi_record ++ 9 ∷ []))
      (layer, quiet [])
unfolding flatten
write_record-ReadsBack_example =
    write_record-ReadsBack toy toy-Works script recorder script arrivals 23 hi hi_record (9 ∷ [])
      cipher layer layer (quiet []) (quiet (hi_record ++ 9 ∷ [])) refl refl refl write_hi refl

-- Two handshake messages in one record, with a stray byte.
abbrev two_messages : List (ℕ × List ℕ)
two_messages = (8, []) ∷ (20, 1 ∷ 2 ∷ []) ∷ []

abbrev flight : Script
flight = quiet (22 ∷ 3 ∷ 3 ∷ 0 ∷ 11 ∷ messages_bytes two_messages (7 ∷ []))

flight_read : read_record toy script (new_layer, flight) ≡ (
  ok (22, messages_bytes two_messages (7 ∷ [])),
  (new_layer, record flight { incoming = [] ∷ [] }),
)
unfolding read_record unprotect flatten
flight_read = refl

read_handshake_messages-messages_bytes_example :
    read_handshake_messages toy script (new_layer, flight)
    ≡ (ok two_messages, (new_layer, record flight { incoming = [] ∷ [] }))
read_handshake_messages-messages_bytes_example =
    read_handshake_messages-messages_bytes toy script two_messages (7 ∷ []) (new_layer, flight)
      (new_layer, record flight { incoming = [] ∷ [] }) (omega arith, (omega arith, tt))
      (omega arith) flight_read

open_record-padded_example :
    open_record (λ c n h b. ok b) [] (72 ∷ 23 ∷ 0 ∷ 0 ∷ []) cipher
    ≡ (ok (0, 72 ∷ 23 ∷ 0 ∷ []), increment_sequence cipher)
unfolding compute_nonce xor_at
open_record-padded_example =
    open_record-padded (λ c n h b. ok b) [] (72 ∷ 23 ∷ 0 ∷ 0 ∷ []) (zeros 12) (72 ∷ []) (0 ∷ []) 23
      cipher refl refl

-- Data that is too long for one record, and the record that is made of it.
abbrev long_data : List ℕ
long_data = zeros 16700

length-zeros : (n : ℕ) → length (zeros n) ≡ n
length-zeros zero = refl
length-zeros (suc n) = ap suc (length-zeros n)

abbrev long_body : List ℕ
long_body = (encrypt_record_sync-wire toy toy-Works tt 23 long_data cipher layer refl refl refl).0

abbrev long_wire : List ℕ
long_wire = record_header 23 (length long_body) ++ long_body

encrypt_record_sync-too_large_example :
    (read_record toy script (new_layer, quiet long_wire)).0
    ≡ err (TlsError.record_layer "Record too large")
unfolding flatten
encrypt_record_sync-too_large_example =
    encrypt_record_sync-too_large toy toy-Works script arrivals tt 23 long_data long_wire [] cipher
      layer (with_write_cipher (increment_sequence cipher) layer) new_layer (quiet long_wire) refl
      refl refl (omega (arith, length-zeros 16700)) (omega (arith, length-zeros 16700))
      (encrypt_record_sync-wire toy toy-Works tt 23 long_data cipher layer refl refl refl).3 refl

-- ===== src/Tls/Record/Messages.antt =====
-- `read_handshake_messages` of subtle-tls/src/record.rs: how a record is cut into messages.
use webtor_rs.Base.{
  ℕ, zero, suc, ◌<◌, ◌%◌, ◌/◌, ◌^◌, ◌≡◌, refl, ◌∙◌, arith, List, [], ◌∷◌, ◌++◌, ◌==◌, length, take,
  drop, All, length-append, length-drop, take-length-append, drop-length-append, le→ltb_false, ltb,
  Bool-cases, inl, inr,
}
use webtor_rs.Base.BigEndian.{be24, be24-be24_bytes}
use webtor_rs.Base.Outcome.{ok, Ends, Ends->>=-ok}
use webtor_rs.Base.Action.{>>=-step}
use webtor_rs.Transport.{Transport}
use webtor_rs.Tls.Cipher.{Crypto}
use webtor_rs.Tls.Layer.{RecordLayer, handshake_messages}
use webtor_rs.Tls.Record.{parse_messages, read_record, read_handshake_messages}

-- A message: its type, the three bytes of its length, its body.
abbrev pub message_bytes : ℕ × List ℕ → List ℕ
message_bytes (msg_type, body) =
    msg_type ∷ length body / 65536 % 256 ∷ length body / 256 % 256 ∷ length body % 256 ∷ body

abbrev pub HasBody : ℕ × List ℕ → Type 0
HasBody m = length m.1 < 2 ^ 24

abbrev pub messages_bytes : List (ℕ × List ℕ) → List ℕ → List ℕ
messages_bytes [] tail = tail
messages_bytes (m ∷ ms) tail = message_bytes m ++ messages_bytes ms tail

handshake_messages-messages_bytes :
    (fuel : ℕ) (ms : List (ℕ × List ℕ)) (tail : List ℕ)
    → All HasBody ms
    → length tail < 4
    → length (messages_bytes ms tail) < fuel
    → handshake_messages fuel (messages_bytes ms tail) ≡ ok ms
unfolding handshake_messages
handshake_messages-messages_bytes zero ms tail a t h = absurd (omega arith)
handshake_messages-messages_bytes (suc fuel) [] [] a t h = refl
handshake_messages-messages_bytes (suc fuel) [] (x ∷ []) a t h = refl
handshake_messages-messages_bytes (suc fuel) [] (x ∷ y ∷ []) a t h = refl
handshake_messages-messages_bytes (suc fuel) [] (x ∷ y ∷ z ∷ []) a t h = refl
handshake_messages-messages_bytes (suc fuel) [] (x ∷ y ∷ z ∷ w ∷ tail) a t h = absurd (omega arith)
handshake_messages-messages_bytes (suc fuel) ((ty, body) ∷ ms) tail a t h =
    let rest = messages_bytes ms tail in
    let n = length-append body rest in
    let later = handshake_messages-messages_bytes fuel ms tail a.1 t (omega arith) in
    rw
      (
        be24-be24_bytes (length body) a.0,
        le→ltb_false (length (body ++ rest)) (length body) (omega arith),
        drop-length-append body rest,
        take-length-append body rest,
        later,
      )
      refl

handshake_messages-Ends :
    (fuel : ℕ) (bytes : List ℕ) → length bytes < fuel → Ends (handshake_messages fuel bytes)
unfolding handshake_messages
handshake_messages-Ends zero bytes h = absurd (omega arith)
handshake_messages-Ends (suc fuel) [] h = (λ e. cc, λ e. cc)
handshake_messages-Ends (suc fuel) (x ∷ []) h = (λ e. cc, λ e. cc)
handshake_messages-Ends (suc fuel) (x ∷ y ∷ []) h = (λ e. cc, λ e. cc)
handshake_messages-Ends (suc fuel) (x ∷ y ∷ z ∷ []) h = (λ e. cc, λ e. cc)
handshake_messages-Ends (suc fuel) (ty ∷ a ∷ b ∷ c ∷ bytes) h =
    let n = be24 a b c in
    let later = handshake_messages-Ends fuel (drop n bytes) (omega (arith, length-drop n bytes)) in
    elim (Bool-cases (ltb (length bytes) n)) [
      | inl e ↦ rw e (λ e. cc, λ e. cc)
      | inr e ↦ rw e (
          Ends->>=-ok (handshake_messages fuel (drop n bytes)) (λ ms. (ty, take n bytes) ∷ ms)
            later)
    ]

module _ {K C S : Type 0} (crypto : Crypto K C) (t : Transport S) where
  -- A handshake record that holds whole messages, followed by three stray bytes at most, is read as
  -- exactly those messages.
  pub read_handshake_messages-messages_bytes :
      (ms : List (ℕ × List ℕ)) (tail : List ℕ) (s s' : RecordLayer K C × S)
      → All HasBody ms
      → length tail < 4
      → read_record crypto t s ≡ (ok (22, messages_bytes ms tail), s')
      → read_handshake_messages crypto t s ≡ (ok ms, s')
  unfolding read_handshake_messages
  read_handshake_messages-messages_bytes ms tail s s' a h e =
      let bytes = messages_bytes ms tail in
      >>=-step (read_record crypto t) (λ r s. (parse_messages crypto t r, s)) s (22, bytes) s' e
      ∙ rw (handshake_messages-messages_bytes (suc (length bytes)) ms tail a h (omega arith)) refl

  -- Whatever the record read holds, the call ends with messages or an error: its loop does not run
  -- forever and no index is out of range.
  pub read_handshake_messages-Ends :
      (ct : ℕ) (bytes : List ℕ) (s s' : RecordLayer K C × S)
      → read_record crypto t s ≡ (ok (ct, bytes), s')
      → Ends (read_handshake_messages crypto t s).0
  unfolding read_handshake_messages
  read_handshake_messages-Ends ct bytes s s' e =
      rw
        (>>=-step (read_record crypto t) (λ r s. (parse_messages crypto t r, s)) s (ct, bytes) s' e)
        (elim (Bool-cases (ct == 22)) [
          | inl h ↦ rw h (handshake_messages-Ends (suc (length bytes)) bytes (omega arith))
          | inr h ↦ rw h (λ e. cc, λ e. cc)
        ])

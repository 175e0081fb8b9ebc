-- ===== src/Tls/Encrypted/Sound.antt =====
-- What the flags of `process_encrypted_handshake` in subtle-tls/src/stream.rs stand for, kept by
-- every message and record.
use webtor_rs.Base.{
  ℕ, zero, suc, ◌+◌, ◌≡◌, refl, sym, ap, ◌∙◌, true, false, List, ◌++◌, append_assoc, length, take,
  drop, get_or, ltb, ◌==◌, ◌⊎◌, inl, inr,
}
use webtor_rs.Base.BigEndian.{be24}
use webtor_rs.Base.Outcome.{Result, ok, err, panics, stuck, Gives-value}
use webtor_rs.Base.Action.{After, After-if, After-given, After-then}
use webtor_rs.Transport.{Transport}
use webtor_rs.Tls.Error.{TlsError}
use webtor_rs.Tls.Cipher.{Crypto}
use webtor_rs.Tls.Layer.{RecordLayer}
use webtor_rs.Tls.Record.{read_record}
use webtor_rs.Tls.Handshake.{Primitives, HandshakeState, update_transcript}
use webtor_rs.Tls.Handshake.Parse.{parse_certificate, parse_certificate_verify}
use webtor_rs.Tls.Handshake.Total.{parse_certificate-Gives, NotEmpty}
use webtor_rs.Tls.Handshake.Keys.{verify_server_finished}
use webtor_rs.Tls.Encrypted.{
  Progress, heard, on_certificate, on_certificate_verify, on_finished, on_message, drain_messages,
  on_record, await_finished,
}

abbrev pub at_transcript : HandshakeState → List ℕ → HandshakeState
at_transcript hs bytes = record hs { transcript = bytes }

module _ (p : Primitives) (hs : HandshakeState) where
  -- `hash` is the hash of the first part of the transcript.
  abbrev pub HashesPrefix : List ℕ → List ℕ → Type 0
  HashesPrefix hash transcript =
      (before : List ℕ) × (after : List ℕ) × (transcript ≡ before ++ after)
      × (p.sha256 before ≡ ok hash)

  -- The server sent the verify data for the first part of the transcript.
  abbrev pub FinishesPrefix : List ℕ → Type 0
  FinishesPrefix transcript =
      (before : List ℕ) × (after : List ℕ) × (verify_data : List ℕ) × (transcript ≡ before ++ after)
      × (verify_server_finished p verify_data (at_transcript hs before) ≡ ok tt)

  HashesPrefix-longer :
      (hash transcript msg : List ℕ)
      → HashesPrefix hash transcript
      → HashesPrefix hash (transcript ++ msg)
  HashesPrefix-longer hash transcript msg (before, after, e, h) =
      (before, after ++ msg, ap (λ x. x ++ msg) e ∙ append_assoc before after msg, h)

  FinishesPrefix-longer :
      (transcript msg : List ℕ) → FinishesPrefix transcript → FinishesPrefix (transcript ++ msg)
  FinishesPrefix-longer transcript msg (before, after, v, e, h) =
      (before, after ++ msg, v, ap (λ x. x ++ msg) e ∙ append_assoc before after msg, h)

  -- What the flags of the loop stand for.
  abbrev pub Sound : Progress → Type 0
  Sound s =
      (s.handshake ≡ at_transcript hs s.handshake.transcript)
      × ((s.got_certificate ≡ false) ⊎ NotEmpty s.cert_chain)
      × ((s.got_certificate_verify ≡ false)
          ⊎ HashesPrefix s.transcript_before_cert_verify s.handshake.transcript)
      × ((s.got_finished ≡ false) ⊎ FinishesPrefix s.handshake.transcript)

  abbrev pub Kept : Unit {0} → Progress → Type 0
  Kept done s = Sound s

  either : {A B C : Type 0} → (B → C) → A ⊎ B → A ⊎ C
  either f (inl a) = inl a
  either f (inr b) = inr (f b)

  Sound-heard : (msg : List ℕ) (s : Progress) → Sound s → Sound (heard msg s)
  Sound-heard msg s (same, chain, hashed, finished) = (
    ap (update_transcript msg) same,
    chain,
    either (HashesPrefix-longer s.transcript_before_cert_verify s.handshake.transcript msg) hashed,
    either (FinishesPrefix-longer s.handshake.transcript msg) finished,
  )

  on_certificate-Sound :
      (msg : List ℕ) (s : Progress) → Sound s → After Kept (on_certificate p msg s)
  unfolding on_certificate
  on_certificate-Sound msg s h =
      let (same, chain, hashed, finished) = Sound-heard msg s h in
      After-given Kept (parse_certificate (drop 4 msg)) (heard msg s) _ (λ certs e. (
        same,
        inr (
            Gives-value NotEmpty (parse_certificate (drop 4 msg)) certs
              (parse_certificate-Gives (drop 4 msg)) e),
        hashed,
        finished,
      ))

  on_certificate_verify-Sound :
      (msg : List ℕ) (s : Progress) → Sound s → After Kept (on_certificate_verify p msg s)
  unfolding on_certificate_verify
  on_certificate_verify-Sound msg s h =
      let (same, chain, hashed, finished) = Sound-heard msg s h in
      After-given Kept (p.sha256 s.handshake.transcript) s _ (λ hash e.
        After-given Kept (parse_certificate_verify (drop 4 msg)) _ _
          (λ verify f. (same, chain, inr (s.handshake.transcript, msg, refl, e), finished)))

  on_finished-Sound : (msg : List ℕ) (s : Progress) → Sound s → After Kept (on_finished p msg s)
  unfolding on_finished
  on_finished-Sound msg s h =
      let (same, chain, hashed, finished) = Sound-heard msg s h in
      After-given Kept (verify_server_finished p (drop 4 msg) s.handshake) s _ (λ verified e. (
        same,
        chain,
        hashed,
        inr (
          s.handshake.transcript,
          msg,
          drop 4 msg,
          refl,
          ap (verify_server_finished p (drop 4 msg)) (sym h.0) ∙ e,
        ),
      ))

  on_message-Sound :
      (ty : ℕ) (msg : List ℕ) (s : Progress) → Sound s → After Kept (on_message p ty msg s)
  unfolding on_message
  on_message-Sound ty msg s h =
      After-if Kept (ty == 8) _ _ (λ e. Sound-heard msg s h)
        (λ e.
          After-if Kept (ty == 11) _ _ (λ e. on_certificate-Sound msg s h)
            (λ e.
              After-if Kept (ty == 15) _ _ (λ e. on_certificate_verify-Sound msg s h)
                (λ e.
                  After-if Kept (ty == 20) _ _ (λ e. on_finished-Sound msg s h)
                    (λ e. Sound-heard msg s h))))

  drain_messages-Sound : (fuel : ℕ) (s : Progress) → Sound s → After Kept (drain_messages p fuel s)
  unfolding drain_messages
  drain_messages-Sound zero s h = tt
  drain_messages-Sound (suc fuel) s h =
      let buffer = s.handshake_buffer in
      let total_len = 4 + be24 (get_or buffer 1 0) (get_or buffer 2 0) (get_or buffer 3 0) in
      let taken = record s { handshake_buffer = drop total_len buffer } in
      let step = on_message p (get_or buffer 0 0) (take total_len buffer) taken in
      After-if Kept (ltb (length buffer) 4) _ _ (λ e. h)
        (λ e.
          After-if Kept (ltb (length buffer) total_len) _ _ (λ e. h)
            (λ e.
              After-then Kept Kept step.0 step.1 _
                (on_message-Sound (get_or buffer 0 0) (take total_len buffer) taken h)
                (λ done sound. drain_messages-Sound fuel step.1 sound)))

  on_record-Sound :
      (ct : ℕ) (bytes : List ℕ) (s : Progress) → Sound s → After Kept (on_record p ct bytes s)
  unfolding on_record
  on_record-Sound ct bytes s h =
      After-if Kept (ct == 20) _ _ (λ e. h)
        (λ e.
          After-if Kept (ct == 21) _ _ (λ e. tt)
            (λ e.
              After-if Kept (ct == 22) _ _
                (λ e.
                  drain_messages-Sound _
                    (record s { handshake_buffer = s.handshake_buffer ++ bytes }) h)
                (λ e. tt)))

  module _ {K C S : Type 0} (crypto : Crypto K C) (t : Transport S) where
    abbrev pub Finished : Unit {0} → (RecordLayer K C × S) × Progress → Type 0
    Finished done s = Sound s.1 × (s.1.got_finished ≡ true)

    abbrev Carried : Unit {0} → (RecordLayer K C × S) × Progress → Type 0
    Carried done s = Sound s.1

    with_conn :
        (c : RecordLayer K C × S) (r : Result TlsError (Unit {0})) (pr : Progress)
        → After Kept (r, pr)
        → After Carried (r, (c, pr))
    with_conn c (ok a) pr h = h
    with_conn c (err e) pr h = tt
    with_conn c panics pr h = tt
    with_conn c stuck pr h = tt

    pub await_finished-Sound :
        (fuel : ℕ) (s : (RecordLayer K C × S) × Progress)
        → Sound s.1
        → After Finished (await_finished p crypto t fuel s)
    unfolding await_finished
    await_finished-Sound zero s h = tt
    await_finished-Sound (suc fuel) s h =
        let (r, conn) = read_record crypto t s.0 in
        After-if Finished s.1.got_finished _ _ (λ e. (h, e))
          (λ e.
            After-given Finished r (conn, s.1) _
              (λ record_ got.
                let step = on_record p record_.0 record_.1 s.1 in
                After-then Finished Carried step.0 (conn, step.1) _
                  (with_conn conn step.0 step.1 (on_record-Sound record_.0 record_.1 s.1 h))
                  (λ done sound. await_finished-Sound fuel (conn, step.1) sound)))

-- ===== src/Tls/Cert/Served.antt =====
-- What a client knows of its server when the encrypted handshake of subtle-tls/src/stream.rs, with the
-- certificate checks of subtle-tls/src/cert.rs, has returned.
use webtor_rs.Base.{ℕ, ◌≡◌, refl, false, Option, some, List, ◌∷◌}
use webtor_rs.Base.Int.{ℤ}
use webtor_rs.Base.Outcome.{Result, ok}
use webtor_rs.Transport.{Transport}
use webtor_rs.Tls.Error.{TlsError}
use webtor_rs.Tls.Cipher.{Crypto}
use webtor_rs.Tls.Layer.{RecordLayer}
use webtor_rs.Tls.Handshake.{Primitives, HandshakeState}
use webtor_rs.Tls.Encrypted.{process_encrypted_handshake}
use webtor_rs.Tls.Encrypted.Sound.{HashesPrefix, FinishesPrefix}
use webtor_rs.Tls.Encrypted.Authentic.{process_encrypted_handshake-IsAuthentic}
use webtor_rs.Tls.Cert.TrustStore.{Parser, TrustStore}
use webtor_rs.Tls.Cert.Verify.{SubtleCrypto}
use webtor_rs.Tls.Cert.Chain.{new, verifier, extract_public_key_spki, verify_certificate_verify}
use webtor_rs.Tls.Cert.Verified.{IsVerified, verify_chain-IsVerified}

module _ {K C S A : Type 0} (p : Primitives) (hs : HandshakeState) (crypto : Crypto K C)
    (t : Transport S) (x509 : Parser) (subtle : SubtleCrypto A)
    (to_lowercase : List ℕ → List ℕ) where
  -- The server of the certificate that the handshake returned.
  abbrev pub IsServer : ℤ → Option (List ℕ) → List ℕ → Type 0
  IsServer now cert transcript =
      (leaf : List ℕ) × (rest : List (List ℕ)) × (key : List ℕ) × (algorithm : ℕ)
      × (signature : List ℕ) × (hash : List ℕ) × (cert ≡ some leaf)
      × IsVerified x509 subtle to_lowercase now hs.server_name (leaf ∷ rest)
      × (extract_public_key_spki x509 leaf ≡ ok key)
      × (verify_certificate_verify subtle algorithm signature hash key ≡ ok tt)
      × HashesPrefix p hs hash transcript
      × FinishesPrefix p hs transcript

  -- With verification on and the checks of cert.rs, `process_encrypted_handshake` returns only the
  -- certificate of a server that is named by it: the certificate heads a chain whose names, times
  -- and signatures were checked, `verify_certificate_verify` has accepted a signature for the hash of a
  -- first part of the transcript under its key, and `verify_server_finished` a Finished message for a
  -- first part of the transcript.
  pub process_encrypted_handshake-IsServer :
      (now : ℤ) (store : Result TlsError TrustStore) (fuel : ℕ) (conn conn' : RecordLayer K C × S)
      (after : HandshakeState) (cert : Option (List ℕ))
      → process_encrypted_handshake p crypto t fuel
          (verifier x509 subtle to_lowercase now store)
          false
          (conn, hs)
        ≡ (ok cert, (conn', after))
      → IsServer now cert after.transcript
  unfolding new
  process_encrypted_handshake-IsServer now store fuel conn conn' after cert e =
      let (
        leaf, rest, key, algorithm, signature, hash, first, chain, extracted, signed, hashed,
        finished,
      ) =
        process_encrypted_handshake-IsAuthentic p hs crypto t
          (verifier x509 subtle to_lowercase now store) fuel conn conn' after cert e in
      (
        leaf,
        rest,
        key,
        algorithm,
        signature,
        hash,
        first,
        verify_chain-IsVerified x509 subtle to_lowercase now (new hs.server_name false store)
            (leaf ∷ rest) refl chain,
        extracted,
        signed,
        hashed,
        finished,
      )

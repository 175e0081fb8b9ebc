-- ===== src/Tls/Toy.antt =====
-- Primitives for tests of subtle-tls: a tag of zeros in place of a real one, and transports.
use webtor_rs.Base.{
  ℕ, zero, suc, ◌-◌, ◌≡◌, refl, sym, ap, ◌∙◌, arith, true, List, [], ◌∷◌, ◌++◌, append-nil, Option,
  some, length, take, length-append, take-length-append,
}
use webtor_rs.Base.Outcome.{Result, ok, pending, ready}
use webtor_rs.Transport.{Transport}
use webtor_rs.Tls.Error.{TlsError}
use webtor_rs.Tls.Cipher.{Crypto, IsAead, Works, chacha20, get_subtle_crypto, found}
use webtor_rs.Tls.Nonce.{RecordCipher, new}
use webtor_rs.Tls.Hkdf.{zeros, IsHmac}
use webtor_rs.Tls.Exporter.{Agrees}
use webtor_rs.Tls.Handshake.{Primitives, HandshakeState, new_state}
use webtor_rs.Tls.Handshake.Fit.{Imports}
use webtor_rs.Tls.Encrypted.{Verifier}
use webtor_rs.Tls.Stream.PollWrite.Queue.{Wire, Accepted}

abbrev pub Key : Type 0
Key = Unit {0}

abbrev seal : Key → List ℕ → List ℕ → List ℕ → Option (List ℕ)
seal k nonce aad text = some (text ++ zeros 16)

abbrev unseal : Key → List ℕ → List ℕ → List ℕ → Option (List ℕ)
unseal k nonce aad c = some (take (length c - 16) c)

abbrev pub toy : Crypto Key Key
toy = record {
  window_crypto = true;
  global_crypto = found;
  global_subtle = found;
  import_key = λ key bits. some tt;
  aes_encrypt = seal;
  aes_decrypt = unseal;
  chacha_new = λ key. tt;
  chacha_encrypt = seal;
  chacha_decrypt = unseal;
}

unseal_text : (text : List ℕ) → take (length (text ++ zeros 16) - 16) (text ++ zeros 16) ≡ text
unseal_text text =
    let e : length (text ++ zeros 16) - 16 ≡ length text =
      omega (arith, length-append text (zeros 16)) in
    ap (λ n. take n (text ++ zeros 16)) e ∙ take-length-append text (zeros 16)

pub toy-IsAead : IsAead seal unseal
toy-IsAead = record {
  seals = λ k nonce aad text h.
      (text ++ zeros 16, refl, length-append text (zeros 16), ap some (unseal_text text));
}

pub toy_subtle : get_subtle_crypto toy ≡ ok tt
unfolding get_subtle_crypto
toy_subtle = refl

abbrev pub toy-Works : Works toy
toy-Works = record { subtle_there = toy_subtle; aes = toy-IsAead; chacha = toy-IsAead }

abbrev pub toy-Imports : Imports toy
toy-Imports = record { imports = λ key bits e. (tt, refl) }

abbrev pub cipher : RecordCipher Key Key
cipher = new (chacha20 tt) (zeros 12)

abbrev pub hmac : List ℕ → List ℕ → Result TlsError (List ℕ)
hmac key bytes = ok (zeros 32)

abbrev pub hmac-IsHmac : IsHmac hmac
hmac-IsHmac = record { digest = λ key bytes. (zeros 32, refl, refl) }

abbrev pub mac : List ℕ → List (List ℕ) → Option (List ℕ)
mac key pieces = some (zeros 32)

abbrev pub hmac-Agrees : Agrees hmac mac
hmac-Agrees = record { same = λ key pieces. (zeros 32, refl, refl) }

abbrev pub primitives : Primitives
primitives = record {
  hmac = hmac;
  finished_hmac = λ key bytes. ok (1 ∷ 2 ∷ []);
  sha256 = λ bytes. ok bytes;
  p256_shared = λ share. ok share;
  x25519_shared = λ share. ok share;
}

abbrev pub trusting : Verifier
trusting = record {
  verify_chain = λ name chain. ok tt;
  extract_public_key_spki = λ leaf. ok leaf;
  verify_certificate_verify = λ algorithm signature hash key. ok tt;
}

abbrev pub handshake : HandshakeState
handshake = record (new_state (97 ∷ []) [] [] (zeros 32)) {
  client_handshake_secret = some [];
  server_handshake_secret = some [];
}

-- A stream that makes a writer wait a number of times.
pub record Busy : Type 0 where
  pub waits : ℕ
  pub log : List ℕ

abbrev pub busy : Transport Busy
busy = record {
  poll_read = λ n s. (pending, s);
  poll_write = λ bytes s. elim s.waits [
    | zero ↦ (ready (ok (length bytes)), record s { log = s.log ++ bytes })
    | suc n ↦ (pending, record s { waits = n })
  ];
  poll_flush = λ s. (ready (ok tt), s);
  poll_close = λ s. (ready (ok tt), s);
  read = λ n s. (ok [], s);
  read_exact = λ n s. (ok [], s);
  write_all = λ bytes s. (ok tt, record s { log = s.log ++ bytes });
  flush = λ s. (ok tt, s);
}

take_whole : (bytes : List ℕ) → take (length bytes) bytes ≡ bytes
take_whole bytes = ap (take (length bytes)) (sym (append-nil bytes)) ∙ take-length-append bytes []

busy_accepts :
    (bytes : List ℕ) (waits : ℕ) (log : List ℕ)
    → Accepted
        (λ (s : Busy). s.log)
        bytes
        (record { waits = waits; log = log })
        (busy.poll_write bytes (record { waits = waits; log = log }))
busy_accepts bytes zero log = (omega arith, ap (λ x. log ++ x) (sym (take_whole bytes)))
busy_accepts bytes (suc n) log = refl

pub busy-Wire : Wire busy
busy-Wire = record {
  sent = λ s. s.log;
  accepts = λ bytes s. busy_accepts bytes s.waits s.log;
  flushes = λ s. refl;
}

-- ===== src/Tls/Handshake/Offer.antt =====
-- What a server reads from the ClientHello that subtle-tls/src/handshake.rs builds, with a reader for
-- the structure that RFC 8446 gives the message.
use webtor_rs.Base.{
  ℕ, zero, suc, ◌+◌, ◌*◌, List, [], ◌∷◌, Option, none, some, length, ◌==◌, ◌&&◌, if◌then◌else◌,
}
use webtor_rs.Tls.Handshake.ClientHello.{
  ext_server_name, ext_supported_groups, ext_signature_algorithms, ext_alpn, ext_supported_versions,
  ext_key_share,
}
use webtor_rs.Tls.Handshake.Vectors.{and_then, split, vec8, vec16, whole, words, all_entries}

unfoldable pub find : ℕ → List (ℕ × List ℕ) → Option (List ℕ)
find n [] = none
find n ((m, bytes) ∷ es) = if m == n then some bytes else find n es

-- A list of one host name.
unfoldable pub host_name : List ℕ → Option (List ℕ)
host_name [] = none
host_name (zero ∷ bytes) = whole (vec16 bytes)
host_name (suc n ∷ bytes) = none

pub record Offer : Type 0 where
  pub random : List ℕ
  pub session_id : List ℕ
  pub suites : List ℕ
  pub compression_methods : List ℕ
  pub server_name : List ℕ
  pub versions : List ℕ
  pub groups : List ℕ
  pub key_shares : List (ℕ × List ℕ)
  pub signature_algorithms : List ℕ
  pub protocol : List ℕ

-- The offer of a hello with these extensions.
unfoldable pub offer_of : List ℕ → List ℕ → List ℕ → List ℕ → List (ℕ × List ℕ) → Option Offer
offer_of random session suites compression es = and_then (find ext_server_name es) (λ sni.
    and_then (whole (vec16 sni)) (λ names. and_then (host_name names) (λ name.
      and_then (find ext_supported_versions es) (λ sv. and_then (whole (vec8 sv)) (λ vs.
        and_then (words vs) (λ versions. and_then (find ext_supported_groups es) (λ sg.
          and_then (whole (vec16 sg)) (λ gs. and_then (words gs) (λ groups.
            and_then (find ext_key_share es) (λ ks. and_then (whole (vec16 ks)) (λ shares.
              and_then (all_entries shares) (λ key_shares.
                and_then (find ext_signature_algorithms es) (λ sa.
                  and_then (whole (vec16 sa)) (λ algs.
                    and_then (words algs) (λ signature_algorithms.
                      and_then (find ext_alpn es) (λ alpn.
                        and_then (whole (vec16 alpn)) (λ protocols.
                          and_then (whole (vec8 protocols)) (λ protocol. some (record {
                            random = random;
                            session_id = session;
                            suites = suites;
                            compression_methods = compression;
                            server_name = name;
                            versions = versions;
                            groups = groups;
                            key_shares = key_shares;
                            signature_algorithms = signature_algorithms;
                            protocol = protocol;
                          })))))))))))))))))))

unfoldable pub read_hello : List ℕ → Option Offer
read_hello [] = none
read_hello (a ∷ []) = none
read_hello (a ∷ b ∷ bytes) =
    if a * 256 + b == 0x0303
    then and_then (split 32 bytes) (λ random. and_then (vec8 random.1) (λ session.
      and_then (vec16 session.1) (λ suites. and_then (words suites.0) (λ ns.
        and_then (vec8 suites.1) (λ compression.
          and_then (whole (vec16 compression.1)) (λ extensions.
            and_then (all_entries extensions) (offer_of random.0 session.0 ns compression.0)))))))
    else none

-- A handshake message of type ClientHello with the length that it announces.
unfoldable pub read_client_hello : List ℕ → Option Offer
read_client_hello (t ∷ a ∷ b ∷ c ∷ bytes) =
    if (t == 1) && (a * 65536 + b * 256 + c == length bytes) then read_hello bytes else none
read_client_hello [] = none
read_client_hello (t ∷ []) = none
read_client_hello (t ∷ a ∷ []) = none
read_client_hello (t ∷ a ∷ b ∷ []) = none

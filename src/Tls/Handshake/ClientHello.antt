-- ===== src/Tls/Handshake/ClientHello.antt =====
-- `build_client_hello` of subtle-tls/src/handshake.rs and the extensions that it sends.
use webtor_rs.Base.{ℕ, ◌+◌, ◌*◌, ◌/◌, ◌%◌, List, [], ◌∷◌, ◌++◌, Option, none, some, length}
use webtor_rs.Base.BigEndian.{be16_bytes}
use webtor_rs.Tls.Handshake.{HandshakeState, group_secp256r1, group_x25519}

abbrev pub ext_server_name : ℕ
ext_server_name = 0

abbrev pub ext_supported_groups : ℕ
ext_supported_groups = 10

abbrev pub ext_signature_algorithms : ℕ
ext_signature_algorithms = 13

abbrev pub ext_alpn : ℕ
ext_alpn = 16

abbrev pub ext_supported_versions : ℕ
ext_supported_versions = 43

abbrev pub ext_key_share : ℕ
ext_key_share = 51

-- The loops that push the two bytes of each number.
abbrev pub words_bytes : List ℕ → List ℕ
words_bytes [] = []
words_bytes (n ∷ ns) = be16_bytes n ++ words_bytes ns

-- TLS_AES_128_GCM_SHA256 and TLS_CHACHA20_POLY1305_SHA256
abbrev pub cipher_suites : List ℕ
cipher_suites = 0x1301 ∷ 0x1303 ∷ []

-- SIG_ECDSA_SECP256R1_SHA256, SIG_RSA_PSS_RSAE_SHA256 and SIG_RSA_PKCS1_SHA256
abbrev pub algorithms : List ℕ
algorithms = 0x0403 ∷ 0x0804 ∷ 0x0401 ∷ []

-- "http/1.1"
abbrev pub http_1_1 : List ℕ
http_1_1 = 104 ∷ 116 ∷ 116 ∷ 112 ∷ 47 ∷ 49 ∷ 46 ∷ 49 ∷ []

-- A number of 16 bits, and bytes behind their length: an extension, or a key share with its group.
abbrev pub with_length : ℕ → List ℕ → List ℕ
with_length n bytes = be16_bytes n ++ (be16_bytes (length bytes) ++ bytes)

unfoldable pub build_sni_extension : HandshakeState → List ℕ
build_sni_extension hs =
    be16_bytes (3 + length hs.server_name)
    ++ 0 ∷ (be16_bytes (length hs.server_name) ++ hs.server_name)

-- The key shares without the length before them.
abbrev pub x25519_entry : Option (List ℕ) → List ℕ
x25519_entry none = []
x25519_entry (some key_bytes) = with_length group_x25519 key_bytes

abbrev pub x25519_entry_len : Option (List ℕ) → ℕ
x25519_entry_len none = 0
x25519_entry_len (some key_bytes) = 4 + length key_bytes

unfoldable pub build_key_share_extension : HandshakeState → List ℕ
build_key_share_extension hs =
    be16_bytes (4 + length hs.ecdh_key + x25519_entry_len hs.x25519_key)
    ++ (x25519_entry hs.x25519_key ++ with_length group_secp256r1 hs.ecdh_key)

unfoldable pub build_signature_algorithms_extension : List ℕ
build_signature_algorithms_extension = 0 ∷ length algorithms * 2 % 256 ∷ words_bytes algorithms

unfoldable pub build_alpn_extension : List ℕ
build_alpn_extension = be16_bytes (1 + length http_1_1) ++ length http_1_1 % 256 ∷ http_1_1

unfoldable pub build_extensions : HandshakeState → List ℕ
build_extensions hs =
    with_length ext_server_name (build_sni_extension hs)
    ++ ((be16_bytes ext_supported_versions ++ 0 ∷ 3 ∷ 2 ∷ be16_bytes 0x0304)
        ++ ((be16_bytes ext_supported_groups
              ++ 0 ∷ 6 ∷ 0 ∷ 4 ∷ (be16_bytes group_x25519 ++ be16_bytes group_secp256r1))
            ++ (with_length ext_key_share (build_key_share_extension hs)
                ++ (with_length ext_signature_algorithms build_signature_algorithms_extension
                    ++ with_length ext_alpn build_alpn_extension))))

-- The body of the message.
unfoldable pub hello : HandshakeState → List ℕ
hello hs =
    be16_bytes 0x0303
    ++ (hs.client_random
        ++ 0
          ∷ 0
          ∷ length cipher_suites * 2 % 256
          ∷ (words_bytes cipher_suites
              ++ 1 ∷ 0 ∷ (be16_bytes (length (build_extensions hs)) ++ build_extensions hs)))

unfoldable pub build_client_hello : HandshakeState → List ℕ
build_client_hello hs =
    let len = length (hello hs) in 1 ∷ len / 65536 % 256 ∷ len / 256 % 256 ∷ len % 256 ∷ hello hs

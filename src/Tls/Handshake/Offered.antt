-- ===== src/Tls/Handshake/Offered.antt =====
-- What a reader of RFC 8446's structure makes of the ClientHello that subtle-tls/src/handshake.rs builds.
use webtor_rs.Base.{
  ℕ, suc, ◌+◌, ◌*◌, ◌/◌, ◌%◌, ◌^◌, ◌<◌, ◌≡◌, refl, sym, ap, ◌∙◌, arith, List, [], ◌∷◌, ◌++◌,
  append-nil, Option, none, some, All, length, ==_iff, length-append,
}
use webtor_rs.Base.BigEndian.{be16_bytes}
use webtor_rs.Tls.Handshake.{HandshakeState, group_secp256r1, group_x25519}
use webtor_rs.Tls.Handshake.ClientHello.{
  ext_server_name, ext_supported_groups, ext_signature_algorithms, ext_alpn, ext_supported_versions,
  ext_key_share, cipher_suites, algorithms, http_1_1, words_bytes, with_length, build_sni_extension,
  x25519_entry, x25519_entry_len, build_key_share_extension, build_signature_algorithms_extension,
  build_alpn_extension, build_extensions, hello, build_client_hello,
}
use webtor_rs.Tls.Handshake.Offer.{find, host_name, Offer, offer_of, read_hello, read_client_hello}
use webtor_rs.Tls.Handshake.Vectors.{
  split, vec8, vec16, whole, words, all_entries, and_then-some, split-append, vec16-append,
  vec8-append, whole-vec16, words-words_bytes, entries-entry_bytes, entry_bytes, IsEntry,
}

-- The public keys that a state has for a key exchange, the preferred one first.
abbrev pub shares : List ℕ → Option (List ℕ) → List (ℕ × List ℕ)
shares ecdh_key none = (group_secp256r1, ecdh_key) ∷ []
shares ecdh_key (some key) = (group_x25519, key) ∷ (group_secp256r1, ecdh_key) ∷ []

abbrev sent : HandshakeState → List (ℕ × List ℕ)
sent hs =
    (ext_server_name, build_sni_extension hs)
    ∷ (ext_supported_versions, 2 ∷ 3 ∷ 4 ∷ [])
    ∷ (ext_supported_groups, 0 ∷ 4 ∷ 0 ∷ 29 ∷ 0 ∷ 23 ∷ [])
    ∷ (ext_key_share, build_key_share_extension hs)
    ∷ (ext_signature_algorithms, build_signature_algorithms_extension)
    ∷ (ext_alpn, build_alpn_extension)
    ∷ []

build_extensions-sent : (hs : HandshakeState) → build_extensions hs ≡ entry_bytes (sent hs)
unfolding build_extensions build_alpn_extension
build_extensions-sent hs = refl

length-shares :
    (ecdh_key : List ℕ) (key : Option (List ℕ))
    → length (entry_bytes (shares ecdh_key key)) ≡ 4 + length ecdh_key + x25519_entry_len key
length-shares ecdh_key none = omega (arith, length-append ecdh_key [])
length-shares ecdh_key (some key) = omega (
  arith,
  length-append ecdh_key [],
  length-append key (entry_bytes ((group_secp256r1, ecdh_key) ∷ [])),
)

last_share :
    (ecdh_key : List ℕ)
    → with_length group_secp256r1 ecdh_key ≡ entry_bytes ((group_secp256r1, ecdh_key) ∷ [])
last_share ecdh_key =
    ap (λ t. be16_bytes group_secp256r1 ++ (be16_bytes (length ecdh_key) ++ t))
      (sym (append-nil ecdh_key))

shares-entries :
    (ecdh_key : List ℕ) (key : Option (List ℕ))
    → x25519_entry key ++ with_length group_secp256r1 ecdh_key ≡ entry_bytes (shares ecdh_key key)
shares-entries ecdh_key none = last_share ecdh_key
shares-entries ecdh_key (some key) =
    ap (λ t. with_length group_x25519 key ++ t) (last_share ecdh_key)

length-build_sni_extension :
    (hs : HandshakeState) → length (build_sni_extension hs) ≡ 5 + length hs.server_name
unfolding build_sni_extension
length-build_sni_extension hs = omega arith

length-build_key_share_extension :
    (hs : HandshakeState)
    → length (build_key_share_extension hs)
      ≡ 6 + length hs.ecdh_key + x25519_entry_len hs.x25519_key
unfolding build_key_share_extension
length-build_key_share_extension hs = omega (
  arith,
  ap length (shares-entries hs.ecdh_key hs.x25519_key),
  length-shares hs.ecdh_key hs.x25519_key,
)

length-build_extensions :
    (hs : HandshakeState)
    → length (build_extensions hs)
      ≡ 63 + length hs.server_name + length hs.ecdh_key + x25519_entry_len hs.x25519_key
unfolding build_alpn_extension build_signature_algorithms_extension
length-build_extensions hs =
    let ks = length-append (build_key_share_extension hs) (
      entry_bytes (
        (ext_signature_algorithms, build_signature_algorithms_extension)
        ∷ (ext_alpn, build_alpn_extension)
        ∷ [])) in
    ap length (build_extensions-sent hs)
    ∙ omega (
      arith,
      length-append (build_sni_extension hs) (
          entry_bytes (
            (ext_supported_versions, 2 ∷ 3 ∷ 4 ∷ [])
            ∷ (ext_supported_groups, 0 ∷ 4 ∷ 0 ∷ 29 ∷ 0 ∷ 23 ∷ [])
            ∷ (ext_key_share, build_key_share_extension hs)
            ∷ (ext_signature_algorithms, build_signature_algorithms_extension)
            ∷ (ext_alpn, build_alpn_extension)
            ∷ [])),
      ks,
      length-build_sni_extension hs,
      length-build_key_share_extension hs,
    )

-- What a state offers.
abbrev pub offered : HandshakeState → Offer
offered hs = record {
  random = hs.client_random;
  session_id = [];
  suites = cipher_suites;
  compression_methods = 0 ∷ [];
  server_name = hs.server_name;
  versions = 0x0304 ∷ [];
  groups = group_x25519 ∷ group_secp256r1 ∷ [];
  key_shares = shares hs.ecdh_key hs.x25519_key;
  signature_algorithms = algorithms;
  protocol = http_1_1;
}

sni_read :
    (hs : HandshakeState)
    → 3 + length hs.server_name < 2 ^ 16
    → (names : List ℕ) × (whole (vec16 (build_sni_extension hs)) ≡ some names)
      × (host_name names ≡ some hs.server_name)
unfolding build_sni_extension host_name
sni_read hs h = (
  0 ∷ (be16_bytes (length hs.server_name) ++ hs.server_name),
  whole-vec16 (0 ∷ (be16_bytes (length hs.server_name) ++ hs.server_name))
      (3 + length hs.server_name) (omega arith) h,
  whole-vec16 hs.server_name (length hs.server_name) refl (omega arith),
)

key_shares_read :
    (hs : HandshakeState)
    → 4 + length hs.ecdh_key + x25519_entry_len hs.x25519_key < 2 ^ 16
    → (list : List ℕ) × (whole (vec16 (build_key_share_extension hs)) ≡ some list)
      × (all_entries list ≡ some (shares hs.ecdh_key hs.x25519_key))
unfolding build_key_share_extension
key_shares_read hs h =
    let es = shares hs.ecdh_key hs.x25519_key in
    let n = length-shares hs.ecdh_key hs.x25519_key in
    (
      entry_bytes es,
      ap
            (λ t.
              whole
                (vec16 (be16_bytes (4 + length hs.ecdh_key + x25519_entry_len hs.x25519_key) ++ t)))
            (shares-entries hs.ecdh_key hs.x25519_key)
          ∙ whole-vec16 (entry_bytes es) (4 + length hs.ecdh_key + x25519_entry_len hs.x25519_key)
              (sym n) h,
      entries-entry_bytes (suc (length (entry_bytes es))) es
          (shares_short hs.ecdh_key hs.x25519_key h) (omega arith),
    )
  where
    shares_short :
        (ecdh_key : List ℕ) (key : Option (List ℕ))
        → 4 + length ecdh_key + x25519_entry_len key < 2 ^ 16
        → All IsEntry (shares ecdh_key key)
    shares_short ecdh_key none k = ((omega arith, omega arith), tt)
    shares_short ecdh_key (some key) k =
        ((omega arith, omega arith), ((omega arith, omega arith), tt))

offer_of-sent :
    (hs : HandshakeState)
    → length (build_extensions hs) < 2 ^ 16
    → offer_of hs.client_random [] cipher_suites (0 ∷ []) (sent hs) ≡ some (offered hs)
unfolding offer_of find build_signature_algorithms_extension build_alpn_extension whole vec16 vec8
    words split
offer_of-sent hs h =
    let n = length-build_extensions hs in
    let (names, a, b) = sni_read hs (omega arith) in
    let (list, c, d) = key_shares_read hs (omega arith) in rw (a, b, c, d) refl

sent_short : (hs : HandshakeState) → length (build_extensions hs) < 2 ^ 16 → All IsEntry (sent hs)
unfolding build_alpn_extension build_signature_algorithms_extension
sent_short hs h =
    let n = length-build_extensions hs in
    let a = length-build_sni_extension hs in
    let b = length-build_key_share_extension hs in
    (
      (omega arith, omega arith),
      (
        (omega arith, omega arith),
        (
          (omega arith, omega arith),
          (
            (omega arith, omega arith),
            ((omega arith, omega arith), ((omega arith, omega arith), tt)),
          ),
        ),
      ),
    )

read_hello-hello :
    (hs : HandshakeState)
    → length hs.client_random ≡ 32
    → length (build_extensions hs) < 2 ^ 16
    → read_hello (hello hs) ≡ some (offered hs)
unfolding read_hello hello
read_hello-hello hs r h =
    let es = build_extensions hs in
    let rest = be16_bytes (length es) ++ es in
    and_then-some _
      (ap
          (λ n.
            split n (hs.client_random ++ 0 ∷ 0 ∷ 4 ∷ (words_bytes cipher_suites ++ 1 ∷ 0 ∷ rest)))
          (sym r)
        ∙ split-append hs.client_random (0 ∷ 0 ∷ 4 ∷ (words_bytes cipher_suites ++ 1 ∷ 0 ∷ rest)))
      (and_then-some _ (vec8-append [] (0 ∷ 4 ∷ (words_bytes cipher_suites ++ 1 ∷ 0 ∷ rest))) (
        and_then-some _ (vec16-append (words_bytes cipher_suites) (1 ∷ 0 ∷ rest) (omega arith)) (
          and_then-some _ (words-words_bytes cipher_suites (omega arith, (omega arith, tt))) (
            and_then-some _ (vec8-append (0 ∷ []) rest) (
              and_then-some _ (whole-vec16 es (length es) refl h) (
                and_then-some _
                  (ap all_entries (build_extensions-sent hs)
                    ∙ entries-entry_bytes _ (sent hs) (sent_short hs h) (omega arith))
                  (offer_of-sent hs h)))))))

length-hello :
    (hs : HandshakeState)
    → length (hello hs) ≡ 13 + length hs.client_random + length (build_extensions hs)
unfolding hello
length-hello hs =
    let es = build_extensions hs in
    let rest = words_bytes cipher_suites ++ 1 ∷ 0 ∷ (be16_bytes (length es) ++ es) in
    ap (λ n. suc (suc n)) (length-append hs.client_random (0 ∷ 0 ∷ 4 ∷ rest)) ∙ omega arith

-- A ClientHello is read as what the state offers: its random bytes, the two cipher suites, the server's
-- name, TLS 1.3, the two groups with the public keys that it has for them, the signature algorithms and
-- http/1.1. Every length in the message is that of what follows it. The random bytes are 32, and the
-- extensions are short enough for a length of two bytes.
pub build_client_hello-read :
    (hs : HandshakeState)
    → length hs.client_random ≡ 32
    → length (build_extensions hs) < 2 ^ 16
    → read_client_hello (build_client_hello hs) ≡ some (offered hs)
unfolding read_client_hello build_client_hello
build_client_hello-read hs r h =
    let k = length (hello hs) in
    let n = length-hello hs in
    let e : k / 65536 % 256 * 65536 + k / 256 % 256 * 256 + k % 256 ≡ k = omega arith in
    rw (e, (==_iff k k).1 refl) (read_hello-hello hs r h)

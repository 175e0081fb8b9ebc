-- ===== src/Tls/Handshake/Runs.antt =====
-- Concrete runs of subtle-tls/src/handshake.rs and of the key export, and the theorems at concrete
-- inputs.
use webtor_rs.Base.{ℕ, ◌≡◌, ◌<◌, ◌^◌, refl, arith, List, [], ◌∷◌, some, length}
use webtor_rs.Base.Outcome.{Gives, ok, panics}
use webtor_rs.Tls.Toy.{handshake}
use webtor_rs.Tls.Hkdf.{zeros}
use webtor_rs.Tls.Handshake.{HandshakeState, new_state}
use webtor_rs.Tls.Handshake.ClientHello.{
  build_client_hello, build_extensions, build_sni_extension, build_key_share_extension,
  build_signature_algorithms_extension, build_alpn_extension,
}
use webtor_rs.Tls.Handshake.Offer.{read_client_hello}
use webtor_rs.Tls.Handshake.Offered.{offered, build_client_hello-read}
use webtor_rs.Tls.Handshake.Parse.{
  byte, be24_at, slice, skip_extensions, certificate, certificates, certificate_list,
  parse_certificate,
}
use webtor_rs.Tls.Handshake.Total.{NotEmpty, parse_certificate-Gives}
use webtor_rs.Tls.Handshake.ServerHello.{
  parse_server_hello, cut_hello, parse_server_hello-cut_hello,
}

-- A request context, a list of one certificate, and the extensions cut off.
abbrev certificate_message : List ℕ
certificate_message = 0 ∷ 0 ∷ 0 ∷ 5 ∷ 0 ∷ 0 ∷ 1 ∷ 48 ∷ 0 ∷ []

certificate_read : parse_certificate certificate_message ≡ ok ((48 ∷ []) ∷ [])
unfolding parse_certificate byte certificate_list be24_at certificates certificate slice
    skip_extensions
certificate_read = refl

parse_certificate-Gives_example : Gives NotEmpty (parse_certificate certificate_message)
parse_certificate-Gives_example = parse_certificate-Gives certificate_message

parse_server_hello-cut_hello_example :
    (parse_server_hello (cut_hello (zeros 32) 19 1 0 46) handshake).0 ≡ panics
parse_server_hello-cut_hello_example =
    parse_server_hello-cut_hello (zeros 32) 19 1 0 46 handshake refl (omega arith)

-- A client of the server "a", with short keys.
abbrev client : HandshakeState
client = new_state (97 ∷ []) (4 ∷ 1 ∷ 2 ∷ []) (9 ∷ 9 ∷ []) (zeros 32)

extensions_fit : length (build_extensions client) < 2 ^ 16
unfolding build_extensions build_sni_extension build_key_share_extension
    build_signature_algorithms_extension build_alpn_extension
extensions_fit = omega arith

build_client_hello-read_example :
    read_client_hello (build_client_hello client) ≡ some (offered client)
build_client_hello-read_example = build_client_hello-read client refl extensions_fit

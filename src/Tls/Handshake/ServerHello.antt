-- ===== src/Tls/Handshake/ServerHello.antt =====
-- `parse_server_hello` of subtle-tls/src/handshake.rs. The indices below the length that a check
-- has just ensured are read with 0 past the end; the others panic.
use webtor_rs.Base.{
  ℕ, zero, suc, ◌+◌, ◌≤◌, ◌≡◌, refl, arith, not, ◌&&◌, List, [], ◌∷◌, ◌++◌, Option, none, some,
  length, take, drop, get_or, ltb, leb, ◌==◌, if◌then◌else◌, length-append, le→leb, ap,
}
use webtor_rs.Base.BigEndian.{be16}
use webtor_rs.Base.Outcome.{Result, ok, err, panics, stuck, ◌>>=◌, >>=-panics}
use webtor_rs.Base.Action.{Action}
use webtor_rs.Tls.Error.{TlsError}
use webtor_rs.Tls.Handshake.{HandshakeState, group_secp256r1, group_x25519}
use webtor_rs.Tls.Handshake.Parse.{byte, slice, be16_at}

abbrev tls_version_1_3 : ℕ
tls_version_1_3 = 0x0304

-- What the loop over the extensions carries: the key share found so far, and the state.
abbrev Found : Type 0
Found = Option (List ℕ) × HandshakeState

abbrev supported_versions : List ℕ → Found → Result TlsError (Unit {0}) × Found
supported_versions ext s = (
  if leb 2 (length ext) && not (be16 (get_or ext 0 0) (get_or ext 1 0) == tls_version_1_3)
      then err (TlsError.handshake "Unsupported TLS version")
      else ok tt,
  s,
)

unfoldable pub key_share : List ℕ → Found → Result TlsError (Unit {0}) × Found
key_share ext s =
    let group = be16 (get_or ext 0 0) (get_or ext 1 0) in
    let key_len = be16 (get_or ext 2 0) (get_or ext 3 0) in
    if ltb (length ext) 4
    then (ok tt, s)
    else if not (group == group_secp256r1) && not (group == group_x25519)
    then (err (TlsError.handshake "Unsupported key share group"), s)
    else (
      ok tt,
      (
        if leb (4 + key_len) (length ext) then some (take key_len (drop 4 ext)) else s.0,
        record s.1 { selected_group = group },
      ),
    )

unfoldable pub extension : ℕ → List ℕ → Found → Result TlsError (Unit {0}) × Found
extension ext_type ext s =
    if ext_type == 43
    then supported_versions ext s
    else if ext_type == 51
    then key_share ext s
    else (ok tt, s)

-- The header of the extension at `pos` and its data, which has to end by `ext_end`.
unfoldable pub extension_at : List ℕ → ℕ → ℕ → Result TlsError (ℕ × List ℕ)
extension_at bytes ext_end pos = be16_at bytes pos >>= λ ext_type. be16_at bytes (pos + 2) >>= λ n.
    if ltb ext_end (pos + 4 + n)
    then err (TlsError.handshake "Extension data overflow")
    else (slice bytes (pos + 4) (pos + 4 + n) >>= λ ext. ok (ext_type, ext))

-- The loop over the extensions; each takes four bytes at least.
unfoldable pub extensions : ℕ → List ℕ → ℕ → ℕ → Found → Result TlsError (Unit {0}) × Found
extensions zero bytes ext_end pos s = (stuck, s)
extensions (suc fuel) bytes ext_end pos s =
    if leb (pos + 4) ext_end
    then elim (extension_at bytes ext_end pos) [
      | ok (ext_type, ext) ↦
          let (r, s') = extension ext_type ext s in
          elim r [
            | ok done ↦ extensions fuel bytes ext_end (pos + 4 + length ext) s'
            | err e ↦ (err e, s')
            | panics ↦ (panics, s')
            | stuck ↦ (stuck, s')
          ]
      | err e ↦ (err e, s)
      | panics ↦ (panics, s)
      | stuck ↦ (stuck, s)
    ]
    else (ok tt, s)

abbrev required : Option (List ℕ) → Result TlsError (List ℕ)
required none = err (TlsError.handshake "No key_share in ServerHello")
required (some share) = ok share

-- From the length of the extensions on, which stands at `pos`.
unfoldable pub hello_extensions : List ℕ → ℕ → Action HandshakeState TlsError (List ℕ)
hello_extensions bytes pos hs =
    let n = be16 (get_or bytes pos 0) (get_or bytes (pos + 1) 0) in
    let (r, s) = extensions (suc n) bytes (pos + 2 + n) (pos + 2) (none, hs) in
    (r >>= λ done. required s.0, s.1)

unfoldable pub parse_server_hello : List ℕ → Action HandshakeState TlsError (List ℕ)
parse_server_hello bytes hs =
    let hs' = record hs { server_random = take 32 (drop 2 bytes) } in
    let pos = 35 + get_or bytes 34 0 in
    let suite = be16 (get_or bytes pos 0) (get_or bytes (pos + 1) 0) in
    let hs'' = record hs' { cipher_suite = suite } in
    if ltb (length bytes) 38
    then (err (TlsError.handshake "ServerHello too short"), hs)
    else if ltb (length bytes) (pos + 4)
    then (err (TlsError.handshake "ServerHello truncated"), hs')
    else if ltb (length bytes) (pos + 5)
    then (err (TlsError.handshake "ServerHello missing extensions"), hs'')
    else hello_extensions bytes (pos + 3) hs''

-- A ServerHello that ends after the length of its extensions, which is four at least.
abbrev pub cut_hello : List ℕ → ℕ → ℕ → ℕ → ℕ → List ℕ
cut_hello random suite_high suite_low high low =
    3 ∷ 3 ∷ (random ++ 0 ∷ suite_high ∷ suite_low ∷ 0 ∷ high ∷ low ∷ [])

get_or_past : (xs ys : List ℕ) (i k : ℕ) → length xs + i ≡ k → get_or (xs ++ ys) k 0 ≡ get_or ys i 0
get_or_past [] ys i k h = ap (λ j. get_or ys j 0) (omega arith)
get_or_past (x ∷ xs) ys i zero h = absurd (omega arith)
get_or_past (x ∷ xs) ys i (suc k) h = get_or_past xs ys i k (omega arith)

extensions_past_end :
    (fuel n : ℕ) (bytes : List ℕ) (s : Found)
    → length bytes ≡ 40
    → 4 ≤ n
    → (extensions (suc fuel) bytes (40 + n) 40 s).0 ≡ panics
unfolding extensions extension_at be16_at byte
extensions_past_end fuel n bytes s h b = rw (le→leb 44 (40 + n) (omega arith), h, extensions) refl

-- A ServerHello whose extensions are announced with four bytes or more, but are not there, makes
-- `parse_server_hello` read past its end and panic, whatever the state, the random bytes, the
-- cipher suite and the announced length are.
pub parse_server_hello-cut_hello :
    (random : List ℕ) (suite_high suite_low high low : ℕ) (hs : HandshakeState)
    → length random ≡ 32
    → 4 ≤ be16 high low
    → (parse_server_hello (cut_hello random suite_high suite_low high low) hs).0 ≡ panics
unfolding parse_server_hello hello_extensions
parse_server_hello-cut_hello random suite_high suite_low high low hs h b =
    let tail = 0 ∷ suite_high ∷ suite_low ∷ 0 ∷ high ∷ low ∷ [] in
    let bytes = cut_hello random suite_high suite_low high low in
    let n : length bytes ≡ 40 = omega (arith, length-append random tail, h) in
    let a0 : get_or bytes 34 0 ≡ 0 = get_or_past random tail 0 32 (omega arith) in
    let a4 : get_or bytes 38 0 ≡ high = get_or_past random tail 4 36 (omega arith) in
    let a5 : get_or bytes 39 0 ≡ low = get_or_past random tail 5 37 (omega arith) in
    let p = extensions_past_end (be16 high low) (be16 high low) bytes in
    rw (n, a0, a4, a5) (>>=-panics _ _ (p _ n b))

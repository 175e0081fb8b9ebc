-- ===== src/Tls/Handshake/Parse.antt =====
-- The parsers of subtle-tls/src/handshake.rs. An index or a slice out of range panics.
use webtor_rs.Base.{
  ℕ, zero, suc, ◌+◌, ◌-◌, min, ◌&&◌, ◌||◌, List, [], ◌∷◌, Option, none, some, length, take, drop,
  get_or, ltb, leb, ◌==◌, if◌then◌else◌,
}
use webtor_rs.Base.BigEndian.{be16, be24}
use webtor_rs.Base.Outcome.{Result, ok, err, panics, stuck, ◌>>=◌}
use webtor_rs.Tls.Error.{TlsError}

-- `data[i]`, `data[start..end]` and the numbers joined from `data[pos]` and the bytes after it.
unfoldable pub byte : List ℕ → ℕ → Result TlsError ℕ
byte bytes i = if ltb i (length bytes) then ok (get_or bytes i 0) else panics

unfoldable pub slice : List ℕ → ℕ → ℕ → Result TlsError (List ℕ)
slice bytes start end =
    if leb start end && leb end (length bytes)
    then ok (take (end - start) (drop start bytes))
    else panics

unfoldable pub be16_at : List ℕ → ℕ → Result TlsError ℕ
be16_at bytes pos = byte bytes pos >>= λ a. byte bytes (pos + 1) >>= λ b. ok (be16 a b)

unfoldable pub be24_at : List ℕ → ℕ → Result TlsError ℕ
be24_at bytes pos = byte bytes pos >>= λ a.
    byte bytes (pos + 1) >>= λ b. byte bytes (pos + 2) >>= λ c. ok (be24 a b c)

unfoldable pub parse_handshake_header : List ℕ → Result TlsError (ℕ × ℕ)
parse_handshake_header bytes =
    if ltb (length bytes) 4
    then err (TlsError.handshake "Handshake message too short")
    else (byte bytes 0 >>= λ msg_type. be24_at bytes 1 >>= λ n. ok (msg_type, n))

-- Where the next certificate starts, past the extensions of one that ends at `pos`; none if they
-- are cut off.
unfoldable pub skip_extensions : List ℕ → ℕ → ℕ → Result TlsError (Option ℕ)
skip_extensions bytes list_end pos =
    if leb (pos + 2) list_end && leb (pos + 2) (length bytes)
    then (be16_at bytes pos >>= λ n.
        if ltb (length bytes) (pos + 2 + n) then ok none else ok (some (pos + 2 + n)))
    else ok (some pos)

unfoldable pub certificate : List ℕ → ℕ → ℕ → Result TlsError (List ℕ × ℕ)
certificate bytes list_end pos = be24_at bytes pos >>= λ n.
    if ltb list_end (pos + 3 + n) || ltb (length bytes) (pos + 3 + n)
    then err (TlsError.handshake "Certificate data overflow")
    else (slice bytes (pos + 3) (pos + 3 + n) >>= λ cert. ok (cert, pos + 3 + n))

-- The loop over the list, which takes three bytes at least in each round.
unfoldable pub certificates : ℕ → List ℕ → ℕ → ℕ → Result TlsError (List (List ℕ))
certificates zero bytes list_end pos = stuck
certificates (suc fuel) bytes list_end pos =
    if leb (pos + 3) list_end && leb (pos + 3) (length bytes)
    then (certificate bytes list_end pos >>= λ c. skip_extensions bytes list_end c.1 >>= λ next.
        elim next [
          | none ↦ ok (c.0 ∷ [])
          | some pos' ↦ certificates fuel bytes list_end pos' >>= λ certs. ok (c.0 ∷ certs)
        ])
    else ok []

-- The part of `parse_certificate` after the request context, which ends before `pos`.
unfoldable pub certificate_list : List ℕ → ℕ → Result TlsError (List (List ℕ))
certificate_list bytes pos = be24_at bytes pos >>= λ list_len.
    certificates (suc (length bytes)) bytes (min (pos + 3 + list_len) (length bytes)) (pos + 3)
    >>= λ certs.
        if length certs == 0
        then err (TlsError.handshake "No certificates in message")
        else ok certs

unfoldable pub parse_certificate : List ℕ → Result TlsError (List (List ℕ))
parse_certificate bytes =
    if ltb (length bytes) 4
    then err (TlsError.handshake "Certificate message too short")
    else (byte bytes 0 >>= λ context_len.
        if ltb (length bytes) (1 + context_len)
        then err (TlsError.handshake "Certificate context overflow")
        else if ltb (length bytes) (1 + context_len + 3)
        then err (TlsError.handshake "Certificate list length missing")
        else certificate_list bytes (1 + context_len))

unfoldable pub parse_certificate_verify : List ℕ → Result TlsError (ℕ × List ℕ)
parse_certificate_verify bytes =
    if ltb (length bytes) 4
    then err (TlsError.handshake "CertificateVerify too short")
    else (be16_at bytes 0 >>= λ algorithm. be16_at bytes 2 >>= λ n.
        if ltb (length bytes) (4 + n)
        then err (TlsError.handshake "CertificateVerify signature truncated")
        else (slice bytes 4 (4 + n) >>= λ signature. ok (algorithm, signature)))

abbrev pub parse_finished : List ℕ → Result TlsError (List ℕ)
parse_finished bytes = ok bytes

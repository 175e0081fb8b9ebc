-- ===== src/Tls/Cert/Ecdsa.antt =====
-- `convert_ecdsa_signature_from_der_sized` of subtle-tls/src/cert.rs: a signature in DER as the two
-- numbers of a fixed size. An index or a slice out of range panics.
pub mod Total
pub mod Encoding
pub mod RoundTrip
use webtor_rs.Base.{
  ℕ, zero, suc, ◌+◌, ◌-◌, ◌*◌, ◌%◌, ◌^◌, min, bit_or, bit_and, not, String, List, [], ◌∷◌, ◌++◌,
  length, take, drop, get_or, ltb, leb, ◌==◌, if◌then◌else◌,
}
use webtor_rs.Base.Outcome.{Result, ok, err, panics, stuck, ◌>>=◌}
use webtor_rs.Tls.Error.{TlsError}
use webtor_rs.Tls.Handshake.Parse.{byte, slice}

abbrev pub zeros : ℕ → List ℕ
zeros zero = []
zeros (suc n) = 0 ∷ zeros n

-- The loop over the bytes of a long length, which joins them in a `usize` of 32 bits: the length
-- and the position behind it.
unfoldable pub length_bytes : List ℕ → ℕ → ℕ → ℕ → Result TlsError (ℕ × ℕ)
length_bytes der_sig zero pos len = ok (len, pos)
length_bytes der_sig (suc n) pos len =
    byte der_sig pos >>= λ b. length_bytes der_sig n (pos + 1) (bit_or (len * 256 % 2 ^ 32) b)

-- The length of the sequence at `pos`, and the position behind it.
unfoldable pub sequence_length : List ℕ → ℕ → Result TlsError (ℕ × ℕ)
sequence_length der_sig pos = byte der_sig pos >>= λ b.
    if not (bit_and b 0x80 == 0)
    then (if ltb (length der_sig) (pos + 1 + bit_and b 0x7f)
        then err (TlsError.certificate "ECDSA signature truncated in length field")
        else length_bytes der_sig (bit_and b 0x7f) (pos + 1) 0)
    else ok (b, pos + 1)

-- What the errors of an integer say.
pub record Messages : Type 0 where
  pub header : String
  pub tag : String
  pub body : String

abbrev pub r_messages : Messages
r_messages = record {
  header = "ECDSA signature truncated at r header";
  tag = "Invalid ECDSA signature: r not INTEGER";
  body = "ECDSA signature r data overflow";
}

abbrev pub s_messages : Messages
s_messages = record {
  header = "ECDSA signature truncated at s header";
  tag = "Invalid ECDSA signature: s not INTEGER";
  body = "ECDSA signature s data overflow";
}

-- The bytes of the integer at `pos`, and the position behind them.
unfoldable pub integer : Messages → List ℕ → ℕ → Result TlsError (List ℕ × ℕ)
integer messages der_sig pos =
    if ltb (length der_sig) (pos + 2)
    then err (TlsError.certificate messages.header)
    else (byte der_sig pos >>= λ tag.
        if not (tag == 0x02)
        then err (TlsError.certificate messages.tag)
        else (byte der_sig (pos + 1) >>= λ n.
            if ltb (length der_sig) (pos + 2 + n)
            then err (TlsError.certificate messages.body)
            else (slice der_sig (pos + 2) (pos + 2 + n) >>= λ bytes. ok (bytes, pos + 2 + n))))

-- `bytes.iter().position(|&b| b != 0).unwrap_or(bytes.len() - 1)`
unfoldable pub first_nonzero : List ℕ → ℕ
first_nonzero [] = 0
first_nonzero (b ∷ []) = 0
first_nonzero (b ∷ c ∷ bytes) = if b == 0 then suc (first_nonzero (c ∷ bytes)) else 0

-- How many zeros are stripped. `bytes[0]` is read only where there are more bytes than the size.
unfoldable pub start_of : ℕ → List ℕ → Result TlsError ℕ
start_of coord_size bytes =
    if ltb coord_size (length bytes)
    then (byte bytes 0 >>= λ b. if b == 0 then ok (first_nonzero bytes) else ok 0)
    else ok 0

-- An integer's bytes at the end of `coord_size` zeros.
unfoldable pub place : ℕ → List ℕ → Result TlsError (List ℕ)
place coord_size bytes = start_of coord_size bytes >>= λ start.
    slice bytes start (length bytes) >>= λ kept.
    let copy_len = min (length kept) coord_size in
    slice kept 0 copy_len >>= λ copied. ok (zeros (coord_size - copy_len) ++ copied)

-- The integers behind the header of the sequence.
unfoldable pub coordinates : List ℕ → ℕ → ℕ → Result TlsError (List ℕ)
coordinates der_sig coord_size pos = integer r_messages der_sig pos >>= λ r.
    integer s_messages der_sig r.1 >>= λ s.
    place coord_size r.0 >>= λ left. place coord_size s.0 >>= λ right. ok (left ++ right)

unfoldable pub convert_ecdsa_signature_from_der_sized : List ℕ → ℕ → Result TlsError (List ℕ)
convert_ecdsa_signature_from_der_sized der_sig coord_size =
    if ltb (length der_sig) 8
    then err (TlsError.certificate "ECDSA signature too short")
    else (byte der_sig 0 >>= λ tag.
        if not (tag == 0x30)
        then err (TlsError.certificate "Invalid ECDSA signature: not a SEQUENCE")
        else if leb (length der_sig) 1
        then err (TlsError.certificate "ECDSA signature truncated at sequence length")
        else (sequence_length der_sig 1 >>= λ header. coordinates der_sig coord_size header.1))

abbrev pub convert_ecdsa_signature_from_der : List ℕ → Result TlsError (List ℕ)
convert_ecdsa_signature_from_der der_sig = convert_ecdsa_signature_from_der_sized der_sig 32

-- ===== src/Tls/Cert/Ecdsa/RoundTrip.antt =====
-- The signature that a signer encodes is read back by `convert_ecdsa_signature_from_der_sized` of
-- subtle-tls/src/cert.rs.
use mathlib.Core.List.{append-nil, append_assoc}
use webtor_rs.Base.{
  ℕ, suc, ◌+◌, ◌-◌, ◌≤◌, ◌<◌, ◌≡◌, refl, sym, ap, ◌∙◌, arith, bit_and, false, List, [], ◌∷◌, ◌++◌,
  length, take, drop, get_or, ltb, leb, Bool-cases, inl, inr, ltb→lt, le→ltb_false, length-append,
  drop_past, take-length-append, if◌then◌else◌,
}
use webtor_rs.Base.Bits.{bit_seven, or_00}
use webtor_rs.Base.Outcome.{ok}
use webtor_rs.Tls.Handshake.Parse.{byte, slice}
use webtor_rs.Tls.Handshake.Total.{byte-ok, slice-ok}
use webtor_rs.Tls.Cert.Ecdsa.{
  length_bytes, sequence_length, Messages, integer, r_messages, s_messages, place, coordinates,
  convert_ecdsa_signature_from_der_sized,
}
use webtor_rs.Tls.Cert.Ecdsa.Encoding.{
  minimal, signed, der_integer, place-signed-minimal, length-der_integer,
}

-- A length below 256.
unfoldable pub der_length : ℕ → List ℕ
der_length n = if ltb n 128 then n ∷ [] else 0x81 ∷ n ∷ []

-- SEQUENCE { INTEGER r, INTEGER s }
unfoldable pub der_signature : List ℕ → List ℕ → List ℕ
der_signature r s =
    let body = der_integer r ++ der_integer s in 0x30 ∷ (der_length (length body) ++ body)

get_or-append :
    (before after : List ℕ) (k : ℕ)
    → get_or (before ++ after) (length before + k) 0 ≡ get_or after k 0
get_or-append [] after k = ap (λ i. get_or after i 0) (omega arith)
get_or-append (b ∷ before) after k =
    let e : suc (length before) + k ≡ suc (length before + k) = omega arith in
    rw e (get_or-append before after k)

byte-append :
    (before after : List ℕ) (k : ℕ)
    → k < length after
    → byte (before ++ after) (length before + k) ≡ ok (get_or after k 0)
byte-append before after k h =
    byte-ok (before ++ after) (length before + k) (omega (arith, length-append before after))
    ∙ ap ok (get_or-append before after k)

slice-append :
    (before after rest : List ℕ) (i : ℕ) (bytes : List ℕ)
    → i + length bytes ≤ length after
    → drop i after ≡ bytes ++ rest
    → slice (before ++ after) (length before + i) (length before + i + length bytes) ≡ ok bytes
slice-append before after rest i bytes h e =
    let n : length before + i + length bytes - (length before + i) ≡ length bytes = omega arith in
    slice-ok (before ++ after) (length before + i) (length before + i + length bytes) (omega arith)
      (omega (arith, length-append before after))
    ∙ ap ok (
        ap (λ m. take m (drop (length before + i) (before ++ after))) n
        ∙ ap (take (length bytes)) (drop_past before after i ∙ e)
        ∙ take-length-append bytes rest)

integer-append :
    (messages : Messages) (before xs rest : List ℕ)
    → integer messages (before ++ (2 ∷ length xs ∷ (xs ++ rest))) (length before)
      ≡ ok (xs, length before + 2 + length xs)
unfolding integer
integer-append messages before xs rest =
    let after = 2 ∷ length xs ∷ (xs ++ rest) in
    let m = length-append before after in
    let k = length-append xs rest in
    let zero_ : length before ≡ length before + 0 = omega arith in
    rw
      (
        le→ltb_false (length (before ++ after)) (length before + 2) (omega arith),
        ap (byte (before ++ after)) zero_ ∙ byte-append before after 0 (omega arith),
        byte-append before after 1 (omega arith),
        le→ltb_false (length (before ++ after)) (length before + 2 + length xs) (omega arith),
        slice-append before after rest 2 xs (omega arith) refl,
      )
      refl

coordinates-append :
    (before r s : List ℕ)
    → 1 ≤ length r
    → length s ≡ length r
    → coordinates (before ++ (der_integer r ++ der_integer s)) (length r) (length before)
      ≡ ok (r ++ s)
unfolding coordinates der_integer
coordinates-append before r s h e =
    let x = signed (minimal r) in
    let y = signed (minimal s) in
    let first = 2 ∷ length x ∷ x in
    let past : length (before ++ first) ≡ length before + 2 + length x =
      omega (arith, length-append before first) in
    let joined : (before ++ first) ++ (2 ∷ length y ∷ (y ++ []))
        ≡ before ++ (first ++ (2 ∷ length y ∷ y)) =
      append_assoc before first (2 ∷ length y ∷ (y ++ []))
      ∙ ap (λ t. before ++ (first ++ (2 ∷ length y ∷ t))) (append-nil y) in
    let second : integer s_messages (before ++ (first ++ (2 ∷ length y ∷ y)))
          (length before + 2 + length x)
        ≡ ok (y, length before + 2 + length x + 2 + length y) =
      ap (integer s_messages (before ++ (first ++ (2 ∷ length y ∷ y)))) (sym past)
      ∙ ap (λ t. integer s_messages t (length (before ++ first))) (sym joined)
      ∙ integer-append s_messages (before ++ first) y []
      ∙ ap (λ n. ok (y, n + 2 + length y)) past in
    rw
      (
        integer-append r_messages before x (2 ∷ length y ∷ y),
        second,
        place-signed-minimal r h,
        ap (λ n. place n y) (sym e) ∙ place-signed-minimal s (omega arith),
      )
      refl

-- A length is read back, and the position behind it is the end of the header.
sequence_length-der_length :
    (body : List ℕ)
    → length body < 256
    → sequence_length (0x30 ∷ (der_length (length body) ++ body)) 1
      ≡ ok (length body, length (0x30 ∷ der_length (length body)))
unfolding sequence_length der_length length_bytes
sequence_length-der_length body h = elim (Bool-cases (ltb (length body) 128)) [
  | inl e ↦
      let small = ltb→lt (length body) 128 e in
      let bit : bit_and (length body) 0x80 ≡ 0 = bit_seven (length body) h ∙ omega arith in
      rw (e, byte-ok (0x30 ∷ length body ∷ body) 1 (omega arith), bit) refl
  | inr e ↦
      let sig = 0x30 ∷ 0x81 ∷ length body ∷ body in
      rw
        (
          e,
          byte-ok sig 1 (omega arith),
          le→ltb_false (length sig) 3 (omega arith),
          byte-ok sig 2 (omega arith),
          or_00 (length body) h,
        )
        refl
]

converted :
    (hdr body : List ℕ) (n coord_size : ℕ)
    → 8 ≤ length (0x30 ∷ (hdr ++ body))
    → sequence_length (0x30 ∷ (hdr ++ body)) 1 ≡ ok (n, length (0x30 ∷ hdr))
    → convert_ecdsa_signature_from_der_sized (0x30 ∷ (hdr ++ body)) coord_size
      ≡ coordinates (0x30 ∷ (hdr ++ body)) coord_size (length (0x30 ∷ hdr))
unfolding convert_ecdsa_signature_from_der_sized
converted hdr body n coord_size h e =
    let sig = 0x30 ∷ (hdr ++ body) in
    let some_ : leb (length sig) 1 ≡ false = ground arith in
    rw (le→ltb_false (length sig) 8 h, byte-ok sig 0 (omega arith), some_, e) refl

der_length_pos : (n : ℕ) → 1 ≤ length (der_length n)
unfolding der_length
der_length_pos n = ground arith

-- A DER signature of two numbers, given by the big-endian bytes of a coordinate of at most 66 bytes
-- (P-521), is read back as those bytes, one number after the other.
pub convert_ecdsa_signature_from_der_sized-der_signature :
    (r s : List ℕ)
    → 1 ≤ length r
    → length r ≤ 66
    → length s ≡ length r
    → convert_ecdsa_signature_from_der_sized (der_signature r s) (length r) ≡ ok (r ++ s)
unfolding der_signature
convert_ecdsa_signature_from_der_sized-der_signature r s h k e =
    let body = der_integer r ++ der_integer s in
    let hdr = der_length (length body) in
    let (a, b) = length-der_integer r h in
    let (c, d) = length-der_integer s (omega arith) in
    let m = length-append (der_integer r) (der_integer s) in
    converted hdr body (length body) (length r)
      (omega (arith, length-append hdr body, der_length_pos (length body)))
      (sequence_length-der_length body (omega arith))
    ∙ coordinates-append (0x30 ∷ hdr) r s h e

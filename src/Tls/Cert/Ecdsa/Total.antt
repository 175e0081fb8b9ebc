-- ===== src/Tls/Cert/Ecdsa/Total.antt =====
-- `convert_ecdsa_signature_from_der_sized` of subtle-tls/src/cert.rs ends on every input.
use webtor_rs.Base.{
  ℕ, zero, suc, ◌+◌, ◌-◌, ◌*◌, ◌≤◌, ◌<◌, ◌≡◌, refl, arith, min, bit_and, not, false, List, [], ◌∷◌,
  length, take, drop, get_or, ltb, leb, ◌==◌, Bool-cases, inl, inr, ltb→lt, length-append,
  length-take,
}
use webtor_rs.Base.Outcome.{Gives, Gives->>=, Gives-if}
use webtor_rs.Tls.Handshake.Total.{byte-ok, slice-ok}
use webtor_rs.Tls.Cert.Ecdsa.{
  zeros, length_bytes, sequence_length, Messages, integer, first_nonzero, start_of, place,
  coordinates, convert_ecdsa_signature_from_der_sized,
}

not_less : (m n : ℕ) → ltb m n ≡ false → n ≤ m
not_less m n h = ground arith

-- A position behind `pos` and not outside of the signature.
abbrev Follows : List ℕ → ℕ → ℕ → Type 0
Follows der_sig pos q = (pos ≤ q) × (q ≤ length der_sig)

abbrev Parsed : List ℕ → {A : Type 0} → A × ℕ → Type 0
Parsed der_sig p = p.1 ≤ length der_sig

length_bytes-Gives :
    (der_sig : List ℕ) (n pos len : ℕ)
    → pos + n ≤ length der_sig
    → Gives (Parsed der_sig) (length_bytes der_sig n pos len)
unfolding length_bytes
length_bytes-Gives der_sig zero pos len h = omega arith
length_bytes-Gives der_sig (suc n) pos len h =
    rw (byte-ok der_sig pos (omega arith)) (length_bytes-Gives der_sig n (pos + 1) _ (omega arith))

sequence_length-Gives :
    (der_sig : List ℕ) (pos : ℕ)
    → pos < length der_sig
    → Gives (Parsed der_sig) (sequence_length der_sig pos)
unfolding sequence_length
sequence_length-Gives der_sig pos h =
    let b = get_or der_sig pos 0 in
    rw (byte-ok der_sig pos h) (
      Gives-if (Parsed der_sig) (not (bit_and b 0x80 == 0)) _ _
        (λ long.
          Gives-if (Parsed der_sig) (ltb (length der_sig) (pos + 1 + bit_and b 0x7f)) _ _
            (λ cut. tt)
            (λ whole. length_bytes-Gives der_sig (bit_and b 0x7f) (pos + 1) 0 (not_less _ _ whole)))
        (λ short. omega arith))

integer-Gives :
    (messages : Messages) (der_sig : List ℕ) (pos : ℕ)
    → Gives (Parsed der_sig) (integer messages der_sig pos)
unfolding integer
integer-Gives messages der_sig pos =
    let P = Parsed der_sig in
    let n = get_or der_sig (pos + 1) 0 in
    Gives-if P (ltb (length der_sig) (pos + 2)) _ _ (λ cut. tt)
      (λ there.
        let room = not_less (length der_sig) (pos + 2) there in
        rw (byte-ok der_sig pos (omega arith)) (
          Gives-if P (not (get_or der_sig pos 0 == 0x02)) _ _ (λ other. tt)
            (λ tagged. rw (byte-ok der_sig (pos + 1) (omega arith)) (
              Gives-if P (ltb (length der_sig) (pos + 2 + n)) _ _ (λ over. tt)
                (λ whole.
                  let fits = not_less (length der_sig) (pos + 2 + n) whole in
                  rw (slice-ok der_sig (pos + 2) (pos + 2 + n) (omega arith) fits) fits)))))

first_nonzero-le : (bytes : List ℕ) → first_nonzero bytes ≤ length bytes
unfolding first_nonzero
first_nonzero-le [] = omega arith
first_nonzero-le (b ∷ []) = omega arith
first_nonzero-le (b ∷ c ∷ bytes) = elim (Bool-cases (b == 0)) [
  | inl e ↦ rw e (omega (arith, first_nonzero-le (c ∷ bytes)))
  | inr e ↦ rw e (omega arith)
]

start_of-Gives :
    (coord_size : ℕ) (bytes : List ℕ)
    → Gives (λ start. start ≤ length bytes) (start_of coord_size bytes)
unfolding start_of
start_of-Gives coord_size bytes =
    let P = λ (start : ℕ). start ≤ length bytes in
    Gives-if P (ltb coord_size (length bytes)) _ _
      (λ long.
        let nonempty = ltb→lt coord_size (length bytes) long in
        rw (byte-ok bytes 0 (omega arith))
          (Gives-if P (get_or bytes 0 0 == 0) _ _ (λ e. first_nonzero-le bytes) (λ e. omega arith)))
      (λ short. omega arith)

pub length-zeros : (n : ℕ) → length (zeros n) ≡ n
length-zeros zero = refl
length-zeros (suc n) = omega (arith, length-zeros n)

place-Gives :
    (coord_size : ℕ) (bytes : List ℕ)
    → Gives (λ out. length out ≡ coord_size) (place coord_size bytes)
unfolding place
place-Gives coord_size bytes =
    let P = λ (out : List ℕ). length out ≡ coord_size in
    Gives->>= (λ start. start ≤ length bytes) P (start_of coord_size bytes) _
      (start_of-Gives coord_size bytes)
      (λ start within.
        let kept = take (length bytes - start) (drop start bytes) in
        let copy_len = min (length kept) coord_size in
        rw
          (
            slice-ok bytes start (length bytes) within (omega arith),
            slice-ok kept 0 copy_len (omega arith) (omega arith),
          )
          (omega (
            arith,
            length-append (zeros (coord_size - copy_len)) (take (copy_len - 0) kept),
            length-zeros (coord_size - copy_len),
            length-take (copy_len - 0) kept,
          )))

coordinates-Gives :
    (der_sig : List ℕ) (coord_size pos : ℕ)
    → Gives (λ raw. length raw ≡ coord_size * 2) (coordinates der_sig coord_size pos)
unfolding coordinates
coordinates-Gives der_sig coord_size pos =
    let P = λ (raw : List ℕ). length raw ≡ coord_size * 2 in
    Gives->>= (Parsed der_sig) P (integer _ der_sig pos) _ (integer-Gives _ der_sig pos) (λ r _.
      Gives->>= (Parsed der_sig) P (integer _ der_sig r.1) _ (integer-Gives _ der_sig r.1) (λ s _.
        Gives->>= (λ out. length out ≡ coord_size) P (place coord_size r.0) _
          (place-Gives coord_size r.0)
          (λ left m.
            Gives->>= (λ out. length out ≡ coord_size) P (place coord_size s.0) _
              (place-Gives coord_size s.0) (λ right n. omega (arith, length-append left right)))))

-- On every input `convert_ecdsa_signature_from_der_sized` ends with an error or with two numbers of
-- the size asked for: no index, slice or copy of it is out of range, whatever the signature holds.
pub convert_ecdsa_signature_from_der_sized-Gives :
    (der_sig : List ℕ) (coord_size : ℕ)
    → Gives
        (λ raw. length raw ≡ coord_size * 2)
        (convert_ecdsa_signature_from_der_sized der_sig coord_size)
unfolding convert_ecdsa_signature_from_der_sized
convert_ecdsa_signature_from_der_sized-Gives der_sig coord_size =
    let P = λ (raw : List ℕ). length raw ≡ coord_size * 2 in
    Gives-if P (ltb (length der_sig) 8) _ _ (λ cut. tt)
      (λ there.
        let room = not_less (length der_sig) 8 there in
        rw (byte-ok der_sig 0 (omega arith)) (
          Gives-if P (not (get_or der_sig 0 0 == 0x30)) _ _ (λ other. tt)
            (λ tagged.
              Gives-if P (leb (length der_sig) 1) _ _ (λ cut. tt)
                (λ more.
                  Gives->>= (Parsed der_sig) P (sequence_length der_sig 1) _
                    (sequence_length-Gives der_sig 1 (omega arith))
                    (λ header within. coordinates-Gives der_sig coord_size header.1)))))

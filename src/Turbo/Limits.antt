-- ===== src/Turbo/Limits.antt =====
-- The codec of webtor/src/turbo.rs on every input: what fits, and what the decoder answers.
use webtor_rs.Base.{
  ℕ, ◌+◌, ◌%◌, ◌≤◌, ◌<◌, ◌≡◌, refl, subst, arith, bit_and, Bool-cases, inl, inr, ◌⊎◌, leb→le, List,
  [], ◌∷◌, ◌++◌, none, some, length, length-append, take, drop, leb, ltb, ◌==◌, if◌then◌else◌,
  length-take, length-drop, All, Option-cases, not,
}
use webtor_rs.Base.Bits.{low_six, low_seven, or_shift_seven, or_groups}
use webtor_rs.Base.Words.{IsByte}
use webtor_rs.Base.Outcome.{ok, panics}
use webtor_rs.Turbo.Frame.{TurboFrame, encode, decode, decode_header}
use webtor_rs.Turbo.Wire.{wire, Fits, encode-wire}
use webtor_rs.Turbo.Header.{length-header}
use webtor_rs.Turbo.RoundTrip.{decode-wire, decode-take-wire}

-- A frame that is too long panics.
encode_too_long : (f : TurboFrame) → 0xfffff < length f.bytes → encode f ≡ panics
unfolding encode
encode_too_long f h = ground arith

encode-Fits : (f : TurboFrame) (w : List ℕ) → encode f ≡ ok w → Fits f × (w ≡ wire f)
encode-Fits f w e = elim (Bool-cases (leb (length f.bytes) 0xfffff)) [
  | inl fits ↦ let h = leb→le _ _ fits in (h, cc (encode-wire f h))
  | inr long ↦ cc (encode_too_long f (ground arith))
]

-- What the encoder returned decodes to the frame, whatever bytes follow, and the decoder consumes
-- exactly the encoding.
pub decode-encode :
    (f : TurboFrame) (w rest : List ℕ)
    → encode f ≡ ok w
    → decode (w ++ rest) ≡ ok (some (f, length w))
decode-encode f w rest e = let (h, p) = encode-Fits f w e in rw p (decode-wire f rest h)

-- On every proper prefix of an encoding the decoder asks for more data.
pub decode-take-encode :
    (f : TurboFrame) (w : List ℕ) (k : ℕ)
    → encode f ≡ ok w
    → k < length w
    → decode (take k w) ≡ ok none
decode-take-encode f w k e hk =
    let (h, p) = encode-Fits f w e in rw p (decode-take-wire f k h (subst (λ v. k < length v) p hk))

-- The header takes one byte up to 63 bytes of payload, two up to 8191 and three up to 2 ^ 20 - 1;
-- the encoder panics exactly above that.
pub encode_cases :
    (f : TurboFrame)
    → ((w : List ℕ) × (encode f ≡ ok w)
        × (length w
            ≡ (if leb (length f.bytes) 0x3f
                then 1
                else if leb (length f.bytes) 0x1fff
                then 2
                else 3)
              + length f.bytes)
        × (length f.bytes ≤ 0xfffff))
      ⊎ ((encode f ≡ panics) × (0xfffff < length f.bytes))
encode_cases f = elim (Bool-cases (leb (length f.bytes) 0xfffff)) [
  | inl fits ↦ inl (wire f, encode-wire f (leb→le _ _ fits), size, leb→le _ _ fits)
  | inr long ↦ inr (encode_too_long f (ground arith), ground arith)
]
  where
    size :
        length (wire f)
        ≡ (if leb (length f.bytes) 0x3f then 1 else if leb (length f.bytes) 0x1fff then 2 else 3)
          + length f.bytes
    size = unfold wire in rw (length-append, length-header)

decode_header_bounds :
    (byte0 : ℕ) (rest : List ℕ) (len size : ℕ)
    → IsByte byte0
    → All IsByte rest
    → decode_header byte0 rest ≡ some (len, size)
    → (len ≤ 0xfffff) × (1 ≤ size) × (size ≤ 3)
unfolding decode_header
decode_header_bounds a [] len size ha h e = ground (arith, low_six a ha)
decode_header_bounds a (b ∷ []) len size ha h e =
    ground (arith, low_six a ha, low_seven b h.0, or_shift_seven (a % 64) (b % 128))
decode_header_bounds a (b ∷ c ∷ rest) len size ha h e = ground (
  arith,
  low_six a ha,
  low_seven b h.0,
  low_seven c h.1.0,
  or_shift_seven (a % 64) (b % 128),
  or_groups (a % 64) (b % 128) (c % 128),
)

-- The answers of the decoder on bytes.
abbrev pub Answers : List ℕ → Type 0
Answers buf =
    (decode buf ≡ ok none)
    ⊎ ((f : TurboFrame) × (n : ℕ) × (decode buf ≡ ok (some (f, n)))
        × (length f.bytes < n)
        × (n ≤ length buf)
        × (n ≤ length f.bytes + 3)
        × Fits f)

-- On any bytes the decoder asks for more or takes a frame that lies in the buffer: the error for
-- an oversized frame cannot occur.
pub decode-Answers : (buf : List ℕ) → All IsByte buf → Answers buf
unfolding decode
decode-Answers [] h = inl refl
decode-Answers (a ∷ rest) (ha, h) = elim (Option-cases (decode_header a rest)) [
  | inl e ↦ inl (rw (e, decode))
  | inr ((len, size), e) ↦
      let (fits, lo, hi) = decode_header_bounds a rest len size ha h e in
      elim (Bool-cases (ltb (length (a ∷ rest)) (size + len))) [
        | inl short ↦ inl (rw (e, decode) (ground arith))
        | inr whole ↦
            let bytes = take len (drop size (a ∷ rest)) in
            let full : length bytes ≡ len =
              ground (arith, length-take len (drop size (a ∷ rest)), length-drop size (a ∷ rest)) in
            inr (
              record { bytes = bytes; is_padding = not (not (bit_and a 0x80 == 0)) },
              size + len,
              rw (e, decode) (rw whole (ground arith)),
              omega arith,
              ground arith,
              omega arith,
              omega arith,
            )
      ]
]

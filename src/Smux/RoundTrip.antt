-- ===== src/Smux/RoundTrip.antt =====
-- The wire formats of webtor/src/smux.rs: what is written is read back.
use native.Mathlib.Decide.{dec_lt, ℕ_discrete}
use native.Mathlib.Nat.{mod-eq_of_lt}
use webtor_rs.Base.{
  ℕ, suc, ◌+◌, ◌-◌, ◌/◌, ◌%◌, ◌≤◌, ◌<◌, ◌^◌, ◌≡◌, ◌≢◌, refl, ◌∙◌, arith, List, [], ◌∷◌, ◌++◌,
  Option, none, some, length, take, ltb, if◌then◌else◌, length-append, take-length-append,
  length-take, append-nil, get_or, ◌⊎◌, ◌↔◌,
}
use webtor_rs.Base.Words.{IsU32, u32-le_bytes, u16-le_bytes}
use webtor_rs.Base.Outcome.{Result, ok, err}
use webtor_rs.Error.{TorError}
use webtor_rs.Smux.Command.{command_byte, try_from, try_from-command_byte}
use webtor_rs.Smux.Segment.{SmuxSegment, smux_version, encode, decode, decode_update, upd}

pub record IsValid (seg : SmuxSegment) : Type 0 where
  pub version_two : seg.version ≡ smux_version
  pub id_fits : IsU32 seg.stream_id
  pub length_fits : length seg.bytes < 2 ^ 16

-- The decoder behind a complete header.
abbrev pub after_header : SmuxSegment → ℕ → List ℕ → Result TorError (Option (SmuxSegment × ℕ))
after_header seg n rest =
    if ltb (length rest) n then ok none else ok (some (record seg { bytes = take n rest }, 8 + n))

-- The header of a segment, and the decoder on whatever follows it.
abbrev pub header : SmuxSegment → ℕ → List ℕ → List ℕ
header seg n rest =
    seg.version
    ∷ command_byte seg.command
    ∷ n % 256
    ∷ n / 256 % 256
    ∷ seg.stream_id % 256
    ∷ seg.stream_id / 256 % 256
    ∷ seg.stream_id / 65536 % 256
    ∷ seg.stream_id / 16777216 % 256
    ∷ rest

pub decode-header :
    (seg : SmuxSegment) (n : ℕ) (rest : List ℕ)
    → seg.version ≡ smux_version
    → IsU32 seg.stream_id
    → n < 2 ^ 16
    → decode (header seg n rest) ≡ after_header seg n rest
unfolding decode
decode-header seg n rest hv hi hn =
    ground
      (arith, try_from-command_byte seg.command, u32-le_bytes seg.stream_id hi, u16-le_bytes n hn)

-- The header carries the low 16 bits of the length.
encode-header :
    (seg : SmuxSegment) (rest : List ℕ)
    → encode seg ++ rest ≡ header seg (length seg.bytes % 2 ^ 16) (seg.bytes ++ rest)
unfolding encode
encode-header seg rest = ground arith

-- What the decoder makes of an encoded segment, whatever its length: the payload is cut to the low
-- 16 bits of its length.
pub decode-encode_any :
    (seg : SmuxSegment) (rest : List ℕ)
    → seg.version ≡ smux_version
    → IsU32 seg.stream_id
    → decode (encode seg ++ rest)
      ≡ ok (
          some (
            record seg { bytes = take (length seg.bytes % 2 ^ 16) (seg.bytes ++ rest) },
            8 + length seg.bytes % 2 ^ 16,
          ))
decode-encode_any seg rest hv hi = rw encode-header (
    decode-header seg (length seg.bytes % 2 ^ 16) (seg.bytes ++ rest) hv hi (omega arith)
    ∙ ground (arith, length-append seg.bytes rest))

pub length-encode : (seg : SmuxSegment) → length (encode seg) ≡ 8 + length seg.bytes
unfolding encode
length-encode seg = omega arith

-- A segment of at most 65535 bytes is read back, with what follows it left alone.
pub decode-encode_segment :
    (seg : SmuxSegment) (rest : List ℕ)
    → IsValid seg
    → decode (encode seg ++ rest) ≡ ok (some (seg, length (encode seg)))
decode-encode_segment seg rest v =
    decode-encode_any seg rest v.version_two v.id_fits
    ∙ ground
        (arith, mod-eq_of_lt v.length_fits, take-length-append seg.bytes rest, length-encode seg)

encode-header_self :
    (seg : SmuxSegment) → encode seg ≡ header seg (length seg.bytes % 2 ^ 16) seg.bytes
unfolding encode
encode-header_self seg = refl

decode_short : (buf : List ℕ) → length buf < 8 → decode buf ≡ ok none
unfolding decode
decode_short buf h = ground arith

cut_payload :
    (seg : SmuxSegment) (j : ℕ)
    → IsValid seg
    → j < length seg.bytes
    → decode (take (suc (suc (suc (suc (suc (suc (suc (suc j)))))))) (encode seg)) ≡ ok none
cut_payload seg j v h = rw encode-header_self (
    decode-header seg (length seg.bytes % 2 ^ 16) (take j seg.bytes) v.version_two v.id_fits
      (omega arith)
    ∙ ground (arith, mod-eq_of_lt v.length_fits, length-take j seg.bytes))

-- On a proper prefix of a segment the decoder asks for more data.
pub decode-take-encode_segment :
    (seg : SmuxSegment) (k : ℕ)
    → IsValid seg
    → k < length (encode seg)
    → decode (take k (encode seg)) ≡ ok none
decode-take-encode_segment seg k v h = elim (dec_lt k 8) [
  | yes short ↦ decode_short (take k (encode seg)) (omega (arith, length-take k (encode seg)))
  | no long ↦
      let e : k ≡ suc (suc (suc (suc (suc (suc (suc (suc (k - 8)))))))) = omega arith in
      rw e (cut_payload seg (k - 8) v (omega (arith, length-encode seg)))
]

-- A longer segment does not survive the wire: the decoder takes only so many bytes for the payload as
-- are left of its length modulo 65536, fewer than were sent, and leaves the others for the next segment.
pub decode-encode_oversized :
    (seg : SmuxSegment)
    → seg.version ≡ smux_version
    → IsU32 seg.stream_id
    → 2 ^ 16 ≤ length seg.bytes
    → (decode (encode seg)
        ≡ ok (
            some (
              record seg { bytes = take (length seg.bytes % 2 ^ 16) seg.bytes },
              8 + length seg.bytes % 2 ^ 16,
            )))
      × (8 + length seg.bytes % 2 ^ 16 < length (encode seg))
decode-encode_oversized seg hv hi h = (
  rw (append-nil (encode seg), append-nil seg.bytes) at (decode-encode_any seg [] hv hi),
  omega (arith, length-encode seg),
)

-- The payload of a window update.
pub decode_update-upd :
    (stream_id consumed window : ℕ)
    → IsU32 consumed
    → IsU32 window
    → decode_update (upd stream_id consumed window).bytes
      ≡ ok (record { consumed = consumed; window = window })
unfolding decode_update
decode_update-upd stream_id consumed window hc hw =
    ground (arith, u32-le_bytes consumed hc, u32-le_bytes window hw)

-- The decoder fails exactly on a complete header with another version or an unknown command.
pub decode_fails_iff :
    (buf : List ℕ)
    → ((e : TorError) × (decode buf ≡ err e))
      ↔ ((8 ≤ length buf) × ((get_or buf 0 0 ≢ smux_version) ⊎ (4 < get_or buf 1 0)))
unfolding decode try_from
decode_fails_iff buf = (
  λ p. ground arith,
  λ h. elim (ℕ_discrete (get_or buf 0 0) smux_version) [
    | yes known ↦ (TorError.protocol "Invalid SMUX command", ground arith)
    | no other ↦ (TorError.protocol "Invalid SMUX version", ground arith)
  ],
)

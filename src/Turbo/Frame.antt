-- ===== src/Turbo/Frame.antt =====
-- webtor/src/turbo.rs: `TurboFrame`, its encoder and its decoder. A byte is a number below 256.
use webtor_rs.Base.{
  ℕ, ◌+◌, ◌*◌, ◌/◌, ◌^◌, bit_and, bit_or, Bool, true, false, not, List, [], ◌∷◌, Option, none, some,
  length, take, drop, ltb, leb, ◌==◌, if◌then◌else◌,
}
use webtor_rs.Base.Words.{as_u8}
use webtor_rs.Base.Outcome.{Result, ok, err, panics}
use webtor_rs.Error.{TorError}

abbrev pub turbo_token : List ℕ
turbo_token = 0x12 ∷ 0x93 ∷ 0x60 ∷ 0x5d ∷ 0x27 ∷ 0x81 ∷ 0x75 ∷ 0xf5 ∷ []

abbrev pub max_frame_size : ℕ
max_frame_size = 2 ^ 20

pub record TurboFrame : Type 0 where
  pub bytes : List ℕ
  pub is_padding : Bool

abbrev pub new : List ℕ → TurboFrame
new bytes = record { bytes = bytes; is_padding = false }

abbrev pub padding : List ℕ → TurboFrame
padding bytes = record { bytes = bytes; is_padding = true }

abbrev data_flag : TurboFrame → ℕ
data_flag f = if f.is_padding then 0x00 else 0x80

-- A length that does not fit 20 bits panics.
unfoldable pub encode : TurboFrame → Result TorError (List ℕ)
encode f =
    let len = length f.bytes in
    if leb len 0x3f
    then ok (bit_or (data_flag f) (bit_and (as_u8 len) 0x3f) ∷ f.bytes)
    else if leb len 0x1fff
    then ok (
        bit_or (bit_or (data_flag f) 0x40) (bit_and (as_u8 (len / 2 ^ 7)) 0x3f)
        ∷ as_u8 (bit_and len 0x7f)
        ∷ f.bytes)
    else if leb len 0xfffff
    then ok (
        bit_or (bit_or (data_flag f) 0x40) (bit_and (as_u8 (len / 2 ^ 14)) 0x3f)
        ∷ bit_or 0x80 (bit_and (as_u8 (len / 2 ^ 7)) 0x7f)
        ∷ as_u8 (bit_and len 0x7f)
        ∷ f.bytes)
    else panics

-- The length and the size of the header; `none` where the header is not complete.
unfoldable pub decode_header : ℕ → List ℕ → Option (ℕ × ℕ)
decode_header byte0 rest =
    if bit_and byte0 0x40 == 0 then some (bit_and byte0 0x3f, 1) else elim rest [
      | [] ↦ none
      | byte1 ∷ rest1 ↦
          if bit_and byte1 0x80 == 0
          then some (bit_or (bit_and byte0 0x3f * 2 ^ 7) (bit_and byte1 0x7f), 2)
          else elim rest1 [
            | [] ↦ none
            | byte2 ∷ rest2 ↦ some (
              bit_or (bit_or (bit_and byte0 0x3f * 2 ^ 14) (bit_and byte1 0x7f * 2 ^ 7))
                  (bit_and byte2 0x7f),
              3,
            )
          ]
    ]

-- The frame and the bytes consumed; `ok none` asks for more data.
unfoldable pub decode : List ℕ → Result TorError (Option (TurboFrame × ℕ))
decode [] = ok none
decode (byte0 ∷ rest) =
    let buf = byte0 ∷ rest in
    let is_data = not (bit_and byte0 0x80 == 0) in
    elim (decode_header byte0 rest) [
      | none ↦ ok none
      | some (len, header_size) ↦
          if ltb max_frame_size len
          then err (TorError.protocol "Turbo frame too large")
          else if ltb (length buf) (header_size + len)
          then ok none
          else ok (
              some (
                record { bytes = take len (drop header_size buf); is_padding = not is_data },
                header_size + len,
              ))
    ]

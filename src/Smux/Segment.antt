-- ===== src/Smux/Segment.antt =====
-- webtor/src/smux.rs: segments, window updates and their wire formats.
use webtor_rs.Base.{
  ℕ, ◌+◌, List, [], ◌∷◌, ◌++◌, Option, none, some, length, take, drop, get_or, ltb, not, ◌==◌,
  if◌then◌else◌,
}
use webtor_rs.Base.Words.{
  as_u16, u16_to_le_bytes, u32_to_le_bytes, u16_from_le_bytes, u32_from_le_bytes,
}
use webtor_rs.Base.Outcome.{Result, ok, err, ◌>>=◌}
use webtor_rs.Error.{TorError}
use webtor_rs.Smux.Command.{SmuxCommand, command_byte, try_from}

abbrev pub smux_version : ℕ
smux_version = 2

abbrev pub default_stream_id : ℕ
default_stream_id = 3

abbrev pub default_window : ℕ
default_window = 65535

pub record SmuxSegment : Type 0 where
  pub version : ℕ
  pub command : SmuxCommand
  pub stream_id : ℕ
  pub bytes : List ℕ

abbrev pub new : SmuxCommand → ℕ → List ℕ → SmuxSegment
new command stream_id bytes = record {
  version = smux_version;
  command = command;
  stream_id = stream_id;
  bytes = bytes;
}

abbrev pub syn : ℕ → SmuxSegment
syn stream_id = new SmuxCommand.syn stream_id []

abbrev pub fin : ℕ → SmuxSegment
fin stream_id = new SmuxCommand.fin stream_id []

abbrev pub psh : ℕ → List ℕ → SmuxSegment
psh stream_id bytes = new SmuxCommand.psh stream_id bytes

abbrev pub nop : ℕ → SmuxSegment
nop stream_id = new SmuxCommand.nop stream_id []

abbrev pub upd : ℕ → ℕ → ℕ → SmuxSegment
upd stream_id consumed window =
    new SmuxCommand.upd stream_id (u32_to_le_bytes consumed ++ u32_to_le_bytes window)

-- The length field holds the low 16 bits of the payload's length.
unfoldable pub encode : SmuxSegment → List ℕ
encode seg =
    seg.version
    ∷ command_byte seg.command
    ∷ (u16_to_le_bytes (as_u16 (length seg.bytes)) ++ (u32_to_le_bytes seg.stream_id ++ seg.bytes))

-- `buf[i]`, below the length that the callers have tested.
abbrev byte_at : List ℕ → ℕ → ℕ
byte_at buf i = get_or buf i 0

abbrev pub u32_at : List ℕ → ℕ → ℕ
u32_at buf i =
    u32_from_le_bytes (byte_at buf i) (byte_at buf (1 + i)) (byte_at buf (2 + i))
      (byte_at buf (3 + i))

abbrev decode_body : List ℕ → SmuxCommand → Result TorError (Option (SmuxSegment × ℕ))
decode_body buf command =
    let data_len = u16_from_le_bytes (byte_at buf 2) (byte_at buf 3) in
    let total_len = 8 + data_len in
    if ltb (length buf) total_len
    then ok none
    else ok (
        some (
          record {
            version = byte_at buf 0;
            command = command;
            stream_id = u32_at buf 4;
            bytes = take data_len (drop 8 buf);
          },
          total_len,
        ))

-- The segment and the bytes consumed; `ok none` asks for more data.
unfoldable pub decode : List ℕ → Result TorError (Option (SmuxSegment × ℕ))
decode buf =
    if ltb (length buf) 8
    then ok none
    else if not (byte_at buf 0 == smux_version)
    then err (TorError.protocol "Invalid SMUX version")
    else (try_from (byte_at buf 1) >>= decode_body buf)

pub record SmuxUpdate : Type 0 where
  pub consumed : ℕ
  pub window : ℕ

unfoldable pub decode_update : List ℕ → Result TorError SmuxUpdate
decode_update bytes =
    if ltb (length bytes) 8
    then err (TorError.protocol "SmuxUpdate too short")
    else ok (record { consumed = u32_at bytes 0; window = u32_at bytes 4 })

-- ===== src/Turbo/Runs.antt =====
-- Concrete runs of webtor/src/turbo.rs, and the theorems at concrete inputs.
use webtor_rs.Base.{ℕ, ◌≡◌, refl, List, [], ◌∷◌, ◌++◌, some, true}
use webtor_rs.Base.Outcome.{ok}
use webtor_rs.Transport.{Reads}
use webtor_rs.Transport.Script.{Script, script}
use webtor_rs.Turbo.Frame.{TurboFrame, new, encode, decode, decode_header}
use webtor_rs.Turbo.Frames.{frames}
use webtor_rs.Turbo.Stream.{TurboStream, with_client_id, buffer_size}
use webtor_rs.Turbo.Limits.{decode-encode}

abbrev hello : List ℕ
hello = 72 ∷ 105 ∷ []

encode-hello : encode (new hello) ≡ ok (0x82 ∷ hello)
unfolding encode
encode-hello = refl

decode-hello : decode (0x82 ∷ 72 ∷ 105 ∷ 9 ∷ []) ≡ ok (some (new hello, 3))
unfolding decode decode_header
decode-hello = refl

abbrev pad : TurboFrame
pad = record { bytes = 0 ∷ 0 ∷ []; is_padding = true }

abbrev stream : List (List ℕ) → TurboStream Script
stream incoming = with_client_id (record { incoming = incoming; log = [] }) (1 ∷ 2 ∷ [])

-- A buffer with padding, a frame and the first byte of another frame.
abbrev buffered : TurboStream Script
buffered = record (stream []) { read_buffer = frames (pad ∷ new hello ∷ []) ++ (0x82 ∷ []) }

decode-encode_example : decode ((0x82 ∷ hello) ++ (9 ∷ [])) ≡ ok (some (new hello, 3))
decode-encode_example = decode-encode (new hello) (0x82 ∷ hello) (9 ∷ []) encode-hello

-- The wire of padding and a frame, in two chunks that cut the frame.
abbrev chunks : List (List ℕ)
chunks = (2 ∷ 0 ∷ 0 ∷ 0x82 ∷ []) ∷ (72 ∷ 105 ∷ 9 ∷ []) ∷ []

abbrev played : Script
played = record { incoming = []; log = [] }

chunks-Reads : Reads script buffer_size (stream chunks).inner chunks played
chunks-Reads = Reads.more refl (λ e. cc) (Reads.more refl (λ e. cc) Reads.done)

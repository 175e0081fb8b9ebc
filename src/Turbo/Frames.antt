-- ===== src/Turbo/Frames.antt =====
-- A run of whole frames on the wire of webtor/src/turbo.rs, and the payload that it carries.
use webtor_rs.Base.{
  ℕ, ◌≤◌, ◌<◌, ◌≡◌, refl, arith, List, [], ◌∷◌, ◌++◌, Option, none, some, length, length-append,
  drop, drop-length-append, append_assoc, if◌then◌else◌,
}
use webtor_rs.Base.Outcome.{ok}
use webtor_rs.Turbo.Frame.{TurboFrame, decode}
use webtor_rs.Turbo.Wire.{wire, Fits}
use webtor_rs.Turbo.RoundTrip.{decode-wire}

-- The frames one after the other.
abbrev pub frames : List TurboFrame → List ℕ
frames [] = []
frames (f ∷ fs) = wire f ++ frames fs

-- What the frames carry, padding left out.
abbrev pub payload : List TurboFrame → List ℕ
payload [] = []
payload (f ∷ fs) = (if f.is_padding then [] else f.bytes) ++ payload fs

-- The first frame that is no padding, and the frames behind it.
abbrev pub next_data : List TurboFrame → Option (List ℕ × List TurboFrame)
next_data [] = none
next_data (f ∷ fs) = if f.is_padding then next_data fs else some (f.bytes, fs)

pub payload-next_data :
    (fs : List TurboFrame) (d : List ℕ) (gs : List TurboFrame)
    → next_data fs ≡ some (d, gs)
    → payload fs ≡ d ++ payload gs
payload-next_data [] d gs e = cc
payload-next_data (f ∷ fs) d gs e = ground (arith, payload-next_data fs d gs)

pub payload-no_data : (fs : List TurboFrame) → next_data fs ≡ none → payload fs ≡ []
payload-no_data [] e = refl
payload-no_data (f ∷ fs) e = ground (arith, payload-no_data fs)

pub wire_nonempty : (f : TurboFrame) → 0 < length (wire f)
unfolding wire
wire_nonempty f = ground arith

pub length-frames : (fs : List TurboFrame) → length fs ≤ length (frames fs)
length-frames [] = omega arith
length-frames (f ∷ fs) =
    omega (arith, length-frames fs, wire_nonempty f, length-append (wire f) (frames fs))

-- The decoder on a run of frames takes the first.
pub decode-frames :
    (f : TurboFrame) (fs : List TurboFrame) (tail : List ℕ)
    → Fits f
    → (decode (frames (f ∷ fs) ++ tail) ≡ ok (some (f, length (wire f))))
      × (drop (length (wire f)) (frames (f ∷ fs) ++ tail) ≡ frames fs ++ tail)
decode-frames f fs tail h =
    rw (append_assoc (wire f) (frames fs) tail)
      (decode-wire f (frames fs ++ tail) h, drop-length-append (wire f) (frames fs ++ tail))

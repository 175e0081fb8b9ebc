-- ===== src/Turbo/Delivery.antt =====
-- `poll_read` of webtor/src/turbo.rs hands out the payload of the frames in order.
use webtor_rs.Base.{ℕ, ◌≤◌, ◌≡◌, List, [], ◌++◌, length, All, ◌⊎◌}
use webtor_rs.Base.Outcome.{ok, ready}
use webtor_rs.Transport.{Transport}
use webtor_rs.Turbo.Frame.{TurboFrame}
use webtor_rs.Turbo.Wire.{Fits}
use webtor_rs.Turbo.Frames.{frames, payload}
use webtor_rs.Turbo.Stream.{TurboStream, poll_inner, poll_read}

abbrev pub holding : {S : Type 0} → List ℕ → TurboStream S → TurboStream S
holding bytes s = record s { read_buffer = bytes }

abbrev with_buffers : {S : Type 0} → List ℕ → List ℕ → TurboStream S → TurboStream S
with_buffers left bytes s = record s { write_buffer = left; read_buffer = bytes }

module _ {S : Type 0} (t : Transport S) where
  -- The two ends of `poll_read` on a buffer of whole frames: it has bytes to hand out, or it has
  -- none and asks the lower stream.
  abbrev pub Delivers : List TurboFrame → List ℕ → ℕ → TurboStream S → Type 0
  Delivers fs tail n s =
      ((out left : List ℕ) × (gs : List TurboFrame) × (poll_read t n s
          ≡ (ready (ok out), record s { write_buffer = left; read_buffer = frames gs ++ tail }))
        × (s.write_buffer ++ payload fs ≡ out ++ (left ++ payload gs))
        × (length out ≤ n)
        × All Fits gs)
      ⊎ ((s.write_buffer ++ payload fs ≡ []) × (poll_read t n s ≡ poll_inner t (holding tail s)))

-- ===== src/Turbo/Sending.antt =====
-- The sending side of `TurboStream` in webtor/src/turbo.rs.
use webtor_rs.Base.{
  ℕ, ◌≡◌, ◌≢◌, refl, sym, arith, true, false, List, [], ◌∷◌, ◌++◌, append_assoc, append-nil,
  if◌then◌else◌, All,
}
use webtor_rs.Base.Outcome.{Result, ok}
use webtor_rs.Base.Action.{Action, ◌>>◌, pure}
use webtor_rs.Error.{TorError}
use webtor_rs.Transport.{Transport}
use webtor_rs.Transport.Recorder.{Recorder}
use webtor_rs.Turbo.Frame.{new, turbo_token}
use webtor_rs.Turbo.Wire.{wire, Fits, encode-wire}
use webtor_rs.Turbo.Stream.{TurboStream, initialize, ensure_initialized, send_frame}

-- The greeting that is still to be sent.
abbrev pub greeting : {S : Type 0} → TurboStream S → List ℕ
greeting s = if s.initialized then [] else turbo_token ++ s.client_id

module _ {S : Type 0} (t : Transport S) (r : Recorder t) where
  -- A call that has sent `bytes` and leaves an initialized stream with the same buffers.
  abbrev pub Sent : List ℕ → TurboStream S → Result TorError (Unit {0}) × TurboStream S → Type 0
  Sent bytes s p =
      (p.0 ≡ ok tt)
      × (r.sent p.1.inner ≡ r.sent s.inner ++ bytes)
      × (p.1.initialized ≡ true)
      × (p.1.read_buffer ≡ s.read_buffer)
      × (p.1.write_buffer ≡ s.write_buffer)

  initialize-Sent : (s : TurboStream S) → Sent (greeting s) s (initialize t s)
  unfolding initialize
  initialize-Sent s = ground (
    arith,
    r.write_all-ok hello s.inner,
    r.sent-write_all hello s.inner,
    r.flush-ok (t.write_all hello s.inner).1,
    r.sent-flush (t.write_all hello s.inner).1,
    append-nil (r.sent s.inner),
  )
    where
      hello : List ℕ
      hello = turbo_token ++ s.client_id

  ensure_initialized-Sent : (s : TurboStream S) → Sent (greeting s) s (ensure_initialized t s)
  unfolding ensure_initialized
  ensure_initialized-Sent s = ground (arith, initialize-Sent s, append-nil (r.sent s.inner))

  -- A frame that fits goes out whole, behind the greeting if that has not been sent, and the
  -- stream then counts as greeted.
  pub send_frame-Sent :
      (bytes : List ℕ) (s : TurboStream S)
      → Fits (new bytes)
      → Sent (greeting s ++ wire (new bytes)) s (send_frame t bytes s)
  unfolding send_frame
  send_frame-Sent bytes s h = ground (
    arith,
    ensure_initialized-Sent s,
    encode-wire (new bytes) h,
    r.write_all-ok (wire (new bytes)) (ensure_initialized t s).1.inner,
    r.sent-write_all (wire (new bytes)) (ensure_initialized t s).1.inner,
    append_assoc (r.sent s.inner) (greeting s) (wire (new bytes)),
  )

  -- The frames of a list of payloads, sent one after the other.
  abbrev pub send_frames : List (List ℕ) → Action (TurboStream S) TorError (Unit {0})
  send_frames [] = pure tt
  send_frames (bytes ∷ rest) = do send_frame t bytes; send_frames rest

  abbrev pub data_frames : List (List ℕ) → List ℕ
  data_frames [] = []
  data_frames (bytes ∷ rest) = wire (new bytes) ++ data_frames rest

  greeted :
      (payloads : List (List ℕ)) (s : TurboStream S)
      → All (λ bytes. Fits (new bytes)) payloads
      → s.initialized ≡ true
      → ((send_frames payloads s).0 ≡ ok tt)
        × (r.sent (send_frames payloads s).1.inner ≡ r.sent s.inner ++ data_frames payloads)
  greeted [] s h e = (refl, sym (append-nil (r.sent s.inner)))
  greeted (bytes ∷ rest) s h e = ground (
    arith,
    send_frame-Sent bytes s h.0,
    greeted rest (send_frame t bytes s).1 h.1,
    append_assoc (r.sent s.inner) (wire (new bytes)) (data_frames rest),
  )

  -- A new stream sends the token and its id once, and then every frame in order.
  pub sent-send_frames :
      (payloads : List (List ℕ)) (s : TurboStream S)
      → All (λ bytes. Fits (new bytes)) payloads
      → payloads ≢ []
      → s.initialized ≡ false
      → ((send_frames payloads s).0 ≡ ok tt)
        × (r.sent (send_frames payloads s).1.inner
            ≡ r.sent s.inner ++ (turbo_token ++ s.client_id ++ data_frames payloads))
  sent-send_frames [] s h n e = absurd (n refl)
  sent-send_frames (bytes ∷ rest) s h n e = ground (
    arith,
    send_frame-Sent bytes s h.0,
    greeted rest (send_frame t bytes s).1 h.1,
    append_assoc (r.sent s.inner) (turbo_token ++ s.client_id ++ wire (new bytes))
        (data_frames rest),
    append_assoc (turbo_token ++ s.client_id) (wire (new bytes)) (data_frames rest),
  )

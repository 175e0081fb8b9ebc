-- ===== src/Tls/Stream/PollWrite/Queue.antt =====
-- What `poll_write` and `poll_flush` of subtle-tls/src/stream.rs put on the wire: the bytes sent
-- below and those that still wait.
use webtor_rs.Base.{
  ℕ, zero, suc, ◌<◌, ◌≤◌, ◌≡◌, refl, sym, ap, ◌∙◌, subst, arith, true, List, [], ◌++◌, append-nil,
  append_assoc, length, take, drop, take-append-drop, length-drop, empty_of_length, ◌==◌,
  Bool-cases, inl, inr,
}
use webtor_rs.Base.Outcome.{Result, Poll, ok, err, panics, stuck, pending, ready}
use webtor_rs.Error.{IoError}
use webtor_rs.Transport.{Transport}
use webtor_rs.Tls.Error.{TlsError}
use webtor_rs.Tls.Cipher.{Crypto}
use webtor_rs.Tls.Layer.{RecordLayer, encrypt_record_sync}
use webtor_rs.Tls.Stream.{TlsStream}
use webtor_rs.Tls.Stream.PollWrite.{
  ready_then, after_write, after_record, write_pending, write_all_pending, send_encrypted,
  poll_write, poll_flush,
}

-- One answer of the stream below to a write: it has taken the first `n` bytes, or nothing.
abbrev pub Accepted : {S : Type 0} → (S → List ℕ) → List ℕ → S → Poll IoError ℕ × S → Type 0
Accepted sent bytes s (pending, s') = sent s' ≡ sent s
Accepted sent bytes s (ready (ok n), s') = (n ≤ length bytes) × (sent s' ≡ sent s ++ take n bytes)
Accepted sent bytes s (ready (err e), s') = sent s' ≡ sent s
Accepted sent bytes s (ready panics, s') = sent s' ≡ sent s
Accepted sent bytes s (ready stuck, s') = sent s' ≡ sent s

-- A stream below that keeps what it has taken, in order, and whose flush sends nothing new.
pub record Wire {S : Type 0} (t : Transport S) : Type 0 where
  pub sent : S → List ℕ
  pub accepts : (bytes : List ℕ) (s : S) → Accepted sent bytes s (t.poll_write bytes s)
  pub flushes : (s : S) → sent (t.poll_flush s).1 ≡ sent s

module _ {K C S : Type 0} (crypto : Crypto K C) (t : Transport S) (w : Wire t) where
  -- The bytes on the wire, and those that wait behind them.
  abbrev pub queued : TlsStream K C S → List ℕ
  queued s = w.sent s.inner ++ s.record_write_buffer

  -- The loop loses no byte, adds none, and leaves the ciphers alone; when it is through, none waits.
  abbrev Conserved : TlsStream K C S → Poll IoError (Unit {0}) × TlsStream K C S → Type 0
  Conserved s (ready (ok done), s') =
      (s'.record_write_buffer ≡ []) × (queued s' ≡ queued s) × (s'.record_layer ≡ s.record_layer)
  Conserved s (pending, s') = (queued s' ≡ queued s) × (s'.record_layer ≡ s.record_layer)
  Conserved s (ready (err e), s') = (queued s' ≡ queued s) × (s'.record_layer ≡ s.record_layer)
  Conserved s (ready panics, s') = (queued s' ≡ queued s) × (s'.record_layer ≡ s.record_layer)
  Conserved s (ready stuck, s') = (queued s' ≡ queued s) × (s'.record_layer ≡ s.record_layer)

  Conserved-trans :
      (s s' : TlsStream K C S) (r : Poll IoError (Unit {0}) × TlsStream K C S)
      → queued s' ≡ queued s
      → s'.record_layer ≡ s.record_layer
      → Conserved s' r
      → Conserved s r
  Conserved-trans s s' (ready (ok done), u) e f (n, g, h) = (n, g ∙ e, h ∙ f)
  Conserved-trans s s' (pending, u) e f (g, h) = (g ∙ e, h ∙ f)
  Conserved-trans s s' (ready (err x), u) e f (g, h) = (g ∙ e, h ∙ f)
  Conserved-trans s s' (ready panics, u) e f (g, h) = (g ∙ e, h ∙ f)
  Conserved-trans s s' (ready stuck, u) e f (g, h) = (g ∙ e, h ∙ f)

  after_write-Conserved :
      (k : TlsStream K C S → Poll IoError (Unit {0}) × TlsStream K C S) (s : TlsStream K C S)
      (p : Poll IoError ℕ × S)
      → Accepted w.sent s.record_write_buffer s.inner p
      → ((n : ℕ) (i : S)
          → suc n ≤ length s.record_write_buffer
          → Conserved
              (record s { inner = i; record_write_buffer = drop (suc n) s.record_write_buffer })
              (k
                (record s { inner = i; record_write_buffer = drop (suc n) s.record_write_buffer })))
      → Conserved s (after_write k s p)
  unfolding after_write
  after_write-Conserved k s (pending, i) a h = (ap (λ x. x ++ s.record_write_buffer) a, refl)
  after_write-Conserved k s (ready (ok zero), i) a h =
      (ap (λ x. x ++ s.record_write_buffer) (a.1 ∙ append-nil (w.sent s.inner)), refl)
  after_write-Conserved k s (ready (ok (suc n)), i) a h =
      let waiting = s.record_write_buffer in
      let s' = record s { inner = i; record_write_buffer = drop (suc n) waiting } in
      Conserved-trans s s' (k s')
        (ap (λ x. x ++ drop (suc n) waiting) a.1
          ∙ append_assoc (w.sent s.inner) (take (suc n) waiting) (drop (suc n) waiting)
          ∙ ap (λ x. w.sent s.inner ++ x) (take-append-drop (suc n) waiting))
        refl (h n i a.0)
  after_write-Conserved k s (ready (err e), i) a h = (ap (λ x. x ++ s.record_write_buffer) a, refl)
  after_write-Conserved k s (ready panics, i) a h = (ap (λ x. x ++ s.record_write_buffer) a, refl)
  after_write-Conserved k s (ready stuck, i) a h = (ap (λ x. x ++ s.record_write_buffer) a, refl)

  write_pending-Conserved :
      (fuel : ℕ) (s : TlsStream K C S)
      → length s.record_write_buffer < fuel
      → Conserved s (write_pending crypto t fuel s)
  unfolding write_pending
  write_pending-Conserved zero s h = absurd (omega arith)
  write_pending-Conserved (suc fuel) s h = elim (Bool-cases (length s.record_write_buffer == 0)) [
    | inl e ↦ rw e (empty_of_length s.record_write_buffer e, refl, refl)
    | inr e ↦ rw e (
        after_write-Conserved (write_pending crypto t fuel) s
          (t.poll_write s.record_write_buffer s.inner) (w.accepts s.record_write_buffer s.inner)
          (λ n i b.
            write_pending-Conserved fuel _
              (omega (arith, length-drop (suc n) s.record_write_buffer))))
  ]

  -- One record with `bytes` has been encrypted and stands behind all that was queued.
  abbrev pub IsQueued : List ℕ → TlsStream K C S → TlsStream K C S → Type 0
  IsQueued bytes s s' =
      (encrypted : List ℕ) × (encrypt_record_sync crypto 23 bytes s.record_layer
        ≡ (ok encrypted, s'.record_layer))
      × (queued s' ≡ queued s ++ encrypted)

  -- What `poll_write` has done by the time it returns a number, or nothing.
  abbrev Queues : List ℕ → TlsStream K C S → Poll IoError ℕ × TlsStream K C S → Type 0
  Queues bytes s (ready (ok n), s') = (n ≡ length bytes) × IsQueued bytes s s'
  Queues bytes s (pending, s') = IsQueued bytes s s'
  Queues bytes s (ready (err e), s') = Unit {0}
  Queues bytes s (ready panics, s') = Unit {0}
  Queues bytes s (ready stuck, s') = Unit {0}

  after_record-Queues :
      (bytes encrypted : List ℕ) (s : TlsStream K C S) (layer : RecordLayer K C)
      (p : Poll IoError ℕ × S)
      → encrypt_record_sync crypto 23 bytes s.record_layer ≡ (ok encrypted, layer)
      → s.record_write_buffer ≡ []
      → Accepted w.sent encrypted s.inner p
      → Queues bytes s (after_record (length bytes) encrypted (record s { record_layer = layer }) p)
  unfolding after_record
  after_record-Queues bytes encrypted s layer (pending, i) e b a = (
    encrypted,
    e,
    ap (λ x. x ++ encrypted)
        (a ∙ sym (append-nil (w.sent s.inner)) ∙ ap (λ x. w.sent s.inner ++ x) (sym b)),
  )
  after_record-Queues bytes encrypted s layer (ready (ok n), i) e b a = (
    refl,
    (
      encrypted,
      e,
      rw b (
          ap (λ x. x ++ drop n encrypted) a.1
          ∙ append_assoc (w.sent s.inner) (take n encrypted) (drop n encrypted)
          ∙ ap (λ x. w.sent s.inner ++ x) (take-append-drop n encrypted)
          ∙ ap (λ x. x ++ encrypted) (sym (append-nil (w.sent s.inner)))),
    ),
  )
  after_record-Queues bytes encrypted s layer (ready (err x), i) e b a = tt
  after_record-Queues bytes encrypted s layer (ready panics, i) e b a = tt
  after_record-Queues bytes encrypted s layer (ready stuck, i) e b a = tt

  send_encrypted-Queues :
      (bytes : List ℕ) (s : TlsStream K C S) (r : Result TlsError (List ℕ) × RecordLayer K C)
      → encrypt_record_sync crypto 23 bytes s.record_layer ≡ r
      → s.record_write_buffer ≡ []
      → Queues bytes s (send_encrypted crypto t bytes s r)
  unfolding send_encrypted
  send_encrypted-Queues bytes s (ok encrypted, layer) e b =
      after_record-Queues bytes encrypted s layer (t.poll_write encrypted s.inner) e b
        (w.accepts encrypted s.inner)
  send_encrypted-Queues bytes s (err x, layer) e b = tt
  send_encrypted-Queues bytes s (panics, layer) e b = tt
  send_encrypted-Queues bytes s (stuck, layer) e b = tt

  IsQueued-Conserved :
      (bytes : List ℕ) (s s' u : TlsStream K C S)
      → queued s' ≡ queued s
      → s'.record_layer ≡ s.record_layer
      → IsQueued bytes s' u
      → IsQueued bytes s u
  IsQueued-Conserved bytes s s' u e f (encrypted, g, h) = (
    encrypted,
    ap (encrypt_record_sync crypto 23 bytes) (sym f) ∙ g,
    h ∙ ap (λ x. x ++ encrypted) e,
  )

  ready_then-ok :
      (bytes : List ℕ) (s : TlsStream K C S) (r : Poll IoError (Unit {0}) × TlsStream K C S)
      (f : TlsStream K C S → Poll IoError ℕ × TlsStream K C S) (n : ℕ) (u : TlsStream K C S)
      → Conserved s r
      → ((s' : TlsStream K C S) → s'.record_write_buffer ≡ [] → Queues bytes s' (f s'))
      → ready_then r f ≡ (ready (ok n), u)
      → (n ≡ length bytes) × IsQueued bytes s u
  ready_then-ok bytes s (ready (ok done), s') f n u (b, e, l) h q =
      let (m, last) = subst (Queues bytes s') q (h s' b) in
      (m, IsQueued-Conserved bytes s s' u e l last)
  ready_then-ok bytes s (pending, s') f n u c h q = cc
  ready_then-ok bytes s (ready (err x), s') f n u c h q = cc
  ready_then-ok bytes s (ready panics, s') f n u c h q = cc
  ready_then-ok bytes s (ready stuck, s') f n u c h q = cc

  abbrev send : List ℕ → TlsStream K C S → Poll IoError ℕ × TlsStream K C S
  send bytes s =
      send_encrypted crypto t bytes s (encrypt_record_sync crypto 23 bytes s.record_layer)

  none_waiting :
      (s : TlsStream K C S)
      → s.record_write_buffer ≡ []
      → write_all_pending crypto t s ≡ (ready (ok tt), s)
  unfolding write_pending
  none_waiting s b = let e : (length s.record_write_buffer == 0) ≡ true = rw b refl in rw e refl

  -- A `poll_write` that reports bytes as written has taken all that it was given: it has encrypted
  -- them as one record and queued that behind everything queued before, of which nothing is lost,
  -- repeated or moved. The stream below keeps what it takes, in order.
  pub poll_write-IsQueued :
      (bytes : List ℕ) (s s' : TlsStream K C S) (n : ℕ)
      → poll_write crypto t bytes s ≡ (ready (ok n), s')
      → (n ≡ length bytes) × IsQueued bytes s s'
  unfolding poll_write
  poll_write-IsQueued bytes s s' n e =
      ready_then-ok bytes s (write_all_pending crypto t s) _ n s'
        (write_pending-Conserved _ s (omega arith)) (λ u b. send_encrypted-Queues bytes u _ refl b)
        e

  -- When nothing waits, a `poll_write` that returns pending has queued its data all the same; the
  -- next call with the same data, once it reports it as written, has queued it a second time, under
  -- the next state of the cipher.
  pub poll_write-twice :
      (bytes : List ℕ) (s s' s'' : TlsStream K C S) (n : ℕ)
      → s.record_write_buffer ≡ []
      → poll_write crypto t bytes s ≡ (pending, s')
      → poll_write crypto t bytes s' ≡ (ready (ok n), s'')
      → IsQueued bytes s s' × IsQueued bytes s' s''
  unfolding poll_write
  poll_write-twice bytes s s' s'' n b e f = (
    subst (Queues bytes s) (sym (ap (λ r. ready_then r (send bytes)) (none_waiting s b)) ∙ e)
        (send_encrypted-Queues bytes s _ refl b),
    (poll_write-IsQueued bytes s' s'' n f).1,
  )

  abbrev flush : TlsStream K C S → Poll IoError (Unit {0}) × TlsStream K C S
  flush s = let (q, inner) = t.poll_flush s.inner in (q, record s { inner = inner })

  flush-ok :
      (s u : TlsStream K C S) (r : Poll IoError (Unit {0}) × TlsStream K C S)
      → Conserved s r
      → ready_then r flush ≡ (ready (ok tt), u)
      → (u.record_write_buffer ≡ []) × (w.sent u.inner ≡ queued s)
  flush-ok s u (ready (ok done), s') (b, e, l) q =
      let after = record s' { inner = (t.poll_flush s'.inner).1 } in
      let same : after ≡ u = ap (λ (x : Poll IoError (Unit {0}) × TlsStream K C S). x.1) q in
      let sent : w.sent after.inner ≡ queued s =
        w.flushes s'.inner
        ∙ sym (append-nil (w.sent s'.inner))
        ∙ ap (λ x. w.sent s'.inner ++ x) (sym b)
        ∙ e in
      (
        ap (λ (x : TlsStream K C S). x.record_write_buffer) (sym same) ∙ b,
        ap (λ (x : TlsStream K C S). w.sent x.inner) (sym same) ∙ sent,
      )
  flush-ok s u (pending, s') c q = cc
  flush-ok s u (ready (err x), s') c q = cc
  flush-ok s u (ready panics, s') c q = cc
  flush-ok s u (ready stuck, s') c q = cc

  -- A `poll_flush` that succeeds leaves nothing waiting: what was queued has been sent, in order.
  pub poll_flush-queued :
      (s s' : TlsStream K C S)
      → poll_flush crypto t s ≡ (ready (ok tt), s')
      → (s'.record_write_buffer ≡ []) × (w.sent s'.inner ≡ queued s)
  unfolding poll_flush
  poll_flush-queued s s' e =
      flush-ok s s' (write_all_pending crypto t s) (write_pending-Conserved _ s (omega arith)) e

-- ===== src/Turbo/Receive.antt =====
-- `recv_frame` of webtor/src/turbo.rs: the frame comes out whole however the lower stream cuts it.
use mathlib.Core.List.{flatten}
use native.Mathlib.Decide.{dec_le}
use webtor_rs.Base.{
  ℕ, zero, suc, ◌+◌, ◌<◌, ◌≡◌, ◌≢◌, refl, ap, sym, subst, ◌∙◌, arith, true, false, List, [], ◌∷◌,
  ◌++◌, none, length, length-append, append_assoc, append-nil, if◌then◌else◌, All, ◌⊎◌, inl, inr,
  nonempty_length, split_after, split_before, drop-length-append,
}
use webtor_rs.Base.Outcome.{Result, ok}
use webtor_rs.Error.{TorError}
use webtor_rs.Transport.{Transport, Reads, Reads-cases}
use webtor_rs.Turbo.Frame.{TurboFrame, decode}
use webtor_rs.Turbo.Wire.{wire, Fits}
use webtor_rs.Turbo.RoundTrip.{decode-wire, decode-take-wire}
use webtor_rs.Turbo.Delivery.{holding}
use webtor_rs.Turbo.Stream.{TurboStream, buffer_size, received, recv_frame}

abbrev pub IsPad : TurboFrame → Type 0
IsPad f = Fits f × (f.is_padding ≡ true)

abbrev pub wires : List TurboFrame → List ℕ → List ℕ
wires [] rest = rest
wires (f ∷ fs) rest = wire f ++ wires fs rest

module _ {S : Type 0} (t : Transport S) where
  recv_frame_step :
      (fuel : ℕ) (s : TurboStream S) (f : TurboFrame) (rest : List ℕ)
      → Fits f
      → recv_frame t (suc fuel) (holding (wire f ++ rest) s) ≡ (
          if f.is_padding then recv_frame t fuel (holding rest s) else (ok f.bytes, holding rest s))
  unfolding recv_frame
  recv_frame_step fuel s f rest h =
      rw (decode-wire f rest h, recv_frame) (rw (drop-length-append (wire f) rest))

  recv_frame_read :
      (fuel : ℕ) (s : TurboStream S) (i : S) (c : List ℕ)
      → decode s.read_buffer ≡ ok none
      → t.read buffer_size s.inner ≡ (ok c, i)
      → c ≢ []
      → recv_frame t (suc fuel) s ≡ recv_frame t fuel (received t i c s)
  unfolding recv_frame
  recv_frame_read fuel s i c d r h =
      rw (d, recv_frame) (rw (ap (λ p. p.0) r) (rw (ap (λ p. p.1) r, nonempty_length c h)))

  -- The call has returned `bytes`, and `rest` of the arriving bytes `u` is still to come.
  abbrev pub Receives : List ℕ → List ℕ → S → Result TorError (List ℕ) × TurboStream S → Type 0
  Receives bytes rest u r =
      (r.0 ≡ ok bytes)
      × (cs : List (List ℕ)) × Reads t buffer_size r.1.inner cs u
      × (r.1.read_buffer ++ flatten cs ≡ rest)

  -- A first frame is complete in the buffer, or the buffer is a proper part of it.
  arrived :
      (buffer later : List ℕ) (f : TurboFrame) (rest : List ℕ)
      → Fits f
      → buffer ++ later ≡ wire f ++ rest
      → ((x : List ℕ) × (buffer ≡ wire f ++ x) × (x ++ later ≡ rest))
        ⊎ ((decode buffer ≡ ok none) × (length buffer < length (wire f)))
  arrived buffer later f rest h e = elim (dec_le (length (wire f)) (length buffer)) [
    | yes whole ↦ inl (split_after buffer later (wire f) rest e whole)
    | no part ↦
        let short : length buffer < length (wire f) = omega arith in
        inr (
          subst (λ b. decode b ≡ ok none)
              (sym (split_before buffer later (wire f) rest e (omega arith)))
              (decode-take-wire f (length buffer) h short),
          short,
        )
  ]

  -- One round on the wire of `f`: the frame is taken, or a chunk is read.
  recv_round :
      (fuel : ℕ) (s : TurboStream S) (cs : List (List ℕ)) (u : S) (f : TurboFrame) (rest : List ℕ)
      → Reads t buffer_size s.inner cs u
      → Fits f
      → s.read_buffer ++ flatten cs ≡ wire f ++ rest
      → ((s' : TurboStream S) × Reads t buffer_size s'.inner cs u
          × (s'.read_buffer ++ flatten cs ≡ rest)
          × (recv_frame t (suc fuel) s
              ≡ (if f.is_padding then recv_frame t fuel s' else (ok f.bytes, s'))))
        ⊎ ((s' : TurboStream S) × (ds : List (List ℕ)) × Reads t buffer_size s'.inner ds u
            × (s'.read_buffer ++ flatten ds ≡ wire f ++ rest)
            × (length cs ≡ suc (length ds))
            × (recv_frame t (suc fuel) s ≡ recv_frame t fuel s'))
  unfolding flatten
  recv_round fuel s cs u f rest r h e = elim (arrived s.read_buffer (flatten cs) f rest h e) [
    | inl (x, p, q) ↦ inl (
      holding x s,
      r,
      q,
      subst (λ b. recv_frame t (suc fuel) (holding b s) ≡ after fuel x) (sym p)
          (recv_frame_step fuel s f x h),
    )
    | inr (d, short) ↦ elim (Reads-cases r) [
      | inl empty ↦ absurd (omega (arith, missing empty, length-append (wire f) rest))
      | inr (c, ds, i, eq, step, full, later) ↦ inr (
        received t i c s,
        ds,
        later,
        regroup c ds eq,
        ap length eq,
        recv_frame_read fuel s i c d step full,
      )
    ]
  ]
    where
      after : ℕ → List ℕ → Result TorError (List ℕ) × TurboStream S
      after fuel x =
          if f.is_padding then recv_frame t fuel (holding x s) else (ok f.bytes, holding x s)

      missing : cs ≡ [] → length s.read_buffer ≡ length (wire f ++ rest)
      missing empty = ap length (sym (append-nil s.read_buffer) ∙ rw empty at e)

      regroup :
          (c : List ℕ) (ds : List (List ℕ))
          → cs ≡ c ∷ ds
          → s.read_buffer ++ c ++ flatten ds ≡ wire f ++ rest
      regroup c ds eq = append_assoc s.read_buffer c (flatten ds) ∙ rw eq at e

  -- The call skips the padding and returns the payload of the first data frame, however the lower
  -- stream cuts the bytes into chunks, and keeps every byte that follows. Fuel for one round per
  -- padding frame and chunk is enough.
  pub recv_frame-Receives :
      (fuel : ℕ) (s : TurboStream S) (cs : List (List ℕ)) (u : S) (pads : List TurboFrame)
      (f : TurboFrame) (rest : List ℕ)
      → Reads t buffer_size s.inner cs u
      → All IsPad pads
      → Fits f
      → f.is_padding ≡ false
      → s.read_buffer ++ flatten cs ≡ wires pads (wire f ++ rest)
      → length pads + length cs < fuel
      → Receives f.bytes rest u (recv_frame t fuel s)
  recv_frame-Receives zero s cs u pads f rest r hp hf d e h = absurd (omega arith)
  recv_frame-Receives (suc fuel) s cs u [] f rest r hp hf d e h =
      elim (recv_round fuel s cs u f rest r hf e) [
        | inl (s', later, left, step) ↦ rw (step, d) (refl, cs, later, left)
        | inr (s', ds, later, left, n, step) ↦
            rw step (recv_frame-Receives fuel s' ds u [] f rest later hp hf d left (omega arith))
      ]
  recv_frame-Receives (suc fuel) s cs u (p ∷ pads) f rest r hp hf d e h =
      elim (recv_round fuel s cs u p (wires pads (wire f ++ rest)) r hp.0.0 e) [
        | inl (s', later, left, step) ↦
            rw (step, hp.0.1)
              (recv_frame-Receives fuel s' cs u pads f rest later hp.1 hf d left (omega arith))
        | inr (s', ds, later, left, n, step) ↦
            rw step
              (recv_frame-Receives fuel s' ds u (p ∷ pads) f rest later hp hf d left (omega arith))
      ]

-- ===== src/Turbo/RoundTrip.antt =====
-- `TurboFrame::decode` of webtor/src/turbo.rs reads back what `encode` wrote.
use webtor_rs.Base.{
  ℕ, zero, suc, ◌+◌, ◌*◌, ◌/◌, ◌%◌, ◌≤◌, ◌<◌, ◌≡◌, refl, ◌∙◌, arith, Bool, Bool-cases, inl, inr,
  leb→le, List, ◌∷◌, ◌++◌, none, some, length, length-append, take, leb, take-length-append,
  length-take, append_assoc,
}
use webtor_rs.Base.Outcome.{ok}
use webtor_rs.Turbo.Frame.{TurboFrame, decode}
use webtor_rs.Turbo.Wire.{flag, header, wire, Fits}
use webtor_rs.Turbo.Header.{
  after_header, decode_short, decode_two, decode_three, decode_one_of_more, decode_two_of_three,
  decode-header,
}

-- With less than the payload the answer is "more data".
after_header_short :
    (p : Bool) (n size j : ℕ) (bytes : List ℕ)
    → j < n
    → after_header p n size (take j bytes) ≡ ok none
after_header_short p n size j bytes h = ground (arith, length-take j bytes)

cut_short :
    (p : Bool) (n : ℕ) (bytes : List ℕ) (k : ℕ)
    → n ≤ 63
    → k < 1 + n
    → decode (take k ((flag p + n) ∷ bytes)) ≡ ok none
cut_short p n bytes zero h hk = unfold decode in refl
cut_short p n bytes (suc j) h hk =
    decode_short p n (take j bytes) h ∙ after_header_short p n 1 j bytes (omega arith)

cut_medium :
    (p : Bool) (a b : ℕ) (bytes : List ℕ) (k : ℕ)
    → a ≤ 63
    → b < 128
    → k < 2 + (a * 128 + b)
    → decode (take k ((flag p + 64 + a) ∷ b ∷ bytes)) ≡ ok none
cut_medium p a b bytes zero ha hb hk = unfold decode in refl
cut_medium p a b bytes (suc zero) ha hb hk = decode_one_of_more p a ha
cut_medium p a b bytes (suc (suc j)) ha hb hk =
    decode_two p a ha b (take j bytes) hb
    ∙ after_header_short p (a * 128 + b) 2 j bytes (omega arith)

cut_large :
    (p : Bool) (a b c : ℕ) (bytes : List ℕ) (k : ℕ)
    → a ≤ 63
    → b < 128
    → c < 128
    → k < 3 + (a * 16384 + b * 128 + c)
    → decode (take k ((flag p + 64 + a) ∷ (128 + b) ∷ c ∷ bytes)) ≡ ok none
cut_large p a b c bytes zero ha hb hc hk = unfold decode in refl
cut_large p a b c bytes (suc zero) ha hb hc hk = decode_one_of_more p a ha
cut_large p a b c bytes (suc (suc zero)) ha hb hc hk = decode_two_of_three p a ha b hb
cut_large p a b c bytes (suc (suc (suc j))) ha hb hc hk =
    decode_three p a ha b c (take j bytes) hb hc
    ∙ after_header_short p (a * 16384 + b * 128 + c) 3 j bytes (omega arith)

cut_header :
    (p : Bool) (n : ℕ) (bytes : List ℕ) (k : ℕ)
    → n ≤ 0xfffff
    → k < length (header p n) + n
    → decode (take k (header p n ++ bytes)) ≡ ok none
cut_header p n bytes k h hk = elim (Bool-cases (leb n 63)) [
  | inl short ↦ rw short (cut_short p n bytes k (leb→le _ _ short) (ground arith))
  | inr long ↦ elim (Bool-cases (leb n 8191)) [
    | inl medium ↦
        rw (long, medium)
          (cut_medium p (n / 128) (n % 128) bytes k (ground arith) (omega arith) (ground arith))
    | inr large ↦
        rw (long, large)
          (cut_large p (n / 16384) (n / 128 % 128) (n % 128) bytes k (omega arith) (omega arith)
            (omega arith) (ground arith))
  ]
]

-- A frame that has not arrived in full makes the decoder ask for more data.
pub decode-take-wire :
    (f : TurboFrame) (k : ℕ) → Fits f → k < length (wire f) → decode (take k (wire f)) ≡ ok none
unfolding wire
decode-take-wire f k h hk =
    cut_header f.is_padding (length f.bytes) f.bytes k h
      (omega (arith, length-append (header f.is_padding (length f.bytes)) f.bytes))

-- A complete frame is read back, with what follows it left alone.
pub decode-wire :
    (f : TurboFrame) (rest : List ℕ)
    → Fits f
    → decode (wire f ++ rest) ≡ ok (some (f, length (wire f)))
unfolding wire
decode-wire f rest h = rw append_assoc (
    decode-header f.is_padding (length f.bytes) (f.bytes ++ rest) h
    ∙ ground (
      arith,
      length-append f.bytes rest,
      take-length-append f.bytes rest,
      length-append (header f.is_padding (length f.bytes)) f.bytes,
    ))

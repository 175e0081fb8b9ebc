-- ===== src/Tls/Nonces.antt =====
-- `compute_nonce` of subtle-tls/src/record.rs never gives one nonce twice.
use webtor_rs.Base.{
  ℕ, zero, suc, ◌+◌, ◌/◌, ◌%◌, ◌^◌, ◌<◌, ◌≤◌, ◌≡◌, refl, ap, arith, bit_xor, List, [], ◌∷◌, length,
}
use webtor_rs.Base.Xor.{bit_xor_cancel}
use webtor_rs.Base.Outcome.{ok, >>=-ok}
use webtor_rs.Tls.Cipher.{Cipher}
use webtor_rs.Tls.Nonce.{
  RecordCipher, new, xor_at, u64_to_be_bytes, compute_nonce, increment_sequence,
}

xor_at_total :
    (at : ℕ) (nonce bs : List ℕ)
    → at + length bs ≤ length nonce
    → (out : List ℕ) × (xor_at at nonce bs ≡ ok out) × (length out ≡ length nonce)
unfolding xor_at
xor_at_total at nonce [] h = (nonce, refl, refl)
xor_at_total at [] (b ∷ bs) h = absurd (omega arith)
xor_at_total zero (x ∷ nonce) (b ∷ bs) h =
    let (out, e, n) = xor_at_total zero nonce bs (omega arith) in
    (bit_xor x b ∷ out, rw e refl, ap suc n)
xor_at_total (suc at) (x ∷ nonce) (b ∷ bs) h =
    let (out, e, n) = xor_at_total at nonce (b ∷ bs) (omega arith) in (x ∷ out, rw e refl, ap suc n)

xor_at_injective :
    (at : ℕ) (nonce bs cs out : List ℕ)
    → length bs ≡ length cs
    → xor_at at nonce bs ≡ ok out
    → xor_at at nonce cs ≡ ok out
    → bs ≡ cs
unfolding xor_at
xor_at_injective at nonce [] [] out n p q = refl
xor_at_injective at nonce [] (c ∷ cs) out n p q = absurd (omega arith)
xor_at_injective at nonce (b ∷ bs) [] out n p q = absurd (omega arith)
xor_at_injective at [] (b ∷ bs) (c ∷ cs) out n p q = cc
xor_at_injective zero (x ∷ nonce) (b ∷ bs) (c ∷ cs) out n p q =
    let (r, e, u) = >>=-ok (λ rest. ok (bit_xor x b ∷ rest)) (xor_at zero nonce bs) p in
    let (s, f, v) = >>=-ok (λ rest. ok (bit_xor x c ∷ rest)) (xor_at zero nonce cs) q in
    let same : bit_xor x b ∷ r ≡ bit_xor x c ∷ s = cc in
    let first = bit_xor_cancel x b c (cc) in
    let later = xor_at_injective zero nonce bs cs r (omega arith) u (cc) in cc
xor_at_injective (suc at) (x ∷ nonce) (b ∷ bs) (c ∷ cs) out n p q =
    let (r, e, u) = >>=-ok (λ rest. ok (x ∷ rest)) (xor_at at nonce (b ∷ bs)) p in
    let (s, f, v) = >>=-ok (λ rest. ok (x ∷ rest)) (xor_at at nonce (c ∷ cs)) q in
    let same : x ∷ r ≡ x ∷ s = cc in xor_at_injective at nonce (b ∷ bs) (c ∷ cs) r n u (cc)

u64_bytes_injective :
    (m n : ℕ) → m < 2 ^ 64 → n < 2 ^ 64 → u64_to_be_bytes m ≡ u64_to_be_bytes n → m ≡ n
u64_bytes_injective m n hm hn e =
    let e0 : m / 72057594037927936 % 256 ≡ n / 72057594037927936 % 256 = cc in
    let e1 : m / 281474976710656 % 256 ≡ n / 281474976710656 % 256 = cc in
    let e2 : m / 1099511627776 % 256 ≡ n / 1099511627776 % 256 = cc in
    let e3 : m / 4294967296 % 256 ≡ n / 4294967296 % 256 = cc in
    let e4 : m / 16777216 % 256 ≡ n / 16777216 % 256 = cc in
    let e5 : m / 65536 % 256 ≡ n / 65536 % 256 = cc in
    let e6 : m / 256 % 256 ≡ n / 256 % 256 = cc in let e7 : m % 256 ≡ n % 256 = cc in omega arith

module _ {K C : Type 0} where
  pub compute_nonce_total :
      (c : RecordCipher K C)
      → 12 ≤ length c.iv
      → (nonce : List ℕ) × (compute_nonce c ≡ ok nonce) × (length nonce ≡ length c.iv)
  unfolding compute_nonce
  compute_nonce_total c h = xor_at_total 4 c.iv (u64_to_be_bytes c.sequence) h

  -- The cipher after `n` records.
  abbrev pub advance : ℕ → RecordCipher K C → RecordCipher K C
  advance zero c = c
  advance (suc n) c = increment_sequence (advance n c)

  advance_iv : (n : ℕ) (c : RecordCipher K C) → (advance n c).iv ≡ c.iv
  advance_iv zero c = refl
  advance_iv (suc n) c = advance_iv n c

  advance_sequence :
      (n : ℕ) (c : RecordCipher K C)
      → c.sequence + n < 2 ^ 64
      → (advance n c).sequence ≡ c.sequence + n
  advance_sequence zero c h = omega arith
  advance_sequence (suc n) c h = omega (arith, advance_sequence n c (omega arith))

  -- For an initialisation vector of 12 bytes at least, two of the first 2^64 records of a fresh
  -- cipher that have the same nonce are the same record.
  pub compute_nonce-advance_injective :
      (aead : Cipher K C) (iv : List ℕ) (i j : ℕ)
      → 12 ≤ length iv
      → i < 2 ^ 64
      → j < 2 ^ 64
      → compute_nonce (advance i (new aead iv)) ≡ compute_nonce (advance j (new aead iv))
      → i ≡ j
  unfolding compute_nonce
  compute_nonce-advance_injective aead iv i j h hi hj e =
      let c = new aead iv in
      let (out, p, n) = xor_at_total 4 iv (u64_to_be_bytes i) h in
      let si : (advance i c).sequence ≡ i = omega (arith, advance_sequence i c (omega arith)) in
      let sj : (advance j c).sequence ≡ j = omega (arith, advance_sequence j c (omega arith)) in
      let same : xor_at 4 iv (u64_to_be_bytes i) ≡ xor_at 4 iv (u64_to_be_bytes j) =
        rw (advance_iv i c, advance_iv j c, si, sj) at e in
      u64_bytes_injective i j hi hj
        (xor_at_injective 4 iv (u64_to_be_bytes i) (u64_to_be_bytes j) out refl p (cc))

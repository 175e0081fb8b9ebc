-- ===== src/Tls/Nonce.antt =====
-- `RecordCipher` of subtle-tls/src/record.rs: the encryption state of one direction.
use webtor_rs.Base.{ℕ, zero, suc, ◌+◌, ◌/◌, ◌%◌, ◌^◌, bit_xor, List, [], ◌∷◌}
use webtor_rs.Base.Outcome.{Result, ok, panics, ◌>>=◌}
use webtor_rs.Tls.Error.{TlsError}
use webtor_rs.Tls.Cipher.{Cipher}

pub record RecordCipher (K C : Type 0) : Type 0 where
  pub aead : Cipher K C
  pub iv : List ℕ
  pub sequence : ℕ

abbrev pub new : {K C : Type 0} → Cipher K C → List ℕ → RecordCipher K C
new aead iv = record { aead = aead; iv = iv; sequence = 0 }

-- `u64::to_be_bytes`
abbrev pub u64_to_be_bytes : ℕ → List ℕ
u64_to_be_bytes n =
    n / 72057594037927936 % 256
    ∷ n / 281474976710656 % 256
    ∷ n / 1099511627776 % 256
    ∷ n / 4294967296 % 256
    ∷ n / 16777216 % 256
    ∷ n / 65536 % 256
    ∷ n / 256 % 256
    ∷ n % 256
    ∷ []

-- `nonce[at + i] ^= seq_bytes[i]` for each byte of `seq_bytes`; an index past the end panics.
unfoldable pub xor_at : ℕ → List ℕ → List ℕ → Result TlsError (List ℕ)
xor_at at nonce [] = ok nonce
xor_at at [] (b ∷ bs) = panics
xor_at zero (x ∷ nonce) (b ∷ bs) = xor_at zero nonce bs >>= λ rest. ok (bit_xor x b ∷ rest)
xor_at (suc at) (x ∷ nonce) (b ∷ bs) = xor_at at nonce (b ∷ bs) >>= λ rest. ok (x ∷ rest)

module _ {K C : Type 0} where
  unfoldable pub compute_nonce : RecordCipher K C → Result TlsError (List ℕ)
  compute_nonce c = xor_at 4 c.iv (u64_to_be_bytes c.sequence)

  abbrev pub increment_sequence : RecordCipher K C → RecordCipher K C
  increment_sequence c = record c { sequence = (c.sequence + 1) % 2 ^ 64 }

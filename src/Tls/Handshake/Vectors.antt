-- ===== src/Tls/Handshake/Vectors.antt =====
-- The vectors of TLS, numbers and bytes behind their length, and their reading back: what the messages
-- that subtle-tls/src/handshake.rs builds consist of.
use webtor_rs.Base.{
  ℕ, zero, suc, ◌+◌, ◌*◌, ◌/◌, ◌%◌, ◌^◌, ◌<◌, ◌≡◌, refl, sym, ap, ◌∙◌, arith, List, [], ◌∷◌, ◌++◌,
  append-nil, Option, none, some, All, length, take, drop, ltb, le→ltb_false, length-append,
  take-length-append, drop-length-append, if◌then◌else◌,
}
use webtor_rs.Base.BigEndian.{be16_bytes}
use webtor_rs.Tls.Handshake.ClientHello.{words_bytes, with_length}

abbrev pub and_then : {A B : Type 0} → Option A → (A → Option B) → Option B
and_then none f = none
and_then (some a) f = f a

-- The first `n` bytes and the rest.
unfoldable pub split : ℕ → List ℕ → Option (List ℕ × List ℕ)
split n bytes = if ltb (length bytes) n then none else some (take n bytes, drop n bytes)

-- A vector behind a length of one byte, and of two.
unfoldable pub vec8 : List ℕ → Option (List ℕ × List ℕ)
vec8 [] = none
vec8 (n ∷ bytes) = split n bytes

unfoldable pub vec16 : List ℕ → Option (List ℕ × List ℕ)
vec16 [] = none
vec16 (a ∷ []) = none
vec16 (a ∷ b ∷ bytes) = split (a * 256 + b) bytes

-- A vector and nothing behind it.
unfoldable pub whole : Option (List ℕ × List ℕ) → Option (List ℕ)
whole none = none
whole (some (bytes, [])) = some bytes
whole (some (bytes, b ∷ rest)) = none

unfoldable pub words : List ℕ → Option (List ℕ)
words [] = some []
words (a ∷ []) = none
words (a ∷ b ∷ bytes) = and_then (words bytes) (λ ns. some ((a * 256 + b) ∷ ns))

-- Numbers of 16 bits, each with a vector: extensions, and key shares. Each takes a byte at least.
unfoldable pub entries : ℕ → List ℕ → Option (List (ℕ × List ℕ))
entries zero bytes = none
entries (suc fuel) [] = some []
entries (suc fuel) (a ∷ []) = none
entries (suc fuel) (a ∷ b ∷ bytes) =
    and_then (vec16 bytes) (λ v. and_then (entries fuel v.1) (λ es. some ((a * 256 + b, v.0) ∷ es)))

abbrev pub all_entries : List ℕ → Option (List (ℕ × List ℕ))
all_entries bytes = entries (suc (length bytes)) bytes

pub and_then-some :
    {A B : Type 0} {o : Option A} {a : A} (f : A → Option B) {r : Option B}
    → o ≡ some a
    → f a ≡ r
    → and_then o f ≡ r
and_then-some f e k = ap (λ o. and_then o f) e ∙ k

pub split-append : (xs rest : List ℕ) → split (length xs) (xs ++ rest) ≡ some (xs, rest)
unfolding split
split-append xs rest =
    rw
      (
        le→ltb_false (length (xs ++ rest)) (length xs) (omega (arith, length-append xs rest)),
        take-length-append xs rest,
        drop-length-append xs rest,
      )
      refl

pub vec16-append :
    (xs rest : List ℕ)
    → length xs < 2 ^ 16
    → vec16 (be16_bytes (length xs) ++ (xs ++ rest)) ≡ some (xs, rest)
unfolding vec16
vec16-append xs rest h =
    let n : length xs / 256 % 256 * 256 + length xs % 256 ≡ length xs = omega arith in
    ap (λ k. split k (xs ++ rest)) n ∙ split-append xs rest

pub vec8-append : (xs rest : List ℕ) → vec8 (length xs ∷ (xs ++ rest)) ≡ some (xs, rest)
unfolding vec8
vec8-append xs rest = split-append xs rest

pub whole-vec16 :
    (xs : List ℕ) (n : ℕ)
    → n ≡ length xs
    → n < 2 ^ 16
    → whole (vec16 (be16_bytes n ++ xs)) ≡ some xs
unfolding whole
whole-vec16 xs n e h =
    ap (λ k. whole (vec16 (be16_bytes k ++ xs))) e
    ∙ ap (λ t. whole (vec16 (be16_bytes (length xs) ++ t))) (sym (append-nil xs))
    ∙ ap whole (vec16-append xs [] (omega arith))

pub words-words_bytes : (ns : List ℕ) → All (λ n. n < 2 ^ 16) ns → words (words_bytes ns) ≡ some ns
unfolding words
words-words_bytes [] h = refl
words-words_bytes (n ∷ ns) (s, h) =
    let e : n / 256 % 256 * 256 + n % 256 ≡ n = omega arith in rw (words-words_bytes ns h, e) refl

abbrev pub entry_bytes : List (ℕ × List ℕ) → List ℕ
entry_bytes [] = []
entry_bytes ((n, bytes) ∷ es) = with_length n bytes ++ entry_bytes es

abbrev pub IsEntry : ℕ × List ℕ → Type 0
IsEntry e = (e.0 < 2 ^ 16) × (length e.1 < 2 ^ 16)

pub entries-entry_bytes :
    (fuel : ℕ) (es : List (ℕ × List ℕ))
    → All IsEntry es
    → length (entry_bytes es) < fuel
    → entries fuel (entry_bytes es) ≡ some es
unfolding entries
entries-entry_bytes zero es a h = absurd (omega arith)
entries-entry_bytes (suc fuel) [] a h = refl
entries-entry_bytes (suc fuel) ((n, bytes) ∷ es) ((s, k), a) h =
    let m = length-append bytes (entry_bytes es) in
    let e : n / 256 % 256 * 256 + n % 256 ≡ n = omega arith in
    and_then-some _ (vec16-append bytes (entry_bytes es) k) (
      and_then-some _ (entries-entry_bytes fuel es a (omega arith))
        (ap (λ t. some ((t, bytes) ∷ es)) e))

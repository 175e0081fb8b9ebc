-- ===== src/Http/Total.antt =====
-- `decode_chunked_body` of webtor/src/http.rs ends on every body.
use webtor_rs.Base.{
  ℕ, zero, suc, ◌+◌, ◌*◌, ◌%◌, ◌^◌, ◌<◌, ◌≤◌, ◌≡◌, refl, arith, false, ◌&&◌, String, List, [], ◌∷◌,
  none, some, length, take, drop, length-append, length-take, length-drop, get_or, leb, ltb, ltb→lt,
  ◌==◌, Bool-cases, Option-cases, inl, inr,
}
use webtor_rs.Base.Outcome.{Result, ok, err, panics, stuck}
use webtor_rs.Http.Utf8.{
  from_utf8, trim, before_semicolon, from_str_radix, hex_digits, hex_digit, usize_limit,
}
use webtor_rs.Http.Chunked.{
  count_blank, find_crlf, SizeLine, not_utf8, blank, invalid, size, size_line, after_chunk, Round,
  stop, go_on, chunk, on_line, round, decode_from, decode_chunked_body, partial, parsed, round_at,
  size_str,
}

-- Somewhere in the bytes stands the size line of a chunk whose size, added to the index behind the
-- line, is more than a `usize` holds.
abbrev pub Overflows : List ℕ → Type 0
Overflows bytes =
    (j : ℕ) × (k : ℕ) × (n : ℕ) × (j + k + 2 ≤ length bytes)
    × (size_line (take k (drop j bytes)) ≡ size n)
    × (2 ^ 32 ≤ j + k + 2 + n)

-- The call ends, and what it returns is no longer than the body. It panics only where a size overflows.
abbrev pub IsDecoded : List ℕ → Result String (List ℕ) → Type 0
IsDecoded body (ok out) = length out ≤ length body
IsDecoded body (err e) = Unit {0}
IsDecoded body panics = Overflows body
IsDecoded body stuck = ⊥

-- A round that goes on has moved forward in the body, and its data comes from the part passed.
abbrev Moves : List ℕ → ℕ → Round → Type 0
Moves body i (stop r) = IsDecoded body r
Moves body i (go_on i' out) = (i < i') × (i' ≤ length body) × (length out ≤ i')

pub find_crlf-within : (xs : List ℕ) (k : ℕ) → find_crlf xs ≡ some k → k + 2 ≤ length xs
unfolding find_crlf
find_crlf-within [] k e = cc
find_crlf-within (a ∷ []) k e = cc
find_crlf-within (a ∷ b ∷ xs) k e = elim (Bool-cases ((a == 13) && (b == 10))) [
  | inl h ↦ let first : some 0 ≡ some k = rw h at e in let z : 0 ≡ k = cc in omega arith
  | inr h ↦ elim (Option-cases (find_crlf (b ∷ xs))) [
    | inl n ↦ let later : none ≡ some k = rw (h, n) at e in cc
    | inr (j, n) ↦
        let later : some (suc j) ≡ some k = rw (h, n) at e in
        let same : suc j ≡ k = cc in omega (arith, find_crlf-within (b ∷ xs) j n)
  ]
]

hex_digits-small : (n m : ℕ) (cs : List ℕ) → n < 2 ^ 32 → hex_digits n cs ≡ some m → m < 2 ^ 32
unfolding hex_digits
hex_digits-small n m [] h e = let same : n ≡ m = cc in omega arith
hex_digits-small n m (c ∷ cs) h e = elim (Option-cases (hex_digit c)) [
  | inl d ↦ let bad : none ≡ some m = rw (d, hex_digits) at e in cc
  | inr (d, f) ↦ elim (Bool-cases (ltb (n * 16 + d) usize_limit)) [
    | inl b ↦ hex_digits-small (n * 16 + d) m cs (ltb→lt _ _ b) (rw (f, b, hex_digits) at e)
    | inr b ↦ let bad : none ≡ some m = rw (f, b, hex_digits) at e in cc
  ]
]

from_str_radix-small : (cs : List ℕ) (m : ℕ) → from_str_radix cs ≡ some m → m < 2 ^ 32
unfolding from_str_radix
from_str_radix-small [] m e = cc
from_str_radix-small (c ∷ []) m e = hex_digits-small 0 m (c ∷ []) (omega arith) e
from_str_radix-small (c ∷ d ∷ cs) m e = elim (Bool-cases (c == 43)) [
  | inl b ↦ hex_digits-small 0 m (d ∷ cs) (omega arith) (rw b at e)
  | inr b ↦ hex_digits-small 0 m (c ∷ d ∷ cs) (omega arith) (rw b at e)
]

parsed-small : (cs : List ℕ) (n : ℕ) → parsed (from_str_radix cs) ≡ size n → n < 2 ^ 32
parsed-small cs n e = elim (Option-cases (from_str_radix cs)) [
  | inl f ↦ let bad : invalid ≡ size n = rw f at e in cc
  | inr (m, f) ↦
      let same : size m ≡ size n = rw f at e in
      let eq : m ≡ n = cc in omega (arith, from_str_radix-small cs m f)
]

size_str-small : (cs : List ℕ) (n : ℕ) → size_str cs ≡ size n → n < 2 ^ 32
size_str-small [] n e = cc
size_str-small (c ∷ cs) n e = parsed-small (c ∷ cs) n e

pub size_line-small : (line : List ℕ) (n : ℕ) → size_line line ≡ size n → n < 2 ^ 32
unfolding size_line
size_line-small line n e = elim (Option-cases (from_utf8 line)) [
  | inl f ↦ let bad : not_utf8 ≡ size n = rw (f, size_line) at e in cc
  | inr (cs, f) ↦ size_str-small (trim (before_semicolon cs)) n (rw (f, size_line) at e)
]

partial-IsDecoded :
    (body out : List ℕ) (message : String)
    → length out ≤ length body
    → IsDecoded body (partial out message)
partial-IsDecoded body out message h = elim (Bool-cases (length out == 0)) [
  | inl e ↦ rw e tt
  | inr e ↦ rw e h
]

after_chunk-within :
    (body : List ℕ) (i : ℕ)
    → i ≤ length body
    → (i ≤ after_chunk body i) × (after_chunk body i ≤ length body)
unfolding after_chunk
after_chunk-within body i h = elim (Bool-cases (ltb (i + 1) (length body))) [
  | inl e ↦ elim (Bool-cases ((get_or body i 0 == 13) && (get_or body (i + 1) 0 == 10))) [
    | inl f ↦ let b = ltb→lt (i + 1) (length body) e in rw (e, f) (omega arith, omega arith)
    | inr f ↦ rw (e, f) (omega arith, h)
  ]
  | inr e ↦ rw e (omega arith, h)
]

not_less : (m n : ℕ) → ltb m n ≡ false → n ≤ m
not_less m n h = ground arith

not_most : (m n : ℕ) → leb m n ≡ false → n < m
not_most m n h = ground arith

wrapped : (i n : ℕ) → (i + n) % 2 ^ 32 < i → 2 ^ 32 ≤ i + n
wrapped i n h = omega arith

chunk-Moves :
    (body : List ℕ) (start i : ℕ) (out : List ℕ) (n : ℕ)
    → length body < 2 ^ 31
    → start < i
    → i ≤ length body
    → length out ≤ i
    → n < 2 ^ 32
    → (2 ^ 32 ≤ i + n → Overflows body)
    → Moves body start (chunk body i out n)
unfolding chunk
chunk-Moves body start i out n small a b l m over =
    let end = (i + n) % 2 ^ 32 in
    elim (Bool-cases (n == 0)) [
      | inl e ↦ rw e (omega arith)
      | inr e ↦ elim (Bool-cases (ltb (length body) end)) [
        | inl f ↦ rw (e, f) (omega (arith, length-append out (drop i body), length-drop i body))
        | inr f ↦ elim (Bool-cases (ltb end i)) [
          | inl g ↦ rw (e, f, g) (over (wrapped i n (ltb→lt end i g)))
          | inr g ↦
              let low = not_less end i g in
              let high = not_less (length body) end f in
              let (after, within) = after_chunk-within body (i + n) (omega arith) in
              rw (e, f, g)
                (
                  omega arith,
                  within,
                  omega (
                    arith,
                    length-append out (take n (drop i body)),
                    length-take n (drop i body),
                  ),
                )
        ]
      ]
    ]

on_line-Moves :
    (body : List ℕ) (start j k : ℕ) (out : List ℕ)
    → length body < 2 ^ 31
    → start ≤ j
    → j + k + 2 ≤ length body
    → length out ≤ start
    → (line : SizeLine) → size_line (take k (drop j body)) ≡ line
    → Moves body start (on_line body j k out)
unfolding on_line
on_line-Moves body start j k out small a b l not_utf8 e = rw (e, on_line, Moves) tt
on_line-Moves body start j k out small a b l blank e =
    rw (e, on_line, Moves) (omega arith, b, omega arith)
on_line-Moves body start j k out small a b l invalid e =
    rw (e, on_line, Moves) (partial-IsDecoded body out "Invalid chunk size" (omega arith))
on_line-Moves body start j k out small a b l (size n) e =
    rw (e, on_line, Moves)
      (chunk-Moves body start (j + k + 2) out n small (omega arith) b (omega arith)
        (size_line-small (take k (drop j body)) n e) (λ h. (j, k, n, b, e, h)))

round-Moves :
    (body : List ℕ) (i : ℕ) (out : List ℕ)
    → length body < 2 ^ 31
    → i ≤ length body
    → length out ≤ i
    → Moves body i (round body i out)
unfolding round round_at
round-Moves body i out small b l =
    let j = i + count_blank (drop i body) in
    elim (Bool-cases (leb (length body) j)) [
      | inl e ↦ rw e (omega arith)
      | inr e ↦ elim (Option-cases (find_crlf (drop j body))) [
        | inl f ↦ rw (e, f) (partial-IsDecoded body out "Incomplete chunk size line" (omega arith))
        | inr (k, f) ↦
            let inside = not_most (length body) j e in
            let line = find_crlf-within (drop j body) k f in
            rw (e, f)
              (on_line-Moves body i j k out small (omega arith) (omega (arith, length-drop j body))
                l (size_line (take k (drop j body))) refl)
      ]
    ]

decoded :
    (fuel : ℕ) (body : List ℕ) (i : ℕ) (r : Round)
    → length body < suc fuel + i
    → Moves body i r
    → ((i' : ℕ) (out : List ℕ)
        → length body + 1 ≤ fuel + i'
        → i' ≤ length body
        → length out ≤ i'
        → IsDecoded body (decode_from fuel body i' out))
    → IsDecoded body (elim r [ stop a ↦ a | go_on i' out ↦ decode_from fuel body i' out ])
decoded fuel body i (stop a) h m k = m
decoded fuel body i (go_on i' out) h (x, y, z) k = k i' out (omega arith) y z

decode_from-IsDecoded :
    (fuel : ℕ) (body : List ℕ) (i : ℕ) (out : List ℕ)
    → length body < 2 ^ 31
    → i ≤ length body
    → length out ≤ i
    → length body < fuel + i
    → IsDecoded body (decode_from fuel body i out)
unfolding decode_from
decode_from-IsDecoded zero body i out small b l h = absurd (omega arith)
decode_from-IsDecoded (suc fuel) body i out small b l h =
    decoded fuel body i (round body i out) h (round-Moves body i out small b l)
      (λ i' out' f b' l'. decode_from-IsDecoded fuel body i' out' small b' l' (omega arith))

-- For a body of any bytes, shorter than 2^31 as any slice in a browser is: the loop of
-- `decode_chunked_body` ends with fuel for one round per byte, and the decoded data is no longer
-- than the body.
pub decode_chunked_body-IsDecoded :
    (body : List ℕ) → length body < 2 ^ 31 → IsDecoded body (decode_chunked_body body)
unfolding decode_chunked_body
decode_chunked_body-IsDecoded body small =
    decode_from-IsDecoded (suc (length body)) body 0 [] small (omega arith) (omega arith)
      (omega arith)

-- ===== src/Http/Overflow.antt =====
-- A chunk size for which `decode_chunked_body` of webtor/src/http.rs panics.
use webtor_rs.Base.{
  ℕ, suc, ◌+◌, ◌%◌, ◌^◌, ◌<◌, ◌≤◌, ◌≡◌, refl, ap, ◌∙◌, arith, String, false, List, [], some, length,
  take, leb, ◌==◌, le→ltb_false, lt→ltb,
}
use webtor_rs.Base.Outcome.{Result, panics}
use webtor_rs.Http.Chunked.{
  count_blank, find_crlf, size, size_line, stop, chunk, on_line, round_at, round, decode_from,
  decode_chunked_body,
}
use webtor_rs.Http.Total.{find_crlf-within, size_line-small}

not_zero : (n : ℕ) → 0 < n → (n == 0) ≡ false
not_zero n h = ground arith

longer : (m n : ℕ) → n < m → leb m n ≡ false
longer m n h = ground arith

chunk-overflow :
    (body out : List ℕ) (i n : ℕ)
    → length body < 2 ^ 31
    → i ≤ length body
    → n < 2 ^ 32
    → 2 ^ 32 ≤ i + n
    → chunk body i out n ≡ stop panics
unfolding chunk
chunk-overflow body out i n small b m h =
    rw
      (
        not_zero n (omega arith),
        le→ltb_false (length body) ((i + n) % 2 ^ 32) (omega arith),
        lt→ltb ((i + n) % 2 ^ 32) i (omega arith),
      )
      refl

on_line-overflow :
    (body out : List ℕ) (k n : ℕ)
    → length body < 2 ^ 31
    → k + 2 ≤ length body
    → size_line (take k body) ≡ size n
    → 2 ^ 32 ≤ k + 2 + n
    → on_line body 0 k out ≡ stop panics
unfolding on_line
on_line-overflow body out k n small within s h =
    let m = size_line-small (take k body) n s in
    rw (s, on_line) (chunk-overflow body out (0 + k + 2) n small (omega arith) m (omega arith))

round-overflow :
    (body out : List ℕ) (k n : ℕ)
    → length body < 2 ^ 31
    → count_blank body ≡ 0
    → find_crlf body ≡ some k
    → size_line (take k body) ≡ size n
    → 2 ^ 32 ≤ k + 2 + n
    → round body 0 out ≡ stop panics
unfolding round round_at
round-overflow body out k n small blank line s h =
    let within = find_crlf-within body k line in
    let first : 0 + count_blank body ≡ 0 = omega arith in
    let at_start : round_at body 0 out ≡ stop panics =
      rw (longer (length body) 0 (omega arith), line)
        (on_line-overflow body out k n small within s h) in
    ap (λ j. round_at body j out) first ∙ at_start

decode_from-stop :
    (fuel : ℕ) (body out : List ℕ) (i : ℕ) (r : Result String (List ℕ))
    → round body i out ≡ stop r
    → decode_from (suc fuel) body i out ≡ r
unfolding decode_from
decode_from-stop fuel body out i r e = rw (e, decode_from) refl

-- A body that begins with a size line whose size, added to the index behind the line, overflows
-- the 32 bits of a `usize`, makes `decode_chunked_body` panic: the sum wraps around and passes the
-- check against the length of the body.
pub decode_chunked_body-overflow :
    (body : List ℕ) (k n : ℕ)
    → length body < 2 ^ 31
    → count_blank body ≡ 0
    → find_crlf body ≡ some k
    → size_line (take k body) ≡ size n
    → 2 ^ 32 ≤ k + 2 + n
    → decode_chunked_body body ≡ panics
unfolding decode_chunked_body
decode_chunked_body-overflow body k n small blank line s h =
    decode_from-stop (length body) body [] 0 panics
      (round-overflow body [] k n small blank line s h)

-- ===== src/Http/Chunked.antt =====
-- `decode_chunked_body` of webtor/src/http.rs in a browser, where a `usize` has 32 bits. The sum of
-- an index and a size wraps around, as in a release build.
use webtor_rs.Base.{
  ℕ, zero, suc, ◌+◌, ◌%◌, ◌&&◌, ◌||◌, String, List, [], ◌∷◌, ◌++◌, Option, none, some, length, take,
  drop, get_or, leb, ltb, ◌==◌, if◌then◌else◌,
}
use webtor_rs.Base.Outcome.{Result, ok, err, panics, stuck}
use webtor_rs.Http.Utf8.{from_utf8, trim, before_semicolon, from_str_radix, usize_limit}

-- How many bytes at the front are `\r`, `\n` or a space.
unfoldable pub count_blank : List ℕ → ℕ
count_blank [] = 0
count_blank (b ∷ bytes) =
    if (b == 13) || ((b == 10) || (b == 32)) then suc (count_blank bytes) else 0

-- Where the first `\r\n` stands.
unfoldable pub find_crlf : List ℕ → Option ℕ
find_crlf [] = none
find_crlf (a ∷ []) = none
find_crlf (a ∷ b ∷ bytes) =
    let rest = find_crlf (b ∷ bytes) in
    if (a == 13) && (b == 10) then some 0 else elim rest [ none ↦ none | some k ↦ some (suc k) ]

-- What a size line says.
pub data SizeLine : Type 0 where
  not_utf8 blank invalid : SizeLine
  size : ℕ → SizeLine

abbrev pub parsed : Option ℕ → SizeLine
parsed none = invalid
parsed (some n) = size n

abbrev pub size_str : List ℕ → SizeLine
size_str [] = blank
size_str (c ∷ cs) = parsed (from_str_radix (c ∷ cs))

unfoldable pub size_line : List ℕ → SizeLine
size_line line = elim (from_utf8 line) [
  | none ↦ not_utf8
  | some s ↦ size_str (trim (before_semicolon s))
]

-- What the loop returns where it has no more chunk: what it has, or an error if that is nothing.
abbrev pub partial : List ℕ → String → Result String (List ℕ)
partial result message = if length result == 0 then err message else ok result

-- The index after a chunk that ends at `i`.
unfoldable pub after_chunk : List ℕ → ℕ → ℕ
after_chunk body i =
    if ltb (i + 1) (length body) && ((get_or body i 0 == 13) && (get_or body (i + 1) 0 == 10))
    then i + 2
    else i

-- One round of the loop: it stops with a result, or goes on from an index with more data.
pub data Round : Type 0 where
  stop : Result String (List ℕ) → Round
  go_on : ℕ → List ℕ → Round

-- A chunk of `n` bytes at `i`.
unfoldable pub chunk : List ℕ → ℕ → List ℕ → ℕ → Round
chunk body i result n =
    let end = (i + n) % usize_limit in
    if n == 0
    then stop (ok result)
    else if ltb (length body) end
    then stop (ok (result ++ drop i body))
    else if ltb end i
    then stop panics
    else go_on (after_chunk body (i + n)) (result ++ take n (drop i body))

-- The size line is the `k` bytes at `j`.
unfoldable pub on_line : List ℕ → ℕ → ℕ → List ℕ → Round
on_line body j k result = elim (size_line (take k (drop j body))) [
  | not_utf8 ↦ stop (err "Chunk size line is not valid UTF-8")
  | blank ↦ go_on (j + k + 2) result
  | invalid ↦ stop (partial result "Invalid chunk size")
  | size n ↦ chunk body (j + k + 2) result n
]

-- The round after the blanks, at the index `j`.
unfoldable pub round_at : List ℕ → ℕ → List ℕ → Round
round_at body j result =
    if leb (length body) j then stop (ok result) else elim (find_crlf (drop j body)) [
      | none ↦ stop (partial result "Incomplete chunk size line")
      | some k ↦ on_line body j k result
    ]

unfoldable pub round : List ℕ → ℕ → List ℕ → Round
round body i result = round_at body (i + count_blank (drop i body)) result

unfoldable pub decode_from : ℕ → List ℕ → ℕ → List ℕ → Result String (List ℕ)
decode_from zero body i result = stuck
decode_from (suc fuel) body i result = elim (round body i result) [
  | stop r ↦ r
  | go_on i' result' ↦ decode_from fuel body i' result'
]

-- Each round takes the two bytes of a line's end at least.
unfoldable pub decode_chunked_body : List ℕ → Result String (List ℕ)
decode_chunked_body body = decode_from (suc (length body)) body 0 []

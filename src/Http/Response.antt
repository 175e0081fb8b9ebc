-- ===== src/Http/Response.antt =====
-- `parse_http_response` of webtor/src/http.rs and `HttpResponse`. A text is its code points, and a
-- `usize` has 32 bits. `str::to_lowercase` goes by the tables of Unicode and is a parameter.
use webtor_rs.Base.{
  ℕ, suc, ◌+◌, ◌-◌, ◌*◌, ◌^◌, Bool, true, false, ◌&&◌, List, [], ◌∷◌, Option, none, some, length,
  take, drop, leb, ltb, ◌==◌, eq_bytes, if◌then◌else◌,
}
use webtor_rs.Base.Outcome.{Result, ok, err, panics, stuck, ◌>>=◌}
use webtor_rs.Error.{TorError}
use webtor_rs.Isolation.{Url}
use webtor_rs.Http.Utf8.{from_utf8, trim, usize_limit}
use webtor_rs.Http.Chunked.{decode_chunked_body}

pub record HttpResponse : Type 0 where
  pub status : ℕ
  pub headers : List (List ℕ × List ℕ)
  pub body : List ℕ
  pub url : Url

abbrev pub is_success : HttpResponse → Bool
is_success r = leb 200 r.status && ltb r.status 300

unfoldable pub text : HttpResponse → Result TorError (List ℕ)
text r = elim (from_utf8 r.body) [
  | none ↦ err (TorError.serialization "Invalid UTF-8 in response")
  | some s ↦ ok s
]

-- Whether a slice begins with a needle.
unfoldable pub begins : List ℕ → List ℕ → Bool
begins [] haystack = true
begins (n ∷ needle) [] = false
begins (n ∷ needle) (h ∷ haystack) = (n == h) && begins needle haystack

abbrev pub next_position : Option ℕ → Option ℕ
next_position none = none
next_position (some i) = some (suc i)

-- The first window of the haystack that is the needle, which is not empty.
unfoldable pub find_subsequence : List ℕ → List ℕ → Option ℕ
find_subsequence [] needle = none
find_subsequence (h ∷ haystack) needle =
    let later = find_subsequence haystack needle in
    if begins needle (h ∷ haystack) then some 0 else next_position later

abbrev cons_first : ℕ → List (List ℕ) → List (List ℕ)
cons_first c [] = (c ∷ []) ∷ []
cons_first c (line ∷ lines) = (c ∷ line) ∷ lines

-- `str::lines`: a line ends at a line feed, and a carriage return right before it is not part of
-- the line.
unfoldable pub lines : List ℕ → List (List ℕ)
lines [] = []
lines (c ∷ []) = if c == 10 then [] ∷ [] else (c ∷ []) ∷ []
lines (c ∷ d ∷ cs) =
    let rest = lines (d ∷ cs) in
    let rest' = lines cs in
    if (c == 13) && (d == 10) then [] ∷ rest' else if c == 10 then [] ∷ rest else cons_first c rest

-- `split_once` at a character.
unfoldable pub split_once : ℕ → List ℕ → Option (List ℕ × List ℕ)
split_once mark [] = none
split_once mark (c ∷ cs) =
    let rest = split_once mark cs in
    if c == mark
    then some ([], cs)
    else elim rest [ none ↦ none | some (before, after) ↦ some (c ∷ before, after) ]

-- The second part of `splitn(3, ' ')`, if there are two.
unfoldable pub second_part : List ℕ → Option (List ℕ)
second_part line = elim (split_once 32 line) [
  | none ↦ none
  | some (version, rest) ↦ elim (split_once 32 rest) [
    | none ↦ some rest
    | some (status, reason) ↦ some status
  ]
]

abbrev is_digit : ℕ → Bool
is_digit c = leb 48 c && leb c 57

-- The digits after `n` of a number below `limit`.
unfoldable pub decimal_digits : ℕ → ℕ → List ℕ → Option ℕ
decimal_digits limit n [] = some n
decimal_digits limit n (c ∷ cs) =
    let rest = decimal_digits limit (n * 10 + (c - 48)) cs in
    if is_digit c && ltb (n * 10 + (c - 48)) limit then rest else none

-- `str::parse` of an unsigned number: a sign `+`, then a digit at least.
unfoldable pub parse_decimal : ℕ → List ℕ → Option ℕ
parse_decimal limit [] = none
parse_decimal limit (c ∷ []) = decimal_digits limit 0 (c ∷ [])
parse_decimal limit (c ∷ d ∷ cs) =
    if c == 43 then decimal_digits limit 0 (d ∷ cs) else decimal_digits limit 0 (c ∷ d ∷ cs)

module _ {V : Type 0} where
  -- `HashMap::insert` and `get`.
  unfoldable pub insert : List ℕ → V → List (List ℕ × V) → List (List ℕ × V)
  insert k v [] = (k, v) ∷ []
  insert k v ((j, w) ∷ m) = if eq_bytes j k then (k, v) ∷ m else (j, w) ∷ insert k v m

  unfoldable pub lookup : List ℕ → List (List ℕ × V) → Option V
  lookup k [] = none
  lookup k ((j, v) ∷ m) = if eq_bytes j k then some v else lookup k m

-- "transfer-encoding", "content-length" and "chunked"
abbrev pub transfer_encoding : List ℕ
transfer_encoding =
    116 ∷ 114 ∷ 97 ∷ 110 ∷ 115 ∷ 102 ∷ 101 ∷ 114 ∷ 45 ∷ 101 ∷ 110 ∷ 99 ∷ 111 ∷ 100 ∷ 105 ∷ 110 ∷ 103
    ∷ []

abbrev pub content_length : List ℕ
content_length =
    99 ∷ 111 ∷ 110 ∷ 116 ∷ 101 ∷ 110 ∷ 116 ∷ 45 ∷ 108 ∷ 101 ∷ 110 ∷ 103 ∷ 116 ∷ 104 ∷ []

abbrev pub chunked : List ℕ
chunked = 99 ∷ 104 ∷ 117 ∷ 110 ∷ 107 ∷ 101 ∷ 100 ∷ []

-- `str::to_ascii_lowercase`
unfoldable pub to_ascii_lowercase : List ℕ → List ℕ
to_ascii_lowercase [] = []
to_ascii_lowercase (c ∷ cs) = (if leb 65 c && leb c 90 then c + 32 else c) ∷ to_ascii_lowercase cs

abbrev found : Option ℕ → Bool
found none = false
found (some i) = true

-- `headers.get("transfer-encoding")` and the test of its value.
unfoldable pub is_chunked : List (List ℕ × List ℕ) → Bool
is_chunked headers = elim (lookup transfer_encoding headers) [
  | none ↦ false
  | some te ↦ found (find_subsequence (to_ascii_lowercase te) chunked)
]

-- The body up to its Content-Length, if there is one that is a number.
unfoldable pub truncated : List (List ℕ × List ℕ) → List ℕ → List ℕ
truncated headers body = elim (lookup content_length headers) [
  | none ↦ body
  | some cl ↦ elim (parse_decimal usize_limit cl) [
    | none ↦ body
    | some len ↦ if ltb len (length body) then take len body else body
  ]
]

abbrev pub chunk_error : {A : Type 0} {E : Type 0} → Result E A → Result TorError A
chunk_error (ok a) = ok a
chunk_error (err e) = err (TorError.http_request "Failed to decode chunked body")
chunk_error panics = panics
chunk_error stuck = stuck

unfoldable pub decoded_body : List (List ℕ × List ℕ) → List ℕ → Result TorError (List ℕ)
decoded_body headers body =
    if is_chunked headers
    then chunk_error (decode_chunked_body body)
    else ok (truncated headers body)

abbrev pub or_error : {A : Type 0} → Option A → TorError → Result TorError A
or_error none e = err e
or_error (some a) e = ok a

module _ (to_lowercase : List ℕ → List ℕ) where
  -- The loop over the header lines; a line with no colon is left out.
  unfoldable pub parse_headers : List (List ℕ) → List (List ℕ × List ℕ) → List (List ℕ × List ℕ)
  parse_headers [] headers = headers
  parse_headers (line ∷ lines) headers = parse_headers lines (elim (split_once 58 line) [
    | none ↦ headers
    | some (key, value) ↦ insert (to_lowercase (trim key)) (trim value) headers
  ])

  -- The response from its lines and its body.
  unfoldable pub parse_lines : Url → List (List ℕ) → List ℕ → Result TorError HttpResponse
  parse_lines url [] body = err (TorError.http_request "Invalid HTTP response: no status line")
  parse_lines url (status_line ∷ lines) body =
      or_error (second_part status_line) (TorError.http_request "Invalid HTTP status line")
      >>= λ part.
          or_error (parse_decimal (2 ^ 16) part) (TorError.http_request "Invalid status code")
          >>= λ status.
              let headers = parse_headers lines [] in
              decoded_body headers body >>= λ decoded.
              ok (record { status = status; headers = headers; body = decoded; url = url })

  unfoldable pub parse_http_response : Url → List ℕ → Result TorError HttpResponse
  parse_http_response url bytes =
      or_error (find_subsequence bytes (13 ∷ 10 ∷ 13 ∷ 10 ∷ []))
        (TorError.http_request "Invalid HTTP response: no header separator")
      >>= λ header_end.
          or_error (from_utf8 (take header_end bytes))
            (TorError.http_request "Invalid HTTP headers")
          >>= λ header_str. parse_lines url (lines header_str) (drop (header_end + 4) bytes)

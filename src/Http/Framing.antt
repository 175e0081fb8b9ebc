-- ===== src/Http/Framing.antt =====
-- What `parse_http_response` of webtor/src/http.rs makes of a response as servers send it, and of any
-- bytes.
use webtor_rs.Base.{
  ℕ, ◌≤◌, ◌≡◌, refl, List, ◌∷◌, ◌++◌, All, length, drop, drop_past, take-length-append,
}
use webtor_rs.Base.Outcome.{Result, ok, err, panics, stuck}
use webtor_rs.Error.{TorError}
use webtor_rs.Isolation.{Url}
use webtor_rs.Http.Total.{Overflows}
use webtor_rs.Http.Response.{HttpResponse, parse_lines, parse_http_response}
use webtor_rs.Http.Lines.{
  joined, IsLine, separator, find_subsequence-joined, ascii-from_utf8, lines-joined, joined_ascii,
}

-- The bytes of a response: its lines, an empty line and its body.
unfoldable pub message : List ℕ → List (List ℕ) → List ℕ → List ℕ
message line more body = joined line more ++ (separator ++ body)

drop-separator : (body : List ℕ) → drop 4 (separator ++ body) ≡ body
unfolding separator
drop-separator body = refl

-- A response whose lines are of ASCII characters and not empty, as servers send it, is taken apart at
-- the empty line and at the line ends, wherever in the body the same bytes stand: what is parsed is
-- exactly the lines and the body that were sent.
pub parse_http_response-message :
    (to_lowercase : List ℕ → List ℕ) (url : Url) (line : List ℕ) (more : List (List ℕ))
    (body : List ℕ)
    → IsLine line
    → All IsLine more
    → parse_http_response to_lowercase url (message line more body)
      ≡ parse_lines to_lowercase url (line ∷ more) body
unfolding parse_http_response message separator
parse_http_response-message to_lowercase url line more body l h =
    let head = joined line more in
    let end_ = find_subsequence-joined line more body l h in
    rw
      (
        end_,
        take-length-append head (separator ++ body),
        ascii-from_utf8 head (joined_ascii line more l h),
        lines-joined line more l h,
        drop_past head (separator ++ body) 4,
      )
      refl

-- A parse that ends; what it returns has a body no longer than the bytes. It panics only where the size
-- of a chunk overflows.
abbrev pub IsParsed : List ℕ → Result TorError HttpResponse → Type 0
IsParsed bytes (ok r) = length r.body ≤ length bytes
IsParsed bytes (err e) = Unit {0}
IsParsed bytes panics = Overflows bytes
IsParsed bytes stuck = ⊥

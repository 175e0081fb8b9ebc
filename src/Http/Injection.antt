-- ===== src/Http/Injection.antt =====
-- What `build_request` of webtor/src/http.rs makes of a header's value that holds a line end.
use Prim.Native.String.{◌++◌ as ◌<>◌}
use text.Mathlib.Text.{◌==◌ as str_eq}
use text.Mathlib.TextLemmas as TextLemmas
use webtor_rs.Base.{◌≡◌, refl, false, List, ◌∷◌, String}
use webtor_rs.Http.Request.{
  HttpRequest, contains_key, crlf, header_lines, request_head, build_request,
}

-- A header that the defaults do not ask for.
abbrev pub IsOrdinary : String → Type 0
IsOrdinary key =
    (str_eq key "User-Agent" ≡ false)
    × (str_eq key "user-agent" ≡ false)
    × (str_eq key "Accept" ≡ false)
    × (str_eq key "accept" ≡ false)
    × (str_eq key "Connection" ≡ false)
    × (str_eq key "connection" ≡ false)

header_lines-injected :
    (key value key' value' : String) (headers : List (String × String))
    → header_lines ((key, value <> (crlf <> (key' <> (": " <> value')))) ∷ headers)
      ≡ header_lines ((key, value) ∷ (key', value') ∷ headers)
unfolding header_lines
header_lines-injected key value key' value' headers = simp TextLemmas.append_assoc

-- A header whose value holds `\r\n` and another header is sent as the two headers, for any other
-- header than those that have a default: neither `with_header` nor `build_request` looks at a value.
pub build_request-injected :
    (r : HttpRequest) (host key value key' value' : String) (headers : List (String × String))
    → IsOrdinary key'
    → build_request
        (record r { headers = (key, value <> (crlf <> (key' <> (": " <> value')))) ∷ headers })
        host
      ≡ build_request (record r { headers = (key, value) ∷ (key', value') ∷ headers }) host
unfolding build_request request_head contains_key
build_request-injected r host key value key' value' headers (a, b, c, d, e, f) =
    rw (a, b, c, d, e, f, header_lines-injected key value key' value' headers) refl

-- ===== src/Http/Request.antt =====
-- `HttpRequest` of webtor/src/http.rs. A text is a native string, and its bytes are UTF-8. The
-- headers stand in the order in which the map hands them out.
use Prim.Native.Char.{code}
use Prim.Native.String.{◌++◌ as ◌<>◌}
use text.Mathlib.Text.{◌==◌ as str_eq}
use webtor_rs.Base.{
  ℕ, ◌+◌, ◌/◌, ◌%◌, Bool, false, not, ◌&&◌, ◌||◌, List, [], ◌∷◌, ◌++◌, Option, none, some, String,
  length, ltb, if◌then◌else◌,
}
use webtor_rs.Isolation.{Url, digits}

pub record HttpRequest : Type 0 where
  pub url : Url
  pub method : String
  pub headers : List (String × String)
  pub body : Option (List ℕ)
  pub timeout : ℕ

-- The timeout is in seconds.
abbrev pub new : Url → HttpRequest
new url = record { url = url; method = "GET"; headers = []; body = none; timeout = 30 }

abbrev pub with_method : String → HttpRequest → HttpRequest
with_method method r = record r { method = method }

unfoldable pub insert : String → String → List (String × String) → List (String × String)
insert k v [] = (k, v) ∷ []
insert k v ((j, w) ∷ m) = if str_eq j k then (k, v) ∷ m else (j, w) ∷ insert k v m

abbrev pub with_header : String → String → HttpRequest → HttpRequest
with_header k v r = record r { headers = insert k v r.headers }

abbrev pub with_body : List ℕ → HttpRequest → HttpRequest
with_body body r = record r { body = some body }

abbrev pub with_timeout : ℕ → HttpRequest → HttpRequest
with_timeout timeout r = record r { timeout = timeout }

-- The UTF-8 bytes of a character and of a text.
unfoldable pub char_bytes : ℕ → List ℕ
char_bytes c =
    if ltb c 0x80
    then c ∷ []
    else if ltb c 0x800
    then (0xc0 + c / 64) ∷ (0x80 + c % 64) ∷ []
    else if ltb c 0x10000
    then (0xe0 + c / 4096) ∷ (0x80 + c / 64 % 64) ∷ (0x80 + c % 64) ∷ []
    else (0xf0 + c / 262144) ∷ (0x80 + c / 4096 % 64) ∷ (0x80 + c / 64 % 64) ∷ (0x80 + c % 64) ∷ []

unfoldable pub into_bytes : String → List ℕ
into_bytes String.[] = []
into_bytes (String.◌∷◌ c s) = char_bytes (code c) ++ into_bytes s

unfoldable pub contains_key : String → List (String × String) → Bool
contains_key k [] = false
contains_key k ((j, v) ∷ m) = str_eq j k || contains_key k m

abbrev pub crlf : String
crlf = "\r\n"

-- A default header, where neither of two spellings is there.
abbrev pub default_header : String → String → String → List (String × String) → String
default_header name lower line headers =
    if not (contains_key name headers) && not (contains_key lower headers) then line else ""

unfoldable pub header_lines : List (String × String) → String
header_lines [] = ""
header_lines ((key, value) ∷ headers) = key <> (": " <> (value <> (crlf <> header_lines headers)))

abbrev pub path_of : Url → String
path_of url = if str_eq url.path "" then "/" else url.path

abbrev pub query_of : Url → String
query_of url = elim url.query [ none ↦ "" | some q ↦ "?" <> q ]

abbrev pub length_line : Option (List ℕ) → String
length_line none = ""
length_line (some body) = "Content-Length: " <> (digits 20 (length body) <> crlf)

abbrev pub body_bytes : Option (List ℕ) → List ℕ
body_bytes none = []
body_bytes (some body) = body

-- The text before the headers that the caller set.
unfoldable pub request_head : HttpRequest → String → String
request_head r host =
    r.method
    <> (" "
        <> (path_of r.url
            <> (query_of r.url
                <> (" HTTP/1.1\r\nHost: "
                    <> (host
                        <> (crlf
                            <> (default_header "User-Agent" "user-agent"
                                  "User-Agent: webtor-rs/0.1.0\r\n" r.headers
                                <> (default_header "Accept" "accept" "Accept: */*\r\n" r.headers
                                    <> default_header "Connection" "connection"
                                        "Connection: close\r\n" r.headers))))))))

unfoldable pub build_request : HttpRequest → String → List ℕ
build_request r host =
    into_bytes (request_head r host <> (header_lines r.headers <> (length_line r.body <> crlf)))
    ++ body_bytes r.body

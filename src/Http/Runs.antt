-- ===== src/Http/Runs.antt =====
-- Concrete runs of webtor/src/http.rs, and the theorems at concrete inputs.
use webtor_rs.Base.{ℕ, ◌^◌, ◌-◌, ◌≡◌, refl, arith, false, List, [], ◌∷◌, some, take}
use webtor_rs.Base.Outcome.{ok, panics}
use webtor_rs.Http.Utf8.{from_utf8, before_semicolon, trim, trim_start, from_str_radix, hex_digits}
use webtor_rs.Http.Chunked.{
  count_blank, find_crlf, size, size_line, round, round_at, on_line, chunk, after_chunk,
  decode_from, decode_chunked_body,
}
use webtor_rs.Http.Overflow.{decode_chunked_body-overflow}
use mathlib.Core.List.{flatten}
use webtor_rs.Base.{ℕ, inl, none, length-take}
use webtor_rs.Base.Outcome.{pending}
use webtor_rs.Transport.{Transport, done, more}
use webtor_rs.Transport.Script.{Script, script}
use webtor_rs.Isolation.{Url, Hosts, per_subdomain, host_of, from_url}
use webtor_rs.Circuit.Toy.{network, draw, manager, two}
use webtor_rs.Circuit.Serve.{get_circuit_for_isolation_key, circuit_for_key, bind_or_create}
use webtor_rs.Circuit.Table.{find_index, get_elem?, update_at, set_isolation_key}
use webtor_rs.Http.Execute.{execute_http_request, read_response, on_read}
use webtor_rs.Http.Ended.{
  Answers, IsResponse, execute_http_request-IsResponse, execute_http_request-whole,
}
use webtor_rs.Http.Response.{
  HttpResponse, begins, find_subsequence, lines, split_once, second_part, decimal_digits,
  parse_decimal, insert, lookup, is_chunked, truncated, decoded_body, parse_headers, parse_lines,
  parse_http_response,
}
use webtor_rs.Http.Lines.{joined, separator}
use webtor_rs.Http.Framing.{message, parse_http_response-message}
use webtor_rs.Http.Request
use webtor_rs.Http.Request.{
  HttpRequest, build_request, into_bytes, char_bytes, header_lines, request_head, contains_key,
  crlf,
}
use webtor_rs.Http.Client.{
  Streams, begin_stream, exchange, over_circuit, respond, request_to, request,
}
use webtor_rs.Http.Bound.{IsBound, request-IsBound}

-- "2;a\r\nHi\r\n0\r\n\r\n"
abbrev hi_body : List ℕ
hi_body = 50 ∷ 59 ∷ 97 ∷ 13 ∷ 10 ∷ 72 ∷ 105 ∷ 13 ∷ 10 ∷ 48 ∷ 13 ∷ 10 ∷ 13 ∷ 10 ∷ []

decode_hi : decode_chunked_body hi_body ≡ ok (72 ∷ 105 ∷ [])
unfolding decode_chunked_body decode_from round round_at on_line chunk after_chunk count_blank
    find_crlf size_line from_utf8 before_semicolon trim trim_start from_str_radix hex_digits
decode_hi = refl

-- "ffffffff\r\n"
abbrev huge_body : List ℕ
huge_body = 102 ∷ 102 ∷ 102 ∷ 102 ∷ 102 ∷ 102 ∷ 102 ∷ 102 ∷ 13 ∷ 10 ∷ []

huge_line : size_line (take 8 huge_body) ≡ size (2 ^ 32 - 1)
unfolding size_line from_utf8 before_semicolon trim trim_start from_str_radix hex_digits
huge_line = refl

huge_blank : count_blank huge_body ≡ 0
unfolding count_blank
huge_blank = refl

huge_crlf : find_crlf huge_body ≡ some 8
unfolding find_crlf
huge_crlf = refl

decode_chunked_body-overflow_example : decode_chunked_body huge_body ≡ panics
decode_chunked_body-overflow_example =
    decode_chunked_body-overflow huge_body 8 (2 ^ 32 - 1) (omega arith) huge_blank huge_crlf
      huge_line (omega arith)

-- A server that sends without end.
abbrev endless : Transport (Unit {0})
endless = record {
  poll_read = λ n s. (pending, s);
  poll_write = λ bytes s. (pending, s);
  poll_flush = λ s. (pending, s);
  poll_close = λ s. (pending, s);
  read = λ n s. (ok (take n (65 ∷ [])), s);
  read_exact = λ n s. (ok [], s);
  write_all = λ bytes s. (ok tt, s);
  flush = λ s. (ok tt, s);
}

endless-Answers : Answers endless.read
endless-Answers n s = inl (take n (65 ∷ []), refl, omega (arith, length-take {A = ℕ} n (65 ∷ [])))

execute_http_request-IsResponse_example :
    IsResponse (execute_http_request endless 1048577 (71 ∷ []) tt).0
execute_http_request-IsResponse_example =
    execute_http_request-IsResponse endless 1048577 (71 ∷ []) tt endless-Answers
      (λ bytes s. (λ e. cc, λ e. cc)) (λ s. (λ e. cc, λ e. cc)) (omega arith)

-- "HTTP/1.1 200 OK", "A: b" and the body "Hi", in two chunks.
abbrev ok_line : List ℕ
ok_line = 72 ∷ 84 ∷ 84 ∷ 80 ∷ 47 ∷ 49 ∷ 46 ∷ 49 ∷ 32 ∷ 50 ∷ 48 ∷ 48 ∷ 32 ∷ 79 ∷ 75 ∷ []

abbrev a_line : List ℕ
a_line = 65 ∷ 58 ∷ 32 ∷ 98 ∷ []

abbrev hi : List ℕ
hi = 72 ∷ 105 ∷ []

abbrev sent : Script
sent = record { incoming = ok_line ∷ hi ∷ []; log = [] }

execute_http_request-whole_example :
    execute_http_request script 3 (71 ∷ []) sent
    ≡ (ok (flatten (ok_line ∷ hi ∷ [])), record { incoming = []; log = 71 ∷ [] })
unfolding flatten
execute_http_request-whole_example =
    execute_http_request-whole script 3 (71 ∷ []) sent (record sent { log = 71 ∷ [] })
      (record sent { log = 71 ∷ [] }) (record { incoming = []; log = 71 ∷ [] })
      (record { incoming = []; log = 71 ∷ [] }) (ok_line ∷ hi ∷ []) refl refl
      (more refl (λ e. cc) (more refl (λ e. cc) done)) refl (omega arith) (omega arith)

abbrev ascii_lowercase : List ℕ → List ℕ
ascii_lowercase cs = cs

abbrev site : Url
site = record {
  scheme = "http";
  host_str = some "example.com";
  port_or_known_default = some 80;
  path = "/";
  query = none;
}

parse_http_response-message_example :
    parse_http_response ascii_lowercase site (message ok_line (a_line ∷ []) hi)
    ≡ parse_lines ascii_lowercase site (ok_line ∷ a_line ∷ []) hi
parse_http_response-message_example =
    parse_http_response-message ascii_lowercase site ok_line (a_line ∷ []) hi (λ e. cc, omega arith)
      ((λ e. cc, omega arith), tt)

abbrev hi_response : HttpResponse
hi_response = record { status = 200; headers = (65 ∷ [], 98 ∷ []) ∷ []; body = hi; url = site }

parse_hi :
    parse_http_response ascii_lowercase site (message ok_line (a_line ∷ []) hi) ≡ ok hi_response
unfolding parse_http_response message joined separator find_subsequence begins from_utf8 lines
    parse_lines second_part split_once parse_decimal decimal_digits parse_headers insert lookup
    is_chunked truncated decoded_body trim trim_start
parse_hi = refl

crlf_bytes : into_bytes crlf ≡ 13 ∷ 10 ∷ []
unfolding into_bytes char_bytes
crlf_bytes = refl

-- A stream on which the response stands.
abbrev streams : Streams (Unit {0}) Script Script
streams = record {
  stream = script;
  tls_stream = script;
  begin_stream = λ tunnel host port.
      some (record { incoming = message ok_line (a_line ∷ []) hi ∷ []; log = [] });
  wrap_with_tls = λ s host. ok s;
}

abbrev hosts : Hosts
hosts = record {
  is_ip_addr = λ host. false;
  in_brackets = λ host. false;
  psl_domain = λ host. some host;
}

site_key : from_url hosts site per_subdomain ≡ some "example.com"
unfolding from_url host_of
site_key = refl

request_served :
    request network streams hosts ascii_lowercase draw 9 9 per_subdomain 3
      (Request.new site)
      (manager two)
    ≡ (
      ok hi_response,
      (request network streams hosts ascii_lowercase draw 9 9 per_subdomain 3
          (Request.new site)
          (manager two)).1,
    )
unfolding request request_to respond from_url host_of get_circuit_for_isolation_key circuit_for_key
    bind_or_create find_index get_elem? update_at set_isolation_key over_circuit begin_stream
    exchange execute_http_request read_response on_read parse_http_response message joined separator
    find_subsequence begins from_utf8 lines parse_lines second_part split_once parse_decimal
    decimal_digits parse_headers insert lookup is_chunked truncated decoded_body trim trim_start
request_served = refl

request-IsBound_example :
    IsBound network streams hosts ascii_lowercase draw 9 9 "example.com" 3
      (Request.new site)
      (manager two)
      hi_response
request-IsBound_example =
    request-IsBound network streams hosts ascii_lowercase draw 9 9 per_subdomain 3
      (Request.new site) "example.com" (manager two)
      (request network streams hosts ascii_lowercase draw 9 9 per_subdomain 3 (Request.new site)
        (manager two)).1
      hi_response site_key request_served

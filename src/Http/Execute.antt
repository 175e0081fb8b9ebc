-- ===== src/Http/Execute.antt =====
-- `execute_http_request` and `execute_http_request_wasm` of webtor/src/http.rs. The loop over the
-- stream's reads runs on fuel; its two copies differ in nothing but the names of the calls.
use webtor_rs.Base.{
  ℕ, zero, suc, ◌*◌, List, [], ◌∷◌, ◌++◌, length, ltb, ◌==◌, if◌then◌else◌, String,
}
use webtor_rs.Base.Outcome.{Result, ok, err, panics, stuck}
use webtor_rs.Base.Action.{Action}
use webtor_rs.Transport.{Transport}
use webtor_rs.Error.{IoError, TorError}

-- `WasmTlsStream`
pub record WasmTlsStream (S : Type 0) : Type 0 where
  pub tls_write : List ℕ → Action S IoError ℕ
  pub tls_flush : Action S IoError (Unit {0})
  pub tls_read : ℕ → Action S IoError (List ℕ)

abbrev pub buffer_size : ℕ
buffer_size = 8192

-- The bytes after which the response is cut.
abbrev pub response_limit : ℕ
response_limit = 1024 * 1024

-- What the loop returns where a read fails.
unfoldable pub after_error : List ℕ → Result TorError (List ℕ)
after_error response =
    if length response == 0
    then err (TorError.http_request "Failed to read response")
    else ok response

module _ {S : Type 0} (read : ℕ → Action S IoError (List ℕ)) where
  -- The answer of one read, and the loop from there; an empty one is the end.
  unfoldable pub on_read :
      (List ℕ → Action S TorError (List ℕ))
      → List ℕ
      → Result IoError (List ℕ)
      → Action S TorError (List ℕ)
  on_read loop response (ok []) s = (ok response, s)
  on_read loop response (ok (b ∷ bytes)) s =
      let total = response ++ b ∷ bytes in
      if ltb response_limit (length total) then (ok total, s) else loop total s
  on_read loop response (err e) s = (after_error response, s)
  on_read loop response panics s = (panics, s)
  on_read loop response stuck s = (stuck, s)

  unfoldable pub read_response : ℕ → List ℕ → Action S TorError (List ℕ)
  read_response zero response s = (stuck, s)
  read_response (suc fuel) response s =
      let (r, s') = read buffer_size s in on_read (read_response fuel) response r s'

-- A call that has returned, and what follows it.
abbrev pub and_then :
    {A B S : Type 0} → Result IoError A × S → String → Action S TorError B → Result TorError B × S
and_then (ok a, s) e k = k s
and_then (err x, s) e k = (err (TorError.http_request e), s)
and_then (panics, s) e k = (panics, s)
and_then (stuck, s) e k = (stuck, s)

unfoldable pub execute_http_request :
    {S : Type 0} → Transport S → ℕ → List ℕ → Action S TorError (List ℕ)
execute_http_request t fuel request_bytes s =
    and_then (t.write_all request_bytes s) "Failed to write request"
      (λ s'. and_then (t.flush s') "Failed to flush request" (read_response t.read fuel []))

-- The count that `tls_write` returns is not looked at.
unfoldable pub execute_http_request_wasm :
    {S : Type 0} → WasmTlsStream S → ℕ → List ℕ → Action S TorError (List ℕ)
execute_http_request_wasm t fuel request_bytes s =
    and_then (t.tls_write request_bytes s) "Failed to write request"
      (λ s'. and_then (t.tls_flush s') "Failed to flush request" (read_response t.tls_read fuel []))

-- ===== src/Http/Client.antt =====
-- `TorHttpClient::request` of webtor/src/http.rs in a native build, and `Circuit::begin_stream` of
-- webtor/src/circuit.rs. The request holds the lock of the circuit manager's table for reading, and
-- the circuit that it is given is the one at the position returned.
use text.Mathlib.Text.{◌==◌ as str_eq}
use webtor_rs.Base.{ℕ, Bool, List, Option, String, if◌then◌else◌}
use webtor_rs.Base.Outcome.{Result, ◌>>=◌}
use webtor_rs.Base.Action.{Action, given}
use webtor_rs.Error.{TorError}
use webtor_rs.Transport.{Transport}
use webtor_rs.Relay.Target.{TargetApi}
use webtor_rs.Isolation.{StreamIsolationPolicy, Hosts, from_url}
use webtor_rs.Circuit.Table.{Circuit, get_elem?}
use webtor_rs.Circuit.Create.{Network, Draw, Manager, or_internal}
use webtor_rs.Circuit.Serve.{get_circuit_for_isolation_key}
use webtor_rs.Circuit.Status.{maybe_prebuild_circuit}
use webtor_rs.Http.Execute.{execute_http_request}
use webtor_rs.Http.Response.{HttpResponse, parse_http_response, or_error}
use webtor_rs.Http.Request.{HttpRequest, build_request}

-- The streams of a tunnel of the Tor crates, and rustls over one: `T`, `S` and `R` are a tunnel, a
-- stream and a TLS stream.
pub record Streams (T S R : Type 0) : Type 0 where
  pub stream : Transport S
  pub tls_stream : Transport R
  pub begin_stream : T → String → ℕ → Option S
  pub wrap_with_tls : S → String → Result TorError R

-- `max_circuits` and the age of 80 seconds, in the nanoseconds of an `Instant`.
abbrev pub max_circuits : ℕ
max_circuits = 5

abbrev pub circuit_prebuild_age_threshold : ℕ
circuit_prebuild_age_threshold = 80000000000

unfoldable pub begin_stream :
    {T S R : Type 0} → Streams T S R → Circuit T → String → ℕ → Result TorError S
begin_stream streams c host port =
    or_internal c.internal_circuit "No internal circuit available" >>= λ tunnel.
    or_internal (streams.begin_stream tunnel host port) "Failed to begin stream"

-- The bytes of the response, with TLS or without.
unfoldable pub exchange :
    {T S R : Type 0} → Streams T S R → ℕ → Bool → S → String → List ℕ → Result TorError (List ℕ)
exchange streams fuel is_https s host request_bytes =
    if is_https
    then (streams.wrap_with_tls s host >>= λ tls.
        (execute_http_request streams.tls_stream fuel request_bytes tls).0)
    else (execute_http_request streams.stream fuel request_bytes s).0

module _ {api : TargetApi} (network : Network api) {S R : Type 0}
    (streams : Streams network.Tunnel S R) (hosts : Hosts) (to_lowercase : List ℕ → List ℕ) where
  -- The request over a circuit that was found.
  unfoldable pub over_circuit :
      ℕ → HttpRequest → String → ℕ → Circuit network.Tunnel → Result TorError (List ℕ)
  over_circuit fuel request_ host port c = begin_stream streams c host port >>= λ s.
      exchange streams fuel (str_eq request_.url.scheme "https") s host
        (build_request request_ host)

  module _ (draw : Draw) (now later : ℕ) (policy : StreamIsolationPolicy) where
    -- The end of a request: the response is parsed, and a circuit may be built for later ones.
    unfoldable pub respond :
        HttpRequest → List ℕ → Action (Manager network draw) TorError HttpResponse
    respond request_ response_bytes m = (
      parse_http_response to_lowercase request_.url response_bytes,
      (maybe_prebuild_circuit later max_circuits circuit_prebuild_age_threshold m).1,
    )

    -- The request to a host and a port; the position is that of a circuit in the table.
    unfoldable pub request_to :
        ℕ → HttpRequest → String → ℕ → Action (Manager network draw) TorError HttpResponse
    request_to fuel request_ host port m =
        let (r, m') =
          get_circuit_for_isolation_key network draw now (from_url hosts request_.url policy) m in
        given r m' (λ i. given (or_internal (get_elem? m'.circuits i) "") m' (λ c.
          given (over_circuit fuel request_ host port c) m'
            (λ response_bytes. respond request_ response_bytes m')))

    unfoldable pub request : ℕ → HttpRequest → Action (Manager network draw) TorError HttpResponse
    request fuel request_ m =
        given (or_error request_.url.host_str (TorError.http_request "Invalid URL: no host")) m
          (λ host.
            given
              (or_error request_.url.port_or_known_default
                (TorError.http_request "Invalid URL: no port"))
              m (λ port. request_to fuel request_ host port m))

-- ===== src/Error.antt =====
-- webtor/src/error.rs: the error type of the library and its classification.
-- A message is the literal text of the source; what `format!` puts into it is left out.
mod Runs
use webtor_rs.Base.{Bool, true, false, ◌||◌, String, ◌≡◌, refl}

-- `std::io::ErrorKind`, as far as the sources name it.
pub data IoErrorKind : Type 0 where
  invalid_data write_zero unexpected_eof not_connected connection_reset other : IoErrorKind

pub record IoError : Type 0 where
  pub kind : IoErrorKind
  pub message : String

pub data TorErrorKind : Type 0 where
  network timeout bootstrap circuit configuration environment protocol internal cancelled :
      TorErrorKind

pub data TorError : Type 0 where
  websocket_connection websocket tor_protocol circuit_creation circuit_extension : String → TorError
  relay_selection consensus_fetch http_request tls_setup timeout configuration : String → TorError
  network protocol wasm serialization : String → TorError
  io : IoError → TorError
  url_parse json internal net_doc : String → TorError
  cancelled : TorError

unfoldable pub kind : TorError → TorErrorKind
kind (TorError.websocket_connection m) = TorErrorKind.network
kind (TorError.websocket m) = TorErrorKind.network
kind (TorError.network m) = TorErrorKind.network
kind (TorError.timeout m) = TorErrorKind.timeout
kind (TorError.circuit_creation m) = TorErrorKind.circuit
kind (TorError.circuit_extension m) = TorErrorKind.circuit
kind (TorError.relay_selection m) = TorErrorKind.circuit
kind (TorError.consensus_fetch m) = TorErrorKind.bootstrap
kind (TorError.tor_protocol m) = TorErrorKind.protocol
kind (TorError.tls_setup m) = TorErrorKind.protocol
kind (TorError.protocol m) = TorErrorKind.protocol
kind (TorError.http_request m) = TorErrorKind.network
kind (TorError.configuration m) = TorErrorKind.configuration
kind (TorError.wasm m) = TorErrorKind.environment
kind (TorError.serialization m) = TorErrorKind.internal
kind (TorError.io e) = TorErrorKind.network
kind (TorError.url_parse m) = TorErrorKind.configuration
kind (TorError.json m) = TorErrorKind.internal
kind (TorError.internal m) = TorErrorKind.internal
kind (TorError.net_doc m) = TorErrorKind.bootstrap
kind TorError.cancelled = TorErrorKind.cancelled

unfoldable pub is_retryable : TorError → Bool
is_retryable (TorError.websocket_connection m) = true
is_retryable (TorError.websocket m) = true
is_retryable (TorError.network m) = true
is_retryable (TorError.io e) = true
is_retryable (TorError.timeout m) = true
is_retryable (TorError.circuit_creation m) = true
is_retryable (TorError.circuit_extension m) = true
is_retryable (TorError.http_request m) = true
is_retryable (TorError.consensus_fetch m) = true
is_retryable (TorError.relay_selection m) = true
is_retryable (TorError.tor_protocol m) = false
is_retryable (TorError.tls_setup m) = false
is_retryable (TorError.protocol m) = false
is_retryable (TorError.configuration m) = false
is_retryable (TorError.url_parse m) = false
is_retryable (TorError.wasm m) = false
is_retryable (TorError.serialization m) = false
is_retryable (TorError.json m) = false
is_retryable (TorError.internal m) = false
is_retryable (TorError.net_doc m) = false
is_retryable TorError.cancelled = false

unfoldable pub as_code : TorErrorKind → String
as_code TorErrorKind.network = "NETWORK"
as_code TorErrorKind.timeout = "TIMEOUT"
as_code TorErrorKind.bootstrap = "BOOTSTRAP"
as_code TorErrorKind.circuit = "CIRCUIT"
as_code TorErrorKind.configuration = "CONFIGURATION"
as_code TorErrorKind.environment = "ENVIRONMENT"
as_code TorErrorKind.protocol = "PROTOCOL"
as_code TorErrorKind.internal = "INTERNAL"
as_code TorErrorKind.cancelled = "CANCELLED"

unfoldable pub code : TorError → String
code (TorError.websocket_connection m) = "WEBSOCKET_CONNECTION"
code (TorError.websocket m) = "WEBSOCKET"
code (TorError.tor_protocol m) = "TOR_PROTOCOL"
code (TorError.circuit_creation m) = "CIRCUIT_CREATION"
code (TorError.circuit_extension m) = "CIRCUIT_EXTENSION"
code (TorError.relay_selection m) = "RELAY_SELECTION"
code (TorError.consensus_fetch m) = "CONSENSUS_FETCH"
code (TorError.http_request m) = "HTTP_REQUEST"
code (TorError.tls_setup m) = "TLS_SETUP"
code (TorError.timeout m) = "TIMEOUT"
code (TorError.configuration m) = "CONFIGURATION"
code (TorError.network m) = "NETWORK"
code (TorError.protocol m) = "PROTOCOL"
code (TorError.wasm m) = "WASM_ENVIRONMENT"
code (TorError.serialization m) = "SERIALIZATION"
code (TorError.io e) = "IO"
code (TorError.url_parse m) = "URL_PARSE"
code (TorError.json m) = "JSON"
code (TorError.internal m) = "INTERNAL"
code (TorError.net_doc m) = "NETDOC"
code TorError.cancelled = "CANCELLED"

-- The kinds of failure that passing conditions of the network cause.
abbrev pub is_transient : TorErrorKind → Bool
is_transient TorErrorKind.network = true
is_transient TorErrorKind.timeout = true
is_transient TorErrorKind.circuit = true
is_transient _ = false

abbrev pub is_consensus_fetch : TorError → Bool
is_consensus_fetch (TorError.consensus_fetch m) = true
is_consensus_fetch _ = false

-- An error is retryable exactly if its kind is network, timeout or circuit, or if it is a failed
-- fetch of the consensus.
pub is_retryable-kind :
    (e : TorError) → is_retryable e ≡ (is_transient (kind e) || is_consensus_fetch e)
unfolding is_retryable kind
is_retryable-kind (TorError.websocket_connection m) = refl
is_retryable-kind (TorError.websocket m) = refl
is_retryable-kind (TorError.network m) = refl
is_retryable-kind (TorError.io e) = refl
is_retryable-kind (TorError.timeout m) = refl
is_retryable-kind (TorError.circuit_creation m) = refl
is_retryable-kind (TorError.circuit_extension m) = refl
is_retryable-kind (TorError.http_request m) = refl
is_retryable-kind (TorError.consensus_fetch m) = refl
is_retryable-kind (TorError.relay_selection m) = refl
is_retryable-kind (TorError.tor_protocol m) = refl
is_retryable-kind (TorError.tls_setup m) = refl
is_retryable-kind (TorError.protocol m) = refl
is_retryable-kind (TorError.configuration m) = refl
is_retryable-kind (TorError.url_parse m) = refl
is_retryable-kind (TorError.wasm m) = refl
is_retryable-kind (TorError.serialization m) = refl
is_retryable-kind (TorError.json m) = refl
is_retryable-kind (TorError.internal m) = refl
is_retryable-kind (TorError.net_doc m) = refl
is_retryable-kind TorError.cancelled = refl

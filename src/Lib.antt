-- ===== src/Lib.antt =====
-- A model of the core of webtor, a Tor client that reaches the network through Snowflake from a
-- browser or a native program, and proofs of what it promises. Paths are from the repository's root.
--
-- A byte travels down through these layers: a stream on a circuit, the SMUX multiplexer, KCP, the Turbo
-- framing and a WebSocket or WebRTC channel. Circuits are built from relays that the relay manager
-- selects, and bootstrapping is wrapped in retries. A page is fetched over TLS on such a stream.
--
-- Which file models which part:
--   Error      webtor/src/error.rs: `TorError`, `TorErrorKind`; `kind`, `is_retryable`, `code`, `as_code`.
--   Transport  the AsyncRead and AsyncWrite below a layer, a record of operations that the layers take
--              as a parameter. `Reads` is a sequence of reads with their chunks; Transport/Recorder is
--              what a sender relies on; Transport/Script is an instance for tests.
--   Turbo      webtor/src/turbo.rs. Frame: `TurboFrame::encode` and `decode`; Wire, Header, RoundTrip
--              and Limits: the codec in plain arithmetic; Stream: `TurboStream`, awaited and polled;
--              Frames, Delivery, Receive: reading; Sending: writing.
--   Smux       webtor/src/smux.rs. Command, Segment: the codec; State: the counters of flow control;
--              Stream: the awaited methods; Polling: AsyncRead and AsyncWrite; RoundTrip: the codec's
--              properties; Carried, Delivery: reading; Flow, Acknowledge: the two windows; Faults:
--              behaviour that is not what the code means to do.
--   Retry      webtor/src/retry.rs. Policy: `RetryPolicy`; Backoff, Attempts: `retry_with_backoff`;
--              Race: `with_timeout`, `with_cancellation` and `with_timeout_and_cancellation` as built for
--              wasm32.
--   Relay      webtor/src/relay.rs. Criteria: `RelayCriteria`; Manager: `RelayManager`; Fit, Sorting, Selection: what
--              is selected; Target: `as_circ_target`.
--   Circuit    webtor/src/circuit.rs. Table: `Circuit` and the table of `CircuitManager`; Create:
--              `create_circuit_with_isolation`; Serve: `get_ready_circuit` and
--              `get_circuit_for_isolation_key`; Cleanup: `cleanup_circuits`; Status:
--              `get_circuit_status` and `maybe_prebuild_circuit`; Path, Isolation, Stable, Separation
--              and Kept: what they promise. A shared circuit is its position in the table, and a call runs without
--              another task between its phases.
--   Tls        subtle-tls/src, the TLS 1.3 client. Error: `TlsError`; Cipher: the ciphers of
--              crypto.rs; Nonce, Nonces: `RecordCipher` and its nonces; Layer, Record:
--              record.rs, without and with the stream below; Record/Trip and ReadBack: what is
--              written is read back; Record/Messages: handshake messages in a record;
--              Record/Sync: the synchronous calls, and records that are misread; Hkdf: `Hkdf`;
--              Exporter: `export_keying_material`; Handshake: `HandshakeState`, with
--              ClientHello, Vectors, Offer and Offered, the first message and its reading;
--              Keys, the key schedule, Parse and ServerHello, the parsers, Total, that they
--              end, and Fit, that the keys fit the ciphers; Encrypted:
--              `process_encrypted_handshake`, with Sound and Authentic; Alert: `parse_alert`;
--              Stream: `TlsStream`, with Reads, PollRead, PollWrite and its Queue. Toy:
--              primitives for tests. Cert: cert.rs and trust_store.rs, with Hostname,
--              `matches_hostname`; Ecdsa, the conversion of signatures, its Total, Encoding and
--              RoundTrip; TrustStore; Verify, `verify_signature`; Chain, `verify_chain` and
--              `verify_certificate_verify`; Signed, Named and Verified, what is
--              checked; Served, the
--              handshake with these checks; Faults, where they are not what they mean to be.
--   Isolation  webtor/src/isolation.rs, `IsolationKey::from_url`. Groups: which URLs have the same key;
--              Circuits: that other URLs have other circuits.
--   Http       webtor/src/http.rs. Request: `HttpRequest`; Injection: values with a line end; Execute and
--              Ended: `execute_http_request`; Response, Lines and Framing: `parse_http_response`; Utf8: the
--              calls of `str`; Chunked: `decode_chunked_body`; Total: that it ends; Overflow: where it panics;
--              Client and Bound: `TorHttpClient::request` of a native build.
--   Base       shared names, lists, bit operations, machine words, results and actions.
--   The Runs modules hold tests and the theorems at concrete inputs.
--
-- How code becomes a definition: `&mut self` is a state that goes in and comes out (`Action`), `?` is
-- `>>=`, a panic is the result `panics`. A byte and a u32 are natural numbers, with the wrap-around of
-- `wrapping_add` and of `as` written out. A poll that returns `Pending` is the value `pending`; a
-- read into a buffer returns the bytes that were put there. Log lines are left out, and an error
-- message is the literal part of its text.
--
-- Fuel: `recv_frame`, `recv_loop` and `process_all` wait for the lower stream or loop on its bytes and
-- run on fuel; without it they return `stuck`. A round of `recv_frame` takes a frame or a chunk. The
-- loops of `poll_read` take one more than the length of the buffer, of which every round consumes a
-- byte at least. Of the TLS client, `read_app_data`, `poll_records` and `await_finished` wait for records
-- and run on fuel; the loops over the bytes of a record or message start with fuel for each byte.
-- `retry_with_backoff` counts the attempts that are left. `decode_chunked_body` starts with fuel for each
-- byte of the body. The loop of `execute_http_request` ends within one read for each byte of 1 MiB and
-- one more. `load_extended_roots` starts with fuel for each byte of the bundle, of which a PEM block
-- takes some.
--
-- Parameters: the lower stream; the url crate and the public suffix list; `str::to_lowercase` and the
-- parser of IP addresses; the Tor crates that build a tunnel; the clock and the ids;
-- floating-point scaling of a delay; `select` of the futures crate; the random choice from a slice;
-- parsers and key types of other crates. For TLS: the Web Crypto API and the crates chacha20poly1305, hmac,
-- sha2 and x25519-dalek, with the laws of an AEAD and the length of a digest where a theorem needs
-- them; and x509-parser. Encrypted takes the checks of certificates as a parameter, which Cert fills.
--
-- Not modelled: the vendored Tor crates, TLS 1.2, `TlsStream::connect`, the fallback from TLS 1.3
-- to 1.2 of a browser build, the directory, the transports below Turbo, KCP, the client's
-- bootstrap, `get_circuit_relays`, `make_circ_params`, the cancellation token and the bindings.
pub mod Base
pub mod Error
pub mod Transport
pub mod Turbo
pub mod Smux
pub mod Retry
pub mod Relay
pub mod Circuit
pub mod Isolation
pub mod Tls
pub mod Http

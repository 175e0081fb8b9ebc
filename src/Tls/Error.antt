-- ===== src/Tls/Error.antt =====
-- subtle-tls/src/error.rs: the errors of the TLS client. A message is the literal text of the
-- source; what `format!` puts into it is left out.
use webtor_rs.Base.{String}
use webtor_rs.Error.{IoError}

pub data TlsError : Type 0 where
  handshake certificate crypto protocol record_layer alert subtle_crypto : String → TlsError
  io : IoError → TlsError
  unexpected_message : String → String → TlsError
  connection_closed : TlsError

-- `to_string`, without what `format!` puts after the colon.
abbrev pub to_string : TlsError → String
to_string (TlsError.handshake m) = "Handshake failed"
to_string (TlsError.certificate m) = "Certificate error"
to_string (TlsError.crypto m) = "Crypto error"
to_string (TlsError.protocol m) = "Protocol error"
to_string (TlsError.record_layer m) = "Record layer error"
to_string (TlsError.alert m) = "Alert received"
to_string (TlsError.io e) = "IO error"
to_string (TlsError.unexpected_message expected got) = "Unexpected message"
to_string TlsError.connection_closed = "Connection closed"
to_string (TlsError.subtle_crypto m) = "SubtleCrypto error"

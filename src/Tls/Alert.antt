-- ===== src/Tls/Alert.antt =====
-- `parse_alert` of subtle-tls/src/stream.rs.
use webtor_rs.Base.{ℕ, String, List, ◌∷◌, ◌==◌, if◌then◌else◌}
use webtor_rs.Tls.Error.{TlsError}

unfoldable pub alert_description : ℕ → String
alert_description n =
    if n == 0
    then "close_notify"
    else if n == 10
    then "unexpected_message"
    else if n == 20
    then "bad_record_mac"
    else if n == 40
    then "handshake_failure"
    else if n == 42
    then "bad_certificate"
    else if n == 43
    then "unsupported_certificate"
    else if n == 44
    then "certificate_revoked"
    else if n == 45
    then "certificate_expired"
    else if n == 46
    then "certificate_unknown"
    else if n == 47
    then "illegal_parameter"
    else if n == 48
    then "unknown_ca"
    else if n == 49
    then "access_denied"
    else if n == 50
    then "decode_error"
    else if n == 51
    then "decrypt_error"
    else if n == 70
    then "protocol_version"
    else if n == 71
    then "insufficient_security"
    else if n == 80
    then "internal_error"
    else if n == 86
    then "inappropriate_fallback"
    else if n == 90
    then "user_canceled"
    else if n == 109
    then "missing_extension"
    else if n == 110
    then "unsupported_extension"
    else if n == 112
    then "unrecognized_name"
    else if n == 113
    then "bad_certificate_status_response"
    else if n == 115
    then "unknown_psk_identity"
    else if n == 116
    then "certificate_required"
    else if n == 120
    then "no_application_protocol"
    else "unknown"

-- The name of the alert stands for the text that `format!` builds from it; the level is left out.
unfoldable pub parse_alert : List ℕ → TlsError
parse_alert (level ∷ description ∷ rest) = TlsError.alert (alert_description description)
parse_alert bytes = TlsError.alert "Unknown alert"

-- ===== src/Error/Runs.antt =====
-- Concrete runs of webtor/src/error.rs.
use webtor_rs.Base.{◌≡◌, refl, true}
use webtor_rs.Error.{TorError, is_retryable}

retry_consensus : is_retryable (TorError.consensus_fetch "timeout") ≡ true
unfolding is_retryable
retry_consensus = refl

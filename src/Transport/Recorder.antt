-- ===== src/Transport/Recorder.antt =====
-- A lower stream whose writes succeed and leave a record: what a sender relies on.
use webtor_rs.Base.{ℕ, List, ◌++◌, ◌≡◌, length}
use webtor_rs.Base.Outcome.{ok}
use webtor_rs.Transport.{Transport}

pub record Recorder {S : Type 0} (t : Transport S) : Type 0 where
  pub sent : S → List ℕ
  pub write_all-ok : (bytes : List ℕ) (s : S) → (t.write_all bytes s).0 ≡ ok tt
  pub sent-write_all : (bytes : List ℕ) (s : S) → sent (t.write_all bytes s).1 ≡ sent s ++ bytes
  pub flush-ok : (s : S) → (t.flush s).0 ≡ ok tt
  pub sent-flush : (s : S) → sent (t.flush s).1 ≡ sent s

-- A lower stream that holds the bytes that arrive: what a receiver relies on.
pub record Arrivals {S : Type 0} (t : Transport S) : Type 0 where
  pub arriving : S → List ℕ
  pub read_exact-ok :
      (bytes rest : List ℕ) (s : S)
      → arriving s ≡ bytes ++ rest
      → ((t.read_exact (length bytes) s).0 ≡ ok bytes)
        × (arriving (t.read_exact (length bytes) s).1 ≡ rest)

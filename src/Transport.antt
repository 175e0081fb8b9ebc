-- ===== src/Transport.antt =====
-- The `AsyncRead` and `AsyncWrite` of the stream below a protocol layer (`S` of
-- webtor/src/turbo.rs and webtor/src/smux.rs), which the layers take as a parameter. The calls
-- with `poll_` are one poll; the others are awaited, and stand for the calls that complete.
pub mod Recorder
pub mod Script
use webtor_rs.Base.{ℕ, List, [], ◌∷◌, ◌≡◌, ◌≢◌, ◌⊎◌, inl, inr, refl}
use webtor_rs.Base.Action.{Action}
use webtor_rs.Base.Outcome.{Result, Poll, ok, err, panics, stuck}
use webtor_rs.Error.{IoError, TorError}

pub record Transport (S : Type 0) : Type 0 where
  -- The number is the length of the caller's buffer; the bytes are what it received.
  pub poll_read : ℕ → S → Poll IoError (List ℕ) × S
  pub poll_write : List ℕ → S → Poll IoError ℕ × S
  pub poll_flush : S → Poll IoError (Unit {0}) × S
  pub poll_close : S → Poll IoError (Unit {0}) × S
  pub read : ℕ → Action S IoError (List ℕ)
  pub read_exact : ℕ → Action S IoError (List ℕ)
  pub write_all : List ℕ → Action S IoError (Unit {0})
  pub flush : Action S IoError (Unit {0})

-- `.await.map_err(|e| error)`
abbrev pub map_err : {A : Type 0} → Result IoError A → TorError → Result TorError A
map_err (ok a) e = ok a
map_err (err x) e = err e
map_err panics e = panics
map_err stuck e = stuck

-- Reads that the lower stream answers with the chunks `cs`, none of them empty.
pub data Reads {S : Type 0} (t : Transport S) (n : ℕ) : S → List (List ℕ) → S → Type 0 where
  done : {s : S} → Reads t n s [] s
  more :
      {s s' u : S} {c : List ℕ} {cs : List (List ℕ)}
      → t.read n s ≡ (ok c, s')
      → c ≢ []
      → Reads t n s' cs u
      → Reads t n s (c ∷ cs) u

pub Reads-cases :
    {S : Type 0} {t : Transport S} {n : ℕ} {s u : S} {cs : List (List ℕ)}
    → Reads t n s cs u
    → (cs ≡ [])
      ⊎ ((c : List ℕ) × (rest : List (List ℕ)) × (s' : S) × (cs ≡ c ∷ rest)
          × (t.read n s ≡ (ok c, s'))
          × (c ≢ [])
          × Reads t n s' rest u)
Reads-cases done = inl refl
Reads-cases (more {s' = s'} {c = c} {cs = cs} e h r) = inr (c, cs, s', refl, e, h, r)

-- ===== src/Http/Ended.antt =====
-- `execute_http_request` of webtor/src/http.rs ends, and returns what the server sent.
use mathlib.Core.List.{flatten}
use webtor_rs.Base.{
  ℕ, zero, suc, ◌+◌, ◌≤◌, ◌<◌, ◌≡◌, ◌≢◌, refl, sym, ap, ◌∙◌, subst, arith, false, List, [], ◌∷◌,
  ◌++◌, append_assoc, length, ltb, le→ltb_false, ◌==◌, Bool-cases, inl, inr, ◌⊎◌, length-append,
  append-nil, String,
}
use webtor_rs.Base.Outcome.{Result, ok, err, panics, stuck, Ends}
use webtor_rs.Base.Action.{Action}
use webtor_rs.Transport.{Transport, Reads, done, more}
use webtor_rs.Error.{IoError, TorError}
use webtor_rs.Http.Execute.{
  buffer_size, response_limit, after_error, on_read, read_response, and_then, execute_http_request,
}

-- The reads of a stream that come to an end with a value or an error, and hand out no more than they
-- were asked for.
abbrev pub Answers : {S : Type 0} → (ℕ → Action S IoError (List ℕ)) → Type 0
Answers {S} read =
    (n : ℕ) (s : S)
    → ((bytes : List ℕ) × ((read n s).0 ≡ ok bytes) × (length bytes ≤ n))
      ⊎ ((e : IoError) × ((read n s).0 ≡ err e))

-- A response within the limit and one buffer more, or an error.
abbrev pub IsResponse : Result TorError (List ℕ) → Type 0
IsResponse (ok response) = length response ≤ response_limit + buffer_size
IsResponse (err e) = Unit {0}
IsResponse panics = ⊥
IsResponse stuck = ⊥

after_error-IsResponse :
    (response : List ℕ) → length response ≤ response_limit → IsResponse (after_error response)
unfolding after_error
after_error-IsResponse response h = elim (Bool-cases (length response == 0)) [
  | inl e ↦ rw e tt
  | inr e ↦ rw e (omega arith)
]

not_past : (m n : ℕ) → ltb m n ≡ false → n ≤ m
not_past m n h = ground arith

module _ {S : Type 0} (read : ℕ → Action S IoError (List ℕ)) where
  on_read-IsResponse :
      (fuel : ℕ) (response : List ℕ) (r : Result IoError (List ℕ)) (s : S)
      → ((bytes : List ℕ) × (r ≡ ok bytes) × (length bytes ≤ buffer_size))
        ⊎ ((e : IoError) × (r ≡ err e))
      → length response ≤ response_limit
      → ((total : List ℕ)
          → length response < length total
          → length total ≤ response_limit
          → IsResponse (read_response read fuel total s).0)
      → IsResponse (on_read read (read_response read fuel) response r s).0
  unfolding on_read
  on_read-IsResponse fuel response (ok []) s a h k = omega arith
  on_read-IsResponse fuel response (ok (b ∷ bytes)) s (inr (e, f)) h k = cc
  on_read-IsResponse fuel response (ok (b ∷ bytes)) s (inl (c, f, n)) h k =
      let total = response ++ b ∷ bytes in
      let same : b ∷ bytes ≡ c = cc in
      let m : length (b ∷ bytes) ≤ buffer_size = subst (λ x. length x ≤ buffer_size) (sym same) n in
      let sum = length-append response (b ∷ bytes) in
      elim (Bool-cases (ltb response_limit (length total))) [
        | inl e ↦ rw e (omega arith)
        | inr e ↦ rw e (k total (omega arith) (not_past response_limit (length total) e))
      ]
  on_read-IsResponse fuel response (err e) s a h k = after_error-IsResponse response h
  on_read-IsResponse fuel response panics s (inl (c, f, n)) h k = cc
  on_read-IsResponse fuel response panics s (inr (e, f)) h k = cc
  on_read-IsResponse fuel response stuck s (inl (c, f, n)) h k = cc
  on_read-IsResponse fuel response stuck s (inr (e, f)) h k = cc

  read_response-IsResponse :
      Answers read
      → (fuel : ℕ) (response : List ℕ) (s : S) → length response ≤ response_limit
      → response_limit < fuel + length response
      → IsResponse (read_response read fuel response s).0
  unfolding read_response
  read_response-IsResponse answers zero response s h f = absurd (omega arith)
  read_response-IsResponse answers (suc fuel) response s h f =
      on_read-IsResponse fuel response (read buffer_size s).0 (read buffer_size s).1
        (answers buffer_size s) h
        (λ total more within.
          read_response-IsResponse answers fuel total (read buffer_size s).1 within (omega arith))

and_then-IsResponse :
    {A S : Type 0} (p : Result IoError A × S) (e : String) (k : Action S TorError (List ℕ))
    → Ends p.0
    → ((s : S) → IsResponse (k s).0)
    → IsResponse (and_then p e k).0
and_then-IsResponse (ok a, s) e k n h = h s
and_then-IsResponse (err x, s) e k n h = tt
and_then-IsResponse (panics, s) e k n h = absurd (n.1 refl)
and_then-IsResponse (stuck, s) e k n h = absurd (n.0 refl)

-- Whatever a server sends, and without end: over a stream whose reads come to an end with an error or
-- with at most as many bytes as there is room for, `execute_http_request` returns an error or a
-- response of at most 1 MiB and one buffer, after as many reads as 1 MiB has bytes and one more.
pub execute_http_request-IsResponse :
    {S : Type 0} (t : Transport S) (fuel : ℕ) (request_bytes : List ℕ) (s : S)
    → Answers t.read
    → ((bytes : List ℕ) (s : S) → Ends (t.write_all bytes s).0)
    → ((s : S) → Ends (t.flush s).0)
    → response_limit < fuel
    → IsResponse (execute_http_request t fuel request_bytes s).0
unfolding execute_http_request
execute_http_request-IsResponse t fuel request_bytes s answers writes flushes enough =
    and_then-IsResponse (t.write_all request_bytes s) _ _ (writes request_bytes s) (λ s'.
      and_then-IsResponse (t.flush s') _ _ (flushes s')
        (λ s''. read_response-IsResponse t.read answers fuel [] s'' (omega arith) (omega arith)))

module _ {S : Type 0} (t : Transport S) where
  -- A read that brings a chunk within the limit, and the rest of the loop.
  step :
      (fuel : ℕ) (response c : List ℕ) (s s' : S)
      → t.read buffer_size s ≡ (ok c, s')
      → c ≢ []
      → length (response ++ c) ≤ response_limit
      → read_response t.read (suc fuel) response s ≡ read_response t.read fuel (response ++ c) s'
  unfolding read_response on_read
  step fuel response [] s s' e n h = absurd (n refl)
  step fuel response (b ∷ c) s s' e n h =
      ap (λ p. on_read t.read (read_response t.read fuel) response p.0 p.1) e
      ∙ rw (le→ltb_false response_limit (length (response ++ b ∷ c)) h) refl

  last_step :
      (fuel : ℕ) (response : List ℕ) (s s' : S)
      → t.read buffer_size s ≡ (ok [], s')
      → read_response t.read (suc fuel) response s ≡ (ok response, s')
  unfolding read_response on_read
  last_step fuel response s s' e =
      ap (λ p. on_read t.read (read_response t.read fuel) response p.0 p.1) e

  -- The reads that bring the chunks, and the one that finds the end.
  read_response-whole :
      (fuel : ℕ) (response : List ℕ) {s u : S} (end_ : S) {cs : List (List ℕ)}
      → Reads t buffer_size s cs u
      → t.read buffer_size u ≡ (ok [], end_)
      → length (response ++ flatten cs) ≤ response_limit
      → length cs < fuel
      → read_response t.read fuel response s ≡ (ok (response ++ flatten cs), end_)
  unfolding flatten
  read_response-whole zero response end_ r e h f = absurd (omega arith)
  read_response-whole (suc fuel) response {s = s} end_ done e h f =
      last_step fuel response s end_ e ∙ ap (λ x. (ok x, end_)) (sym (append-nil response))
  read_response-whole (suc fuel) response {s = s} end_ (more {s' = s'} {c = c} {cs = cs} e' n r) e h
        f =
      let joined = append_assoc response c (flatten cs) in
      let fits : length (response ++ c) ≤ response_limit =
        omega (arith, length-append (response ++ c) (flatten cs), ap length joined) in
      step fuel response c s s' e' n fits
      ∙ read_response-whole fuel (response ++ c) end_ r e
          (subst (λ x. length x ≤ response_limit) (sym joined) h) (omega arith)
      ∙ ap (λ x. (ok x, end_)) joined

  -- A response of at most 1 MiB is returned as it was sent, however the stream cuts it into chunks, if
  -- the server closes the connection behind it.
  pub execute_http_request-whole :
      (fuel : ℕ) (request_bytes : List ℕ) (s s' s'' u end_ : S) (cs : List (List ℕ))
      → t.write_all request_bytes s ≡ (ok tt, s')
      → t.flush s' ≡ (ok tt, s'')
      → Reads t buffer_size s'' cs u
      → t.read buffer_size u ≡ (ok [], end_)
      → length (flatten cs) ≤ response_limit
      → length cs < fuel
      → execute_http_request t fuel request_bytes s ≡ (ok (flatten cs), end_)
  unfolding execute_http_request
  execute_http_request-whole fuel request_bytes s s' s'' u end_ cs w x r e h f =
      ap
        (λ p.
          and_then p "Failed to write request"
            (λ y. and_then (t.flush y) "Failed to flush request" (read_response t.read fuel [])))
        w
      ∙ ap (λ p. and_then p "Failed to flush request" (read_response t.read fuel [])) x
      ∙ read_response-whole fuel [] end_ r e h f

-- ===== src/Tls/Stream/Reads.antt =====
-- `read` of `TlsStream` in subtle-tls/src/stream.rs hands out the bytes of the records in order,
-- whatever the size of the caller's buffer.
use webtor_rs.Base.{
  ℕ, zero, suc, ◌+◌, ◌<◌, ◌≤◌, ◌≡◌, ◌≢◌, refl, sym, ap, ◌∙◌, arith, min, false, List, [], ◌++◌,
  append-nil, length, take, drop, take-append-drop, length-drop, drop-drop, drop_all, take_all, ltb,
  leb, leb→le, ltb→lt, Bool-cases, none, some, Option-cases, inl, inr, ◌⊎◌,
}
use webtor_rs.Base.Outcome.{Result, ok, err, panics, stuck}
use webtor_rs.Error.{IoError}
use webtor_rs.Transport.{Transport}
use webtor_rs.Base.Action.{given}
use webtor_rs.Tls.Record.{read_record}
use webtor_rs.Tls.Error.{TlsError}
use webtor_rs.Tls.Cipher.{Crypto}
use webtor_rs.Tls.Stream.{
  TlsStream, app_data, with_conn, read_answer, drain_buffered, hand_out, read_app_data, read,
}

not_less : (m n : ℕ) → ltb m n ≡ false → n ≤ m
not_less m n h = ground arith

module _ {K C S : Type 0} where
  -- The plaintext that has been decrypted and not handed out.
  abbrev pub unread : TlsStream K C S → List ℕ
  unread s = drop s.read_pos s.read_buffer

  drain_buffered-unread :
      (n : ℕ) (s : TlsStream K C S)
      → (drain_buffered n s).0 ++ unread (drain_buffered n s).1 ≡ unread s
  unfolding drain_buffered
  drain_buffered-unread n s =
      let to_copy = min n (length (unread s)) in
      let split = take-append-drop to_copy (unread s) in
      let later = drop-drop s.read_pos to_copy s.read_buffer in
      elim (Bool-cases (leb (length s.read_buffer) (s.read_pos + to_copy))) [
        | inl e ↦
            let gone : drop to_copy (unread s) ≡ [] =
              later ∙ drop_all (s.read_pos + to_copy) s.read_buffer (leb→le _ _ e) in
            rw e (ap (λ r. take to_copy (unread s) ++ r) (sym gone) ∙ split)
        | inr e ↦ rw e (ap (λ r. take to_copy (unread s) ++ r) (sym later) ∙ split)
      ]

  hand_out-unread :
      (n : ℕ) (bytes : List ℕ) (s : TlsStream K C S)
      → unread s ≡ []
      → (hand_out n bytes s).0 ++ unread (hand_out n bytes s).1 ≡ bytes
  unfolding hand_out
  hand_out-unread n bytes s h =
      let to_copy = min n (length bytes) in
      elim (Bool-cases (ltb to_copy (length bytes))) [
        | inl e ↦ rw e (take-append-drop to_copy bytes)
        | inr e ↦
            let whole : take to_copy bytes ≡ bytes = take_all to_copy bytes (not_less _ _ e) in
            rw e (ap (λ r. take to_copy bytes ++ r) h ∙ append-nil (take to_copy bytes) ∙ whole)
      ]

module _ {K C S : Type 0} (crypto : Crypto K C) (t : Transport S) where
  -- Where the bytes of a read come from: the buffer, which it only shortens; or one record of
  -- application data, of which it buffers the rest; or none, at the end of the data.
  abbrev pub Serves : ℕ → TlsStream K C S → List ℕ → TlsStream K C S → Type 0
  Serves fuel s out s' =
      ((unread s ≢ []) × (out ++ unread s' ≡ unread s) × (s'.inner ≡ s.inner))
      ⊎ ((unread s ≡ [])
          × ((bytes : List ℕ) × (((read_app_data crypto t fuel s).0 ≡ ok bytes)
                × (out ++ unread s' ≡ bytes))))
      ⊎ ((out ≡ []) × ((read_app_data crypto t fuel s).0 ≡ err TlsError.connection_closed))

  abbrev next_record : TlsStream K C S → ℕ → ℕ × List ℕ → Result TlsError (List ℕ) × TlsStream K C S
  next_record u fuel record_ = elim (app_data record_.0 record_.1) [
    | some answer ↦ (answer, u)
    | none ↦ read_app_data crypto t fuel u
  ]

  given-unread :
      (fuel : ℕ) (u : TlsStream K C S) (r : Result TlsError (ℕ × List ℕ))
      → unread (read_app_data crypto t fuel u).1 ≡ unread u
      → unread (given r u (next_record u fuel)).1 ≡ unread u
  given-unread fuel u (ok (ct, bytes)) h = elim (Option-cases (app_data ct bytes)) [
    | inl e ↦ rw (e, next_record) h
    | inr (a, e) ↦ rw (e, next_record) refl
  ]
  given-unread fuel u (err e) h = refl
  given-unread fuel u panics h = refl
  given-unread fuel u stuck h = refl

  read_app_data-unread :
      (fuel : ℕ) (s : TlsStream K C S) → unread (read_app_data crypto t fuel s).1 ≡ unread s
  unfolding read_app_data
  read_app_data-unread zero s = refl
  read_app_data-unread (suc fuel) s =
      let (r, conn) = read_record crypto t (s.record_layer, s.inner) in
      given-unread fuel (with_conn conn s) r (read_app_data-unread fuel (with_conn conn s))

  abbrev Answer : Type 0
  Answer = Result IoError (List ℕ) × TlsStream K C S

  drain_buffered-inner : (n : ℕ) (s : TlsStream K C S) → (drain_buffered n s).1.inner ≡ s.inner
  unfolding drain_buffered
  drain_buffered-inner n s =
      elim (Bool-cases (leb (length s.read_buffer) (s.read_pos + min n (length (unread s))))) [
        | inl e ↦ rw e refl
        | inr e ↦ rw e refl
      ]

  unwrap :
      (a : List ℕ) (v : TlsStream K C S) (b : List ℕ) (u : TlsStream K C S)
      → ◌≡◌ {A = Answer} (ok a, v) (ok b, u)
      → (a ≡ b) × (v ≡ u)
  unwrap a v b u e =
      let same : ok a ≡ ok b = ap (λ (x : Answer). x.0) e in (cc, ap (λ (x : Answer). x.1) e)

  drained :
      (fuel n : ℕ) (s s' : TlsStream K C S) (out : List ℕ)
      → s.read_pos < length s.read_buffer
      → ((drain_buffered n s).0 ≡ out) × ((drain_buffered n s).1 ≡ s')
      → Serves fuel s out s'
  drained fuel n s s' out h e = inl (
    λ empty. absurd (omega (arith, length-drop s.read_pos s.read_buffer, empty_length empty)),
    ap (λ o. o ++ unread s') (sym e.0)
        ∙ ap (λ (v : TlsStream K C S). (drain_buffered n s).0 ++ unread v) (sym e.1)
        ∙ drain_buffered-unread n s,
    ap (λ (v : TlsStream K C S). v.inner) (sym e.1) ∙ drain_buffered-inner n s,
  )
    where
      empty_length : unread s ≡ [] → length (unread s) ≡ 0
      empty_length empty = ap length empty

  answered :
      (fuel n : ℕ) (s s' : TlsStream K C S) (out : List ℕ)
      → unread s ≡ []
      → (r : Result TlsError (List ℕ)) (u : TlsStream K C S)
      → read_app_data crypto t fuel s ≡ (r, u)
      → read_answer crypto t n r u ≡ (ok out, s')
      → Serves fuel s out s'
  unfolding read_answer
  answered fuel n s s' out h (ok bytes) u e q =
      let (first, kept) = hand_out n bytes u in
      let same : ok first ≡ ok out = ap (λ (x : Answer). x.0) q in
      let got : first ≡ out = cc in
      let after : kept ≡ s' = ap (λ (x : Answer). x.1) q in
      let empty : unread u ≡ [] =
        ap (λ (x : Result TlsError (List ℕ) × TlsStream K C S). unread x.1) (sym e)
        ∙ read_app_data-unread fuel s
        ∙ h in
      inr (
        inl (
          h,
          (
            bytes,
            (
              ap (λ (x : Result TlsError (List ℕ) × TlsStream K C S). x.0) e,
              ap (λ o. o ++ unread s') (sym got)
                  ∙ ap (λ (v : TlsStream K C S). first ++ unread v) (sym after)
                  ∙ hand_out-unread n bytes u empty,
            ),
          ),
        ))
  answered fuel n s s' out h (err TlsError.connection_closed) u e q =
      let (none_, after) = unwrap [] u out s' q in
      inr (inr (sym none_, ap (λ (x : Result TlsError (List ℕ) × TlsStream K C S). x.0) e))
  answered fuel n s s' out h (err (TlsError.handshake m)) u e q = cc
  answered fuel n s s' out h (err (TlsError.certificate m)) u e q = cc
  answered fuel n s s' out h (err (TlsError.crypto m)) u e q = cc
  answered fuel n s s' out h (err (TlsError.protocol m)) u e q = cc
  answered fuel n s s' out h (err (TlsError.record_layer m)) u e q = cc
  answered fuel n s s' out h (err (TlsError.alert m)) u e q = cc
  answered fuel n s s' out h (err (TlsError.subtle_crypto m)) u e q = cc
  answered fuel n s s' out h (err (TlsError.io x)) u e q = cc
  answered fuel n s s' out h (err (TlsError.unexpected_message a b)) u e q = cc
  answered fuel n s s' out h panics u e q = cc
  answered fuel n s s' out h stuck u e q = cc

  -- Whatever the size of the caller's buffer: a `read` that succeeds hands out the first bytes of
  -- the decrypted data that is buffered, or of the next record if none is, and keeps exactly the
  -- rest for the next call; or it hands out nothing because the peer has closed the connection.
  pub read-Serves :
      (fuel n : ℕ) (s s' : TlsStream K C S) (out : List ℕ)
      → read crypto t fuel n s ≡ (ok out, s')
      → Serves fuel s out s'
  unfolding read
  read-Serves fuel n s s' out e = elim (Bool-cases (ltb s.read_pos (length s.read_buffer))) [
    | inl b ↦ drained fuel n s s' out (ltb→lt _ _ b) (unwrap _ _ out s' (rw b at e))
    | inr b ↦
        answered fuel n s s' out (drop_all s.read_pos s.read_buffer (not_less _ _ b)) _ _ refl
          (rw b at e)
  ]

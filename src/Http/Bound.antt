-- ===== src/Http/Bound.antt =====
-- Which circuit a request of webtor/src/http.rs goes over.
use text.Mathlib.Text.{◌==◌ as str_eq}
use text.Mathlib.TextEquality.{eq_iff}
use webtor_rs.Base.{
  ℕ, true, false, Bool-cases, inl, inr, ◌⊎◌, ◌≢◌, ◌≡◌, refl, sym, ap, ◌∙◌, List, Option, none, some,
  String, subst,
}
use webtor_rs.Base.Outcome.{Result, ok, err, panics, stuck, >>=-ok}
use webtor_rs.Base.Action.{given}
use webtor_rs.Error.{TorError}
use webtor_rs.Relay.Target.{TargetApi}
use webtor_rs.Isolation.{StreamIsolationPolicy, Hosts, from_url}
use webtor_rs.Circuit.Table.{Circuit, get_elem?}
use webtor_rs.Circuit.Create.{Network, Draw, Manager, or_internal}
use webtor_rs.Circuit.Serve.{get_circuit_for_isolation_key}
use webtor_rs.Circuit.Isolation.{IsServing, get_circuit_for_isolation_key-IsServing}
use webtor_rs.Http.Response.{HttpResponse, parse_http_response, or_error}
use webtor_rs.Http.Request.{HttpRequest, build_request}
use webtor_rs.Http.Execute.{execute_http_request}
use webtor_rs.Http.Client.{
  Streams, begin_stream, exchange, over_circuit, respond, request_to, request,
}

given-ok :
    {S E A B : Type 0} (r : Result E A) (s s' : S) (f : A → Result E B × S) (b : B)
    → given r s f ≡ (ok b, s')
    → (a : A) × (r ≡ ok a) × (f a ≡ (ok b, s'))
given-ok (ok a) s s' f b e = (a, refl, e)
given-ok (err x) s s' f b e = cc
given-ok panics s s' f b e = cc
given-ok stuck s s' f b e = cc

or_internal-some :
    {A : Type 0} (o : Option A) (m : String) (a : A) → or_internal o m ≡ ok a → o ≡ some a
or_internal-some none m a e = cc
or_internal-some (some b) m a e = cc

or_error-some :
    {A : Type 0} (o : Option A) (x : TorError) (a : A) → or_error o x ≡ ok a → o ≡ some a
or_error-some none x a e = cc
or_error-some (some b) x a e = cc

module _ {api : TargetApi} (network : Network api) {S R : Type 0}
    (streams : Streams network.Tunnel S R) (hosts : Hosts) (to_lowercase : List ℕ → List ℕ)
    (draw : Draw) (now later : ℕ) where
  -- The bytes were read on a stream that the circuit's tunnel opened to the host and the port: with
  -- TLS for the host over it if the URL's scheme is https, and as it is otherwise.
  abbrev pub OverStream : ℕ → HttpRequest → String → ℕ → Circuit network.Tunnel → List ℕ → Type 0
  OverStream fuel request_ host port c bytes =
      (tunnel : network.Tunnel) × (s : S) × (c.internal_circuit ≡ some tunnel)
      × (streams.begin_stream tunnel host port ≡ some s)
      × (((request_.url.scheme ≡ "https")
            × ((tls : R) × (streams.wrap_with_tls s host ≡ ok tls)
                × ((execute_http_request streams.tls_stream fuel (build_request request_ host)
                      tls).0
                    ≡ ok bytes)))
          ⊎ ((request_.url.scheme ≢ "https")
              × ((execute_http_request streams.stream fuel (build_request request_ host) s).0
                  ≡ ok bytes)))

  over_circuit-OverStream :
      (fuel : ℕ) (request_ : HttpRequest) (host : String) (port : ℕ) (c : Circuit network.Tunnel)
      (bytes : List ℕ)
      → over_circuit network streams hosts to_lowercase fuel request_ host port c ≡ ok bytes
      → OverStream fuel request_ host port c bytes
  unfolding over_circuit begin_stream exchange
  over_circuit-OverStream fuel request_ host port c bytes e =
      let (s, f, begun) = >>=-ok _ (begin_stream streams c host port) e in
      let (tunnel, g, there) = >>=-ok _ (or_internal c.internal_circuit _) begun in
      let https = str_eq request_.url.scheme "https" in
      (
        tunnel,
        s,
        or_internal-some _ _ tunnel there,
        or_internal-some _ _ s g,
        elim (Bool-cases https) [
          | inl h ↦
              let (tls, k, wrapped) =
                >>=-ok
                  (λ tls.
                    (execute_http_request streams.tls_stream fuel (build_request request_ host)
                      tls).0)
                  (streams.wrap_with_tls s host) (rw h at f) in
              inl ((eq_iff request_.url.scheme "https").0 h, (tls, wrapped, k))
          | inr h ↦ inr (
            (λ same.
                let bad : true ≡ false = sym ((eq_iff request_.url.scheme "https").1 same) ∙ h in
                cc),
            rw h at f,
          )
        ],
      )

  -- The response came over a circuit of the table that is bound to the key and alive, on a stream to
  -- the URL's host and port.
  abbrev pub IsBound : String → ℕ → HttpRequest → Manager network draw → HttpResponse → Type 0
  IsBound key fuel request_ m response =
      (host : String) × (port : ℕ) × (i : ℕ) × (c : Circuit network.Tunnel) × (bytes : List ℕ)
      × (request_.url.host_str ≡ some host)
      × (request_.url.port_or_known_default ≡ some port)
      × (get_elem? (get_circuit_for_isolation_key network draw now (some key) m).1.circuits i
          ≡ some c)
      × IsServing key now c
      × OverStream fuel request_ host port c bytes
      × (parse_http_response to_lowercase request_.url bytes ≡ ok response)

  -- A request under a policy that gives its URL a key, and that returns a response, has had it over a
  -- circuit of the table that is bound to that key and neither failed nor closed, on a stream that
  -- the circuit's tunnel opened to the URL's host and port, with TLS for that host if the scheme is
  -- https and without otherwise.
  pub request-IsBound :
      (policy : StreamIsolationPolicy) (fuel : ℕ) (request_ : HttpRequest) (key : String)
      (m m' : Manager network draw) (response : HttpResponse)
      → from_url hosts request_.url policy ≡ some key
      → request network streams hosts to_lowercase draw now later policy fuel request_ m
        ≡ (ok response, m')
      → IsBound key fuel request_ m response
  unfolding request request_to respond
  request-IsBound policy fuel request_ key m m' response k e =
      let (host, there, e1) = given-ok (or_error request_.url.host_str _) m m' _ response e in
      let (port, known, e2) =
        given-ok (or_error request_.url.port_or_known_default _) m m' _ response e1 in
      let found =
        get_circuit_for_isolation_key network draw now (from_url hosts request_.url policy) m in
      let (i, served, e3) = given-ok found.0 found.1 m' _ response e2 in
      let (c, at_i, e4) =
        given-ok (or_internal (get_elem? found.1.circuits i) _) found.1 m' _ response e3 in
      let (bytes, exchanged, e5) =
        given-ok (over_circuit network streams hosts to_lowercase fuel request_ host port c) found.1
          m' _ response e4 in
      let bound = ap (λ x. get_circuit_for_isolation_key network draw now x m) k in
      let (d, at_d, serving) =
        get_circuit_for_isolation_key-IsServing network draw now key m i
          (sym (ap (λ x. x.0) bound) ∙ served) in
      let at_c : get_elem? (get_circuit_for_isolation_key network draw now (some key) m).1.circuits
            i
          ≡ some c =
        sym (ap (λ x. get_elem? x.1.circuits i) bound) ∙ or_internal-some _ _ c at_i in
      let same : d ≡ c = cc in
      (
        host,
        port,
        i,
        c,
        bytes,
        or_error-some request_.url.host_str _ host there,
        or_error-some request_.url.port_or_known_default _ port known,
        at_c,
        subst (IsServing key now) same serving,
        over_circuit-OverStream fuel request_ host port c bytes exchanged,
        ap (λ x. x.0) e5,
      )

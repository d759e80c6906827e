-- ===== src/Control/Factories.antt =====
-- control/spec.go: the "tcp" backend type, and what adding a route of that type does. The JSON
-- decoder and ParseTCP's url.Parse and LookupPort are arguments.
use go_portless.Common.{
  ℕ, ◌≡◌, refl, ◌≢◌, ◌⊎◌, inl, inr, Bool, some, [], ◌∷◌, arith, Text, codes, text_eq_no, Dict,
  lookup,
}
use go_portless.Errors.{errorf, wrap}
use go_portless.Dial.{Backend, DialFunc, Result, ok, failed, World, Context}
use go_portless.Registry.{add}
use go_portless.Backends.{tcp_backend}
use go_portless.Backends.Parse.{Url, parse_tcp}
use go_portless.Control.{
  RouteSpec, Server, Reply, Factory, code_bad_request, add_replied, add_built, handle_add_route,
}

module _ {E : Type 0} (number : ℕ) (dialer : DialFunc E) (decode : Text → Result Text)
    (parse : Text → Result Url) (lookup_port : Text → Bool) where
  abbrev pub tcp_parsed : Result Text → Result (Backend E)
  tcp_parsed (failed e) = failed (wrap "tcp config: %w" [] e)
  tcp_parsed (ok a) = ok (tcp_backend number dialer a)

  abbrev pub tcp_decoded : Result Text → Result (Backend E)
  tcp_decoded (failed e) = failed (wrap "tcp config: %w" [] e)
  tcp_decoded (ok []) = failed (errorf "tcp config: address is required" [])
  tcp_decoded (ok (c ∷ a)) = tcp_parsed (parse_tcp parse lookup_port (c ∷ a))

  -- The factory of "tcp", given the address that the decoder reads of a configuration.
  unfoldable pub tcp_factory : Factory E
  tcp_factory config = tcp_decoded (decode config)

  -- The address of a configuration that is accepted.
  abbrev pub Address : Text → Text → Type 0
  Address config a =
      (written : Text) × (decode config ≡ ok written)
      × (written ≢ [])
      × (parse_tcp parse lookup_port written ≡ ok a)

  abbrev Made : Text → Result (Backend E) → Type 0
  Made config (ok b) = (a : Text) × Address config a × (b ≡ tcp_backend number dialer a)
  Made config (failed e) = (a : Text) → Address config a → ⊥

  tcp_parsed-Made :
      (config written : Text) (r : Result Text)
      → decode config ≡ ok written
      → written ≢ []
      → parse_tcp parse lookup_port written ≡ r
      → Made config (tcp_parsed r)
  tcp_parsed-Made config written (failed e) d ne p = λ a (other, d', ne', p'). ground arith
  tcp_parsed-Made config written (ok a) d ne p = (a, (written, d, ne, p), refl)

  tcp_decoded-Made :
      (config : Text) (r : Result Text) → decode config ≡ r → Made config (tcp_decoded r)
  tcp_decoded-Made config (failed e) d = λ a (written, d', ne, p). ground arith
  tcp_decoded-Made config (ok []) d = λ a (written, d', ne, p). ne (ground arith)
  tcp_decoded-Made config (ok (c ∷ a)) d =
      tcp_parsed-Made config (c ∷ a) (parse_tcp parse lookup_port (c ∷ a)) d
        (λ e. absurd (ground arith)) refl

  -- Added with a backend of the address, or refused and nothing has changed.
  abbrev pub TcpOutcome :
      Server E → Context → RouteSpec → World E → Server E × Reply × World E → Type 0
  TcpOutcome s ctx spec w (s', reply, w') =
      ((a : Text) × Address spec.config a
        × ((s', reply, w')
            ≡ add_replied s spec
                (add s.reg ctx spec.name (some (tcp_backend number dialer a)) [] w)))
      ⊎ (((a : Text) → Address spec.config a → ⊥)
          × (s' ≡ s)
          × (w' ≡ w)
          × (reply.status ≡ 400)
          × (reply.code ≡ code_bad_request))

  built-TcpOutcome :
      (s : Server E) (ctx : Context) (spec : RouteSpec) (w : World E) (r : Result (Backend E))
      → Made spec.config r
      → TcpOutcome s ctx spec w (add_built s ctx spec r w)
  built-TcpOutcome s ctx spec w (ok b) (a, address, e) = inl (a, address, rw e refl)
  built-TcpOutcome s ctx spec w (failed e) none_made = inr (none_made, refl, refl, refl, refl)

  -- A bad address fails when the route is added, not when it is dialed. A request to add a route of
  -- the type tcp, with a name, where the type tcp has the built-in factory: either the configuration
  -- has an address that ParseTCP accepts, and the answer is that of adding a TCP backend which dials
  -- what ParseTCP makes of it; or it has none, the reply is 400 with the code bad_request, and the
  -- server, its registry and the world are as they were.
  pub handle_add_route-TcpOutcome :
      (factories : Dict (Factory E)) (s : Server E) (ctx : Context) (spec : RouteSpec) (w : World E)
      → spec.name ≢ []
      → spec.kind ≡ codes "tcp"
      → lookup spec.kind factories ≡ some tcp_factory
      → TcpOutcome s ctx spec w (handle_add_route factories s ctx (ok spec) w)
  unfolding handle_add_route tcp_factory
  handle_add_route-TcpOutcome factories s ctx spec w name kind found =
      let typed : spec.kind ≢ [] = λ e. absurd (ground arith) in
      simp (text_eq_no spec.name [] name, text_eq_no spec.kind [] typed, found)
        (built-TcpOutcome s ctx spec w (tcp_factory spec.config)
          (tcp_decoded-Made spec.config (decode spec.config) refl))

-- ===== src/Options/Health/Probed.antt =====
-- What a route with a TLS health check hands out.
use go_portless.Common.{◌≡◌, refl, sym, ◌∙◌, ap, Option, none, some, Text, codes, arith}
use go_portless.Errors.{Err}
use go_portless.Net.{ℤ}
use go_portless.Dial.{DialFunc, Result, ok, failed, World, Context, Conn, close_conn}
use go_portless.Route.{Route}
use go_portless.Readiness.{judge, gate, try}
use go_portless.Options.Health.{Handshake, health_address, handshaken, tls_dialed, tls_health}

same_ok : {c d : Conn} → ok c ≡ ok d → c ≡ d
same_ok e = cc

module _ {E : Type 0} (handshake : Handshake E) (port : ℤ) (ctx : Context) where
  -- A probe of the backend has completed its handshake, and has been closed.
  abbrev pub IsProbed : DialFunc E → World E → World E → Type 0
  IsProbed dial w w' =
      (p : Conn) × (w1 : World E) × (w2 : World E) × (dial ctx (codes "tcp") (health_address port) w
        ≡ (ok p, w1))
      × (handshake ctx p w1 ≡ (none, w2))
      × (w' ≡ close_conn p (close_conn p w2))

  judged-IsProbed :
      (dial : DialFunc E) (w : World E) (c d : Conn) (w' : World E) (probe : Result Conn × World E)
      → dial ctx (codes "tcp") (health_address port) w ≡ probe
      → judge c (tls_dialed handshake ctx probe) ≡ (ok d, w')
      → (c ≡ d) × IsProbed dial w w'
  unfolding judge
  judged-IsProbed dial w c d w' (failed e, w1) q h = absurd (ground arith)
  judged-IsProbed dial w c d w' (ok p, w1) q h = shaken (handshake ctx p w1) refl h
    where
      shaken :
          (r : Option Err × World E)
          → handshake ctx p w1 ≡ r
          → judge c (handshaken p r) ≡ (ok d, w')
          → (c ≡ d) × IsProbed dial w w'
      shaken (none, w2) s j = (same_ok (ap (λ r. r.0) j), (p, w1, w2, q, s, sym (ap (λ r. r.1) j)))
      shaken (some e, w2) s j = absurd (ground arith)

  gate-IsProbed :
      (dial : DialFunc E) (r : Result Conn × World E) (d : Conn) (w' : World E)
      → gate (some (tls_health handshake port)) dial ctx r ≡ (ok d, w')
      → (w : World E) × (r ≡ (ok d, w)) × IsProbed dial w w'
  unfolding gate tls_health
  gate-IsProbed dial (failed e, w) d w' h = absurd (ground arith)
  gate-IsProbed dial (ok c, w) d w' h =
      let (same, probed) =
        judged-IsProbed dial w c d w' (dial ctx (codes "tcp") (health_address port) w) refl h in
      (w, ap (λ c. (ok c, w)) same, probed)

  -- A route with a TLS health check hands out a connection only if a second connection, which the
  -- backend itself has dialed after the first, has completed a handshake with this configuration; the
  -- second connection has then been closed, and the first is the one that the route's dial gave.
  pub try-IsProbed :
      (rt : Route E) (network address : Text) (w w' : World E) (c : Conn)
      → rt.cfg.health ≡ some (tls_health handshake port)
      → try rt ctx network address w ≡ (ok c, w')
      → (w1 : World E) × (rt.dial ctx network address w ≡ (ok c, w1))
        × IsProbed rt.backend.dial_context w1 w'
  unfolding try
  try-IsProbed rt network address w w' c health h =
      gate-IsProbed rt.backend.dial_context (rt.dial ctx network address w) c w' (
        ap (λ o. gate o rt.backend.dial_context ctx (rt.dial ctx network address w)) (sym health)
        ∙ h)

-- ===== src/Options/Health.antt =====
-- options.go: RouteWithHTTPHealth and RouteWithTLSHealth. The HTTP client and the TLS handshake are
-- arguments.
pub mod Probed
mod Tests
use go_portless.Common.{
  ℕ, ◌+◌, ◌<◌, ◌≡◌, refl, ◌∙◌, ◌⊎◌, inl, inr, Bool, true, false, ◌||◌, Option, none, some, List, [],
  ◌∷◌, ◌++◌, arith, ltb, if◌then◌else◌, Text, codes, Bool-cases,
}
use go_portless.Errors.{Err, errorf, wrap, retryable}
use go_portless.Net.{ℤ, itoa, join_host_port}
use go_portless.Dial.{
  DialFunc, HealthCheck, RouteConfig, Result, ok, failed, World, Context, Conn, close_conn,
}
use go_portless.Options.{route_with_health_check}
use go_portless.Readiness.{gate, judge}

-- The address on the given port of the backend.
abbrev pub health_address : ℤ → Text
health_address port = join_host_port (codes "localhost") (itoa port)

abbrev pub health_url : ℤ → Text → Text
health_url port path = codes "http://" ++ health_address port ++ path

-- A response's code and status.
abbrev pub health_status : Text → ℕ → Text → Option Err
health_status path code status =
    if ltb code 200 || ltb 299 code
    then some (errorf "health %s: status %s" (path ∷ status ∷ []))
    else none

-- http.Client.Do for a GET, over a dial: the code and the status of the response.
abbrev pub HttpGet : Type 0 → Type 0
HttpGet E = Context → DialFunc E → Text → World E → Result (ℕ × Text) × World E

-- HandshakeContext of a TLS client over a connection.
abbrev pub Handshake : Type 0 → Type 0
Handshake E = Context → Conn → World E → Option Err × World E

module _ {E : Type 0} where
  abbrev pub http_answered : Text → Result (ℕ × Text) × World E → Option Err × World E
  http_answered path (failed e, w) = (some e, w)
  http_answered path (ok (code, status), w) = (health_status path code status, w)

  abbrev pub http_requested :
      HttpGet E → Context → DialFunc E → Text → Text → Option Err → World E → Option Err × World E
  http_requested get ctx dial path url (some e) w = (some e, w)
  http_requested get ctx dial path url none w = http_answered path (get ctx dial url w)

  -- The check of RouteWithHTTPHealth; `request` is the error of NewRequestWithContext.
  unfoldable pub http_health : (Text → Option Err) → HttpGet E → ℤ → Text → HealthCheck E
  http_health request get port path ctx dial w =
      http_requested get ctx dial path (health_url port path) (request (health_url port path)) w

  -- The TLS client is closed, and with it the connection, and then the connection once more.
  abbrev pub handshaken : Conn → Option Err × World E → Option Err × World E
  handshaken c (e, w) = (e, close_conn c (close_conn c w))

  abbrev pub tls_dialed : Handshake E → Context → Result Conn × World E → Option Err × World E
  tls_dialed handshake ctx (failed e, w) = (some e, w)
  tls_dialed handshake ctx (ok c, w) = handshaken c (handshake ctx c w)

  -- The check of RouteWithTLSHealth, with the handshake under its configuration.
  unfoldable pub tls_health : Handshake E → ℤ → HealthCheck E
  tls_health handshake port ctx dial w =
      tls_dialed handshake ctx (dial ctx (codes "tcp") (health_address port) w)

  abbrev pub route_with_http_health :
      (Text → Option Err) → HttpGet E → ℤ → Text → RouteConfig E → RouteConfig E
  route_with_http_health request get port path =
      route_with_health_check (http_health request get port path)

  abbrev pub route_with_tls_health : Handshake E → ℤ → RouteConfig E → RouteConfig E
  route_with_tls_health handshake port = route_with_health_check (tls_health handshake port)

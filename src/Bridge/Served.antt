-- ===== src/Bridge/Served.antt =====
-- What bridgeConn does with a connection that a local listener has accepted.
use go_portless.Common.{
  ℕ, ◌+◌, ◌-◌, ◌*◌, ◌<◌, ◌≡◌, refl, ap, ◌∙◌, ◌⊎◌, inl, inr, true, false, Option, none, some, Text,
  codes, Bool-cases, Option-cases, if_true, if_false,
}
use mathlib.Core.Option
use go_portless.Errors.{Err, sentinel, route_not_found}
use go_portless.Net.{ℤ}
use go_portless.Dial.{Result, ok, failed, World, Conn, close_conn, has_closed}
use go_portless.Route.{Route, bridge_dial_port}
use go_portless.Readiness.{dial_route}
use go_portless.Readiness.Termination.{IsForward, IsForwardCheck, shortest_wait, dial_route_returns}
use go_portless.Registry.{Registry, emit_event, lookup_route}
use go_portless.Bridge.{
  closing_context, bridge_error, bridge_failed, torn_down, bridge_dialed, bridge_address, bridge_to,
  bridge_conn,
}

module _ {E : Type 0} where
  -- The fuel is enough for a readiness wait of the route's ready timeout.
  abbrev pub IsEnough : ℕ → Route E → World E → Type 0
  IsEnough fuel rt w =
      IsForward rt.dial
      × IsForwardCheck rt.cfg.health
      × (w.now + rt.cfg.ready_timeout - w.now < fuel * shortest_wait)

  -- A route that can be bridged has been dialed, with this answer.
  abbrev pub IsDialed : ℕ → Registry E → Text → Result Conn → World E → World E → Type 0
  IsDialed fuel r name answer w w' =
      (rt : Route E) × (port : ℤ) × (lookup_route r name ≡ some rt)
      × (bridge_dial_port rt.cfg.port_map ≡ ok port)
      × (dial_route fuel r.cfg.handlers (closing_context w) rt (codes "tcp")
            (bridge_address rt port) w
          ≡ some (answer, w'))

  -- Why a bridge has no backend, and the world until the client's connection is closed: the registry
  -- is closed and nothing is said; or there is no route, or its ports cannot be bridged, and one
  -- event says so; or the dial has failed, and the client's connection has been closed before if the
  -- registry has closed meanwhile.
  abbrev pub IsRefused : ℕ → Registry E → Text → Conn → World E → World E → Type 0
  IsRefused fuel r name conn w w' =
      ((r.closed ≡ true) × (w' ≡ w))
      ⊎ ((r.closed ≡ false)
          × (((e : Err) × (((lookup_route r name ≡ none) × (e ≡ sentinel route_not_found))
                  ⊎ ((rt : Route E) × (lookup_route r name ≡ some rt)
                      × (bridge_dial_port rt.cfg.port_map ≡ failed e)))
                × (w' ≡ emit_event r (bridge_error name e) w))
              ⊎ ((e : Err) × (w1 : World E) × IsDialed fuel r name (failed e) w w1
                  × (((has_closed w1 ≡ false) × (w' ≡ w1))
                      ⊎ ((has_closed w1 ≡ true) × (w' ≡ close_conn conn w1))))))

  abbrev pub BridgeOutcome : ℕ → Registry E → Text → Conn → World E → Option Conn × World E → Type 0
  BridgeOutcome fuel r name conn w (some upstream, w') =
      (r.closed ≡ false)
      × ((w0 : World E) × IsDialed fuel r name (ok upstream) w w0
          × (((has_closed w0 ≡ false) × (w' ≡ w0))
              ⊎ ((has_closed w0 ≡ true) × (w' ≡ close_conn conn w0))))
  BridgeOutcome fuel r name conn w (none, w') =
      (w0 : World E) × (w' ≡ close_conn conn w0) × IsRefused fuel r name conn w w0

  abbrev Returns : ℕ → Registry E → Text → Conn → World E → Option (Option Conn × World E) → Type 0
  Returns fuel r name conn w o =
      (a : Option Conn × World E) × (o ≡ some a) × BridgeOutcome fuel r name conn w a

  torn_down-cases :
      (conn : Conn) (w : World E)
      → ((has_closed w ≡ false) × (torn_down conn w ≡ w))
        ⊎ ((has_closed w ≡ true) × (torn_down conn w ≡ close_conn conn w))
  torn_down-cases conn w = elim (Bool-cases (has_closed w)) [
    | inl c ↦ inr (c, if_true _ c)
    | inr o ↦ inl (o, if_false _ o)
  ]

  dialed-Returns :
      (fuel : ℕ) (r : Registry E) (name : Text) (conn : Conn) (w : World E) (rt : Route E)
      (port : ℤ) (answer : Result Conn) (w' : World E)
      → r.closed ≡ false
      → lookup_route r name ≡ some rt
      → bridge_dial_port rt.cfg.port_map ≡ ok port
      → dial_route fuel r.cfg.handlers
          (closing_context w)
          rt
          (codes "tcp")
          (bridge_address rt port)
          w
        ≡ some (answer, w')
      → Returns fuel r name conn w (bridge_to fuel r name conn rt (ok port) w)
  dialed-Returns fuel r name conn w rt port (ok u) w' o l p d = (
    (some u, torn_down conn w'),
    ap (Option.map (bridge_dialed conn)) d,
    (o, (w', (rt, port, l, p, d), torn_down-cases conn w')),
  )
  dialed-Returns fuel r name conn w rt port (failed e) w' o l p d = (
    (none, close_conn conn (torn_down conn w')),
    ap (Option.map (bridge_dialed conn)) d,
    (torn_down conn w', refl, inr (o, inr (e, w', (rt, port, l, p, d), torn_down-cases conn w'))),
  )

  to-Returns :
      (fuel : ℕ) (r : Registry E) (name : Text) (conn : Conn) (w : World E) (rt : Route E)
      (port : Result ℤ)
      → r.closed ≡ false
      → lookup_route r name ≡ some rt
      → IsEnough fuel rt w
      → bridge_dial_port rt.cfg.port_map ≡ port
      → Returns fuel r name conn w (bridge_to fuel r name conn rt port w)
  to-Returns fuel r name conn w rt (failed e) o l enough p = (
    bridge_failed r name conn e w,
    refl,
    (emit_event r (bridge_error name e) w, refl, inr (o, inl (e, inr (rt, l, p), refl))),
  )
  to-Returns fuel r name conn w rt (ok port) o l (f, g, enough) p =
      let ((answer, w'), d) =
        dial_route_returns fuel r.cfg.handlers (closing_context w) rt (codes "tcp")
          (bridge_address rt port) w f g enough in
      dialed-Returns fuel r name conn w rt port answer w' o l p d

  -- On enough fuel for the ready timeout of the route, if there is one, bridgeConn comes to an end
  -- of its dial, whatever becomes of it. Either it has the connection
  -- that a dial of the route of that name has given, and the client's connection has been closed if
  -- the registry has closed by then, and not been touched if it has not; or the client's connection is
  -- closed, and then the registry was closed and nothing is said; or there is no such route, or it has
  -- several mapped ports, and one event of a failed dial says so; or the dial of the route has failed,
  -- and the connection has been closed before if the registry has closed meanwhile. Dials and health
  -- checks are taken to return, and not to turn the clock back.
  pub bridge_conn-BridgeOutcome :
      (fuel : ℕ) (r : Registry E) (name : Text) (conn : Conn) (w : World E)
      → ((rt : Route E) → lookup_route r name ≡ some rt → IsEnough fuel rt w)
      → (a : Option Conn × World E) × (bridge_conn fuel r name conn w ≡ some a)
        × BridgeOutcome fuel r name conn w a
  unfolding bridge_conn
  bridge_conn-BridgeOutcome fuel r name conn w enough = elim (Bool-cases r.closed) [
    | inl c ↦ ((none, close_conn conn w), if_true _ c, (w, refl, inl (c, refl)))
    | inr o ↦ elim (Option-cases (lookup_route r name)) [
      | inl n ↦ (
        bridge_failed r name conn (sentinel route_not_found) w,
        if_false _ o ∙ rw n refl,
        (
          emit_event r (bridge_error name (sentinel route_not_found)) w,
          refl,
          inr (o, inl (sentinel route_not_found, inl (n, refl), refl)),
        ),
      )
      | inr (rt, l) ↦
          let (a, e, out) =
            to-Returns fuel r name conn w rt (bridge_dial_port rt.cfg.port_map) o l (enough rt l)
              refl in
          (a, if_false _ o ∙ rw l e, out)
    ]
  ]

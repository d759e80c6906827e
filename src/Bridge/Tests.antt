-- ===== src/Bridge/Tests.antt =====
-- Local listeners at concrete runs.
use go_portless.Common.{
  ◌≡◌, subst, List, Option, some, false, [], ◌∷◌, arith, codes, lookup, text_eq, to_lower,
  lower_byte,
}
use go_portless.Route.{Route}
use go_portless.Errors.{sentinel, net_closed, conn_refused, is, same, tag}
use go_portless.Dial.{Conn, World}
use go_portless.Registry.{lookup_route}
use go_portless.Fixtures.{idle, up_route, one_route}
use go_portless.Bridge.{Accepted, accepted, refused, bridge_conn, bridge_accept}
use go_portless.Bridge.Accepting.{served, conns_until, IsServed, bridge_accept-IsServed}
use go_portless.Bridge.Served.{IsEnough, BridgeOutcome, bridge_conn-BridgeOutcome}

same_route : {p q : Route Unit} → some p ≡ some q → p ≡ q
same_route e = cc

-- A second is enough for the route "db".
db-IsEnough :
    (rt : Route Unit) → lookup_route one_route (codes "db") ≡ some rt → IsEnough 54 rt idle
unfolding lookup_route lookup text_eq to_lower lower_byte
db-IsEnough rt h =
    subst (λ q. IsEnough 54 q idle) (same_route {p = up_route} h)
      ((λ ctx network address w. omega arith), tt, omega arith)

bridge_conn-BridgeOutcome_example :
    (a : Option Conn × World Unit) × (bridge_conn 54 one_route (codes "db") 5 idle ≡ some a)
    × BridgeOutcome 54 one_route (codes "db") 5 idle a
bridge_conn-BridgeOutcome_example =
    bridge_conn-BridgeOutcome 54 one_route (codes "db") 5 idle db-IsEnough

abbrev busy : List Accepted
busy =
    accepted 3
    ∷ refused (sentinel conn_refused) 7 false
    ∷ accepted 4
    ∷ refused (sentinel net_closed) 7 false
    ∷ accepted 5
    ∷ []

busy_conns : served (bridge_accept busy).0 ≡ 3 ∷ 4 ∷ []
unfolding conns_until is same tag
busy_conns = (bridge_accept-IsServed busy).0

bridge_accept-IsServed_example : IsServed busy (bridge_accept busy)
bridge_accept-IsServed_example = bridge_accept-IsServed busy

-- ===== src/Readiness/Tests.antt =====
-- The readiness wait at concrete inputs.
use go_portless.Common.{◌≡◌, refl, Option, none, some, [], ◌∷◌, arith, codes}
use go_portless.Dial.{Result, ok, World, background, Conn}
use go_portless.Readiness.{dial_route, dial_loop, settle, gate, ready_context, try}
use go_portless.Fixtures.{idle, up_route, down_route}
use go_portless.Readiness.Termination.{dial_route_returns}
use go_portless.Readiness.Outcome.{Explained, dial_route-Explained}

-- A second of waiting for a backend that refuses.
dial_route_returns_example :
    (r : Result Conn × World Unit) × (dial_route 54
        (1 ∷ [])
        background
        down_route
        (codes "tcp")
        (codes "db:1")
        idle
      ≡ some r)
dial_route_returns_example =
    dial_route_returns 54 (1 ∷ []) background down_route (codes "tcp") (codes "db:1") idle
      (λ ctx network address w. omega arith) tt (omega arith)

abbrev result_of : Option (Result Conn × World Unit) → Result Conn × World Unit
result_of none = (ok 0, idle)
result_of (some r) = r

at_once_runs :
    dial_route 1 (1 ∷ []) background up_route (codes "tcp") (codes "db:1") idle
    ≡ some (result_of (dial_route 1 (1 ∷ []) background up_route (codes "tcp") (codes "db:1") idle))
unfolding dial_route dial_loop settle try gate
at_once_runs = refl

dial_route-Explained_example :
    Explained
      (1 ∷ [])
      (ready_context background up_route idle.now)
      up_route
      (codes "tcp")
      (codes "db:1")
      idle.now
      (result_of (dial_route 1 (1 ∷ []) background up_route (codes "tcp") (codes "db:1") idle))
dial_route-Explained_example =
    dial_route-Explained 1 (1 ∷ []) background up_route (codes "tcp") (codes "db:1") idle
      (result_of (dial_route 1 (1 ∷ []) background up_route (codes "tcp") (codes "db:1") idle))
      at_once_runs

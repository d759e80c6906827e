-- ===== src/Registry/Tests.antt =====
-- The registry's operations at concrete inputs.
use go_portless.Common.{
  ◌≡◌, refl, Option, none, some, List, [], ◌∷◌, codes, text_eq, lower_byte, to_lower, lookup,
}
use go_portless.Errors.{sentinel, closed}
use go_portless.HostRule.{validate_host_rewrite}
use go_portless.Options.{configure_route}
use go_portless.Dial.{RouteConfig, ok, failed, background}
use go_portless.Route.{Route, build}
use go_portless.Registry.{
  Added, reserve, publish, run_action, add_route, mark_rewrites, add_checked, add,
}
use go_portless.Registry.Ops.{close, add_ready}
use go_portless.Options
use go_portless.Readiness
use go_portless.Dial
use go_portless.Errors
use go_portless.Backoff
use go_portless.Route
use go_portless.Fixtures.{idle, up_dial, down_dial, backend_of, up_route, empty_registry, one_route}
use go_portless.Registry.Sequential.{AddOutcome, add-AddOutcome}
use go_portless.Registry.Final.{IsFinished, close-IsFinished}

add-AddOutcome_example :
    AddOutcome empty_registry
      (to_lower (codes "Db"))
      (add empty_registry background (codes "Db") (some (backend_of up_dial)) [] idle)
add-AddOutcome_example =
    add-AddOutcome empty_registry background (codes "Db") (some (backend_of up_dial)) [] idle

-- A readiness wait of one nanosecond, for a backend that refuses.
abbrev hurried : List (RouteConfig Unit → RouteConfig Unit)
hurried = (λ cfg. record cfg { ready_timeout = 1 }) ∷ []

abbrev result_of : Option (Added Unit) → Added Unit
result_of none = (empty_registry, failed (sentinel closed), idle)
result_of (some a) = a

abbrev hurried_result : Added Unit
hurried_result =
    result_of (
      add_ready 3 empty_registry background (codes "DB") (some (backend_of down_dial)) hurried idle)

name_taken : lookup (to_lower (codes "DB")) one_route.routes ≡ some (some up_route)
unfolding lookup to_lower text_eq lower_byte
name_taken = refl

close-IsFinished_example : IsFinished (close one_route idle).0
close-IsFinished_example = close-IsFinished one_route idle refl

abbrev added : Added Unit
added = add empty_registry background (codes "db") (some (backend_of down_dial)) [] idle

abbrev down_db : Route Unit
down_db = build (codes "db") (backend_of down_dial) (configure_route 1000000000 []) []

added_runs : added ≡ (added.0, ok down_db, added.2)
unfolding add add_checked validate_host_rewrite configure_route Options.apply add_route reserve
    mark_rewrites lookup run_action publish build
added_runs = refl

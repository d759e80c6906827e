-- ===== src/Control/Tests.antt =====
-- The control API at concrete requests.
use go_portless.Common.{
  Text, true, ◌≡◌, refl, ◌↔◌, false, Option, none, some, List, [], ◌∷◌, arith, codes, text_eq,
  lower_byte, to_lower, Dict, lookup, delete, insert,
}
use go_portless.Errors.{route_exists, route_not_found, sentinel, closed}
use go_portless.HostRule.{validate_host_rewrite}
use go_portless.Options.{configure, configure_route}
use go_portless.Dial.{Result, ok, failed, background}
use go_portless.Route.{Route, build}
use go_portless.Registry.{
  new_registry, lookup_route, reserve, publish, run_action, add_route, mark_rewrites, add_checked,
  add,
}
use go_portless.Registry.Ops.{take, remove}
use go_portless.Fixtures.{idle, up_dial, backend_of, up_route, one_route}
use go_portless.Control.{
  RouteSpec, Server, Factory, new_server, handle_add_route, handle_remove_route,
}
use go_portless.Options
use go_portless.Control.Client.{read_reply}
use go_portless.Backends.Parse.{Url}
use go_portless.Control.Factories.{tcp_factory}
use go_portless.Control.Wire.{finds, error_of, add_over_wire}
use go_portless.Control.Specs.{ApiCall, api_add, api_remove, api_calls, IsFiled, routes-IsFiled}

abbrev tcp : Factory Unit
tcp config = ok (backend_of up_dial)

abbrev factories : Dict (Factory Unit)
factories = (codes "tcp", tcp) ∷ []

abbrev db_spec : RouteSpec
db_spec = record { name = codes "db"; kind = codes "tcp"; config = codes "{}" }

abbrev server : Server Unit
server = record { reg = one_route; proxy_addr = []; started_at = 0; specs = [] }

-- The name is taken.
add_over_wire_example :
    let reply = (handle_add_route factories server background (ok db_spec) idle).1 in
    let read = read_reply (codes "POST") (codes "/v1/routes") [] (ok reply) in
    let answer =
      error_of (add server.reg background (codes "db") (some (backend_of up_dial)) [] idle).1 in
    (finds route_exists read ≡ finds route_exists answer)
    × (finds route_not_found read ≡ false)
    × ((read ≡ none) ↔ (answer ≡ none))
unfolding lookup text_eq
add_over_wire_example =
    add_over_wire factories tcp server background db_spec (backend_of up_dial) idle (codes "POST")
      (codes "/v1/routes") [] (λ e. ground arith) (λ e. ground arith) refl refl

-- A decoder that takes the configuration for the address, and a url.Parse that reads no URL.
abbrev no_urls : Text → Result Url
no_urls s = failed (sentinel closed)

abbrev built_in : Factory Unit
built_in = tcp_factory 1 up_dial ok no_urls (λ port. true)

abbrev local_spec : RouteSpec
local_spec = record { name = codes "db"; kind = codes "tcp"; config = codes "127.0.0.1:5432" }

abbrev session : List (ApiCall Unit)
session = api_add factories background (ok db_spec) ∷ api_remove background (codes "web") ∷ []

abbrev served : Server Unit
served = (api_calls session (new_server (new_registry []) [] 0, idle)).0

abbrev route_or : Route Unit → Option (Route Unit) → Route Unit
route_or rt none = rt
route_or rt (some q) = q

db_found :
    lookup_route served.reg (codes "DB")
    ≡ some (route_or up_route (lookup_route served.reg (codes "DB")))
unfolding lookup_route new_server new_registry lookup handle_remove_route remove take
    handle_add_route text_eq add add_checked validate_host_rewrite configure_route Options.apply
    add_route reserve mark_rewrites run_action build publish insert delete to_lower lower_byte
    configure
db_found = refl

routes-IsFiled_example : IsFiled served (codes "DB")
routes-IsFiled_example =
    routes-IsFiled [] [] 0 idle session (codes "DB")
      (route_or up_route (lookup_route served.reg (codes "DB"))) db_found

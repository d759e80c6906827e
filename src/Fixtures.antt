-- ===== src/Fixtures.antt =====
-- Concrete worlds, backends, routes and registries that the tests share.
use go_portless.Common.{true, false, Option, none, some, [], ◌∷◌, codes, Dict}
use go_portless.Errors.{errorf, sentinel, conn_refused}
use go_portless.Dial.{DialFunc, HealthCheck, Backend, RouteConfig, ok, failed, World}
use go_portless.Route.{Route}
use go_portless.Registry.{Registry}

abbrev pub World0 : Type 0
World0 = World Unit

abbrev pub idle : World0
idle = record {
  now = 1000;
  log = [];
  closed_conns = [];
  close_error = λ c. none;
  closes_at = none;
  draw = λ n. n;
  env = tt;
}

-- A server that answers with connection 7, and one that refuses.
abbrev pub up_dial : DialFunc Unit
up_dial ctx network address w = (ok 7, w)

abbrev pub down_dial : DialFunc Unit
down_dial ctx network address w = (failed (sentinel conn_refused), w)

abbrev pub ill : HealthCheck Unit
ill ctx d w = (some (errorf "warming up" []), w)

abbrev pub backend_of : DialFunc Unit → Backend Unit
backend_of d = record {
  number = 1;
  dial_context = d;
  start = none;
  stop = none;
  addr = none;
  set_event_sink = none;
}

abbrev pub plain_config : RouteConfig Unit
plain_config = record {
  ready_timeout = 1000000000;
  middleware = [];
  health = none;
  port_map = [];
  host_rewrite = [];
}

abbrev pub route_of : DialFunc Unit → RouteConfig Unit → Route Unit
route_of d cfg = record { name = codes "db"; backend = backend_of d; cfg = cfg; dial = d }

abbrev pub up_route : Route Unit
up_route = route_of up_dial plain_config

abbrev pub down_route : Route Unit
down_route = route_of down_dial plain_config

abbrev pub ill_route : Route Unit
ill_route = route_of up_dial (record plain_config { health = some ill })

abbrev pub rewriting_route : Route Unit
rewriting_route = route_of up_dial (record plain_config { host_rewrite = codes "example.org" })

abbrev pub with_routes : Dict (Option (Route Unit)) → Registry Unit
with_routes rts = record {
  cfg = record {
    fallback = none;
    force_strict = false;
    ready_timeout = 1000000000;
    middleware = [];
    handlers = 1 ∷ [];
  };
  routes = rts;
  closed = false;
  bridges = record { ls = []; closed = false };
  done = false;
  has_rewrites = true;
}

abbrev pub empty_registry : Registry Unit
empty_registry = with_routes []

abbrev pub one_route : Registry Unit
one_route = with_routes ((codes "db", some up_route) ∷ [])

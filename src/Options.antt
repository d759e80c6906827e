-- ===== src/Options.antt =====
-- options.go: the options of a registry and of a route, as functions on their configurations.
pub mod Strict
pub mod Health
use go_portless.Common.{
  ℕ, ◌+◌, true, false, Option, none, some, List, [], ◌∷◌, ◌++◌, if◌then◌else◌, Text,
}
use go_portless.Net.{ℤ}
use go_portless.Dial.{DialFunc, Middleware, HealthCheck, RouteConfig, Config}

-- `for _, o := range opts { o(&cfg) }`
unfoldable pub apply {ℓ} : {C : Type ℓ} → List (C → C) → C → C
apply [] c = c
apply (o ∷ os) c = apply os (o c)

module _ {E : Type 0} where
  -- WithFallback; `plain` is the dialer that stands for nil.
  unfoldable pub with_fallback : DialFunc E → Option (DialFunc E) → Config E → Config E
  with_fallback plain none c = record c { fallback = some plain }
  with_fallback plain (some d) c = record c { fallback = some d }

  unfoldable pub with_strict : Config E → Config E
  with_strict c = record c { force_strict = true }

  unfoldable pub with_ready_timeout : ℕ → Config E → Config E
  with_ready_timeout d c = record c { ready_timeout = d }

  unfoldable pub with_middleware : List (Middleware E) → Config E → Config E
  with_middleware ms c = record c { middleware = c.middleware ++ ms }

  unfoldable pub with_event_handler : ℕ → Config E → Config E
  with_event_handler h c = record c { handlers = c.handlers ++ h ∷ [] }

  abbrev pub default_config : Config E
  default_config = record {
    fallback = none;
    force_strict = false;
    ready_timeout = 60000000000;
    middleware = [];
    handlers = [];
  }

  -- The configuration that New keeps: the deprecated WithStrict wins over every fallback.
  unfoldable pub configure : List (Config E → Config E) → Config E
  configure options =
      let c = apply options default_config in
      if c.force_strict then record c { fallback = none } else c

  unfoldable pub route_with_ready_timeout : ℕ → RouteConfig E → RouteConfig E
  route_with_ready_timeout d c = record c { ready_timeout = d }

  unfoldable pub route_with_middleware : List (Middleware E) → RouteConfig E → RouteConfig E
  route_with_middleware ms c = record c { middleware = c.middleware ++ ms }

  unfoldable pub route_with_health_check : HealthCheck E → RouteConfig E → RouteConfig E
  route_with_health_check h c = record c { health = some h }

  unfoldable pub route_with_host_rewrite : Text → RouteConfig E → RouteConfig E
  route_with_host_rewrite host c = record c { host_rewrite = host }

  unfoldable pub route_with_port_map : List (ℤ × ℤ) → RouteConfig E → RouteConfig E
  route_with_port_map m c = record c { port_map = m }

  -- The configuration that Add starts from, and what the route's options make of it.
  unfoldable pub configure_route : ℕ → List (RouteConfig E → RouteConfig E) → RouteConfig E
  configure_route ready_timeout options = apply options (record {
    ready_timeout = ready_timeout;
    middleware = [];
    health = none;
    port_map = [];
    host_rewrite = [];
  })

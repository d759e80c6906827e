-- ===== src/Control.antt =====
-- control/server.go and control/spec.go: the handlers of the control API, over the registry, and
-- the table of backend factories. A request's body and query stand as what the decoder makes of
-- them, and a response as its status, its error code and the error whose text it carries.
pub mod Socket
pub mod Client
pub mod Specs
pub mod Wire
pub mod Factories
mod Tests
use go_portless.Common.{
  ℕ, ◌-◌, ◌/◌, ◌%◌, ◌||◌, Option, none, some, List, [], ◌∷◌, map, if◌then◌else◌, length, Text,
  codes, text_eq, to_lower, Dict, lookup, delete, insert,
}
use mathlib.Core.Option as Option
use go_portless.Route as RouteOf
use go_portless.Errors.{
  Err, errorf, wrap, sentinel, route_exists, route_not_found, is, deadline_exceeded,
}
use go_portless.Dial.{Backend, Result, ok, failed, World, Context, with_timeout_cause}
use go_portless.Route.{Route}
use go_portless.Registry.{Registry, Added, lookup_route, published_routes, add}
use go_portless.Registry.Ops.{remove, route_ready}

-- RouteSpec; the configuration is raw JSON.
pub record RouteSpec : Type 0 where
  pub name : Text
  pub kind : Text
  pub config : Text

-- RouteInfo; an address that is left out is `none`.
pub record RouteInfo : Type 0 where
  pub name : Text
  pub kind : Text
  pub address : Option Text
  pub config : Text

pub record Status : Type 0 where
  pub pid : ℕ
  pub version : Text
  pub proxy_addr : Text
  pub route_count : ℕ
  pub uptime_sec : ℕ

-- A response without a body has the empty code.
pub record Reply : Type 0 where
  pub status : ℕ
  pub code : Text
  pub error : Option Err

abbrev pub code_route_exists : Text
code_route_exists = codes "route_exists"

abbrev pub code_route_not_found : Text
code_route_not_found = codes "route_not_found"

abbrev pub code_not_ready : Text
code_not_ready = codes "not_ready"

abbrev pub code_bad_request : Text
code_bad_request = codes "bad_request"

abbrev pub code_internal : Text
code_internal = codes "internal"

-- httpError, and WriteHeader of a response without a body.
abbrev pub http_error : ℕ → Text → Err → Reply
http_error status code e = record { status = status; code = code; error = some e }

abbrev pub write_header : ℕ → Reply
write_header status = record { status = status; code = []; error = none }

-- BackendFactory
abbrev pub Factory : Type 0 → Type 0
Factory E = Text → Result (Backend E)

pub record Server (E : Type 0) : Type 0 where
  pub reg : Registry E
  pub proxy_addr : Text
  pub started_at : ℕ
  pub specs : Dict RouteSpec

abbrev pub info_of : Option RouteSpec → Text → Option Text → RouteInfo
info_of none name address = record {
  name = name;
  kind = codes "custom";
  address = address;
  config = [];
}
info_of (some spec) name address = record {
  name = name;
  kind = spec.kind;
  address = address;
  config = spec.config;
}

-- The context of the wait: `none` stands for no timeout in the query, and the duration that
-- ParseDuration reads is not negative.
abbrev pub ready_within : Context → ℕ → Option (Result ℕ) → Result Context
ready_within ctx now none = ok ctx
ready_within ctx now (some (failed e)) = failed (wrap "bad timeout: %w" [] e)
ready_within ctx now (some (ok d)) = ok (with_timeout_cause ctx now d (sentinel deadline_exceeded))

module _ {E : Type 0} where
  -- RegisterBackendType; a type that is taken makes it panic, the `none` here.
  unfoldable pub register_backend_type :
      Text → Factory E → Dict (Factory E) → Option (Dict (Factory E))
  register_backend_type kind f factories = elim (lookup kind factories) [
    | some g ↦ none
    | none ↦ some (insert kind f factories)
  ]

  -- NewServer
  unfoldable pub new_server : Registry E → Text → ℕ → Server E
  new_server r proxy_addr now = record {
    reg = r;
    proxy_addr = proxy_addr;
    started_at = now;
    specs = [];
  }

  unfoldable pub handle_status : ℕ → Text → Server E → World E → Status
  handle_status pid version s w = record {
    pid = pid;
    version = version;
    proxy_addr = s.proxy_addr;
    route_count = length (published_routes s.reg.routes);
    uptime_sec = (w.now - s.started_at) / 1000000000;
  }

  unfoldable pub infos : Dict RouteSpec → List (Route E) → World E → List RouteInfo
  infos specs [] w = []
  infos specs (rt ∷ rts) w =
      info_of (lookup (to_lower rt.name) specs) rt.name (RouteOf.addr rt w) ∷ infos specs rts w

  unfoldable pub handle_list_routes : Server E → World E → List RouteInfo
  handle_list_routes s w = infos s.specs (published_routes s.reg.routes) w

  -- Once Add has answered.
  abbrev pub add_replied : Server E → RouteSpec → Added E → Server E × Reply × World E
  add_replied s spec (r, failed e, w) = (
    record s { reg = r },
    if is route_exists e
        then http_error 409 code_route_exists e
        else http_error 500 code_internal e,
    w,
  )
  add_replied s spec (r, ok rt, w) =
      (record s { reg = r; specs = insert (to_lower spec.name) spec s.specs }, write_header 201, w)

  abbrev pub add_built :
      Server E → Context → RouteSpec → Result (Backend E) → World E → Server E × Reply × World E
  add_built s ctx spec (failed e) w = (s, http_error 400 code_bad_request e, w)
  add_built s ctx spec (ok b) w = add_replied s spec (add s.reg ctx spec.name (some b) [] w)

  abbrev pub add_made :
      Server E → Context → RouteSpec → Option (Factory E) → World E → Server E × Reply × World E
  add_made s ctx spec none w =
      (s, http_error 400 code_bad_request (errorf "unknown backend type %q" (spec.kind ∷ [])), w)
  add_made s ctx spec (some factory) w = add_built s ctx spec (factory spec.config) w

  -- handleAddRoute, from what the JSON decoder makes of the body.
  unfoldable pub handle_add_route :
      Dict (Factory E)
      → Server E
      → Context
      → Result RouteSpec
      → World E
      → Server E × Reply × World E
  handle_add_route factories s ctx (failed e) w =
      (s, http_error 400 code_bad_request (wrap "decode spec: %w" [] e), w)
  handle_add_route factories s ctx (ok spec) w =
      if text_eq spec.name [] || text_eq spec.kind []
      then (s, http_error 400 code_bad_request (errorf "spec requires name and type" []), w)
      else add_made s ctx spec (lookup spec.kind factories) w

  abbrev pub remove_replied :
      Server E → Text → Registry E × Option Err × World E → Server E × Reply × World E
  remove_replied s name (r, some e, w) = (
    record s { reg = r },
    if is route_not_found e
        then http_error 404 code_route_not_found e
        else http_error 500 code_internal e,
    w,
  )
  remove_replied s name (r, none, w) =
      (record s { reg = r; specs = delete (to_lower name) s.specs }, write_header 204, w)

  -- handleRemoveRoute
  unfoldable pub handle_remove_route :
      Server E → Context → Text → World E → Server E × Reply × World E
  handle_remove_route s ctx name w = remove_replied s name (remove s.reg ctx name w)

  abbrev pub ready_replied : Option Err × World E → Reply × World E
  ready_replied (none, w) = (write_header 200, w)
  ready_replied (some e, w) = (
    if is deadline_exceeded e
        then http_error 504 code_not_ready e
        else http_error 502 code_not_ready e,
    w,
  )

  abbrev pub ready_waited :
      ℕ → Server E → Route E → Result Context → World E → Option (Reply × World E)
  ready_waited fuel s rt (failed e) w = some (http_error 400 code_bad_request e, w)
  ready_waited fuel s rt (ok ctx) w = Option.map ready_replied (route_ready fuel s.reg ctx rt w)

  abbrev pub ready_found :
      ℕ
      → Server E
      → Context
      → Text
      → Option (Result ℕ)
      → Option (Route E)
      → World E
      → Option (Reply × World E)
  ready_found fuel s ctx name timeout none w = some (
    http_error 404 code_route_not_found
        (wrap "route %q: %w" (name ∷ []) (sentinel route_not_found)),
    w,
  )
  ready_found fuel s ctx name timeout (some rt) w =
      ready_waited fuel s rt (ready_within ctx w.now timeout) w

  -- handleReady, on the fuel of its readiness wait.
  unfoldable pub handle_ready :
      ℕ → Server E → Context → Text → Option (Result ℕ) → World E → Option (Reply × World E)
  handle_ready fuel s ctx name timeout w =
      ready_found fuel s ctx name timeout (lookup_route s.reg name) w

-- ===== src/Registry.antt =====
-- registry.go: the registry and its operations, New, Add, AddReady, Remove, Lookup, Routes, Close,
-- DialContext; the bridge set of listenlocal.go, and the options of options.go.
-- Each part of an operation that the source runs under the lock is a function of its own
-- (`reserve`, `publish`, `release_name`, `take`, `shut`); the operation is their sequence.
pub mod Ops
pub mod Sequential
pub mod Transaction
pub mod Returning
pub mod Final
pub mod Bootstrap
mod Tests
pub mod Lifecycle
use go_portless.Common.{
  ℕ, ◌%◌, Bool, true, false, not, ◌||◌, Option, none, some, List, [], ◌∷◌, if◌then◌else◌, Text,
  text_eq, to_lower, Dict, lookup, delete, insert,
}
use go_portless.Errors.{Err, errorf, wrap, sentinel, closed, route_exists}
use go_portless.Options.{configure, configure_route}
use go_portless.HostRule.{validate_host_rewrite}
use go_portless.Dial.{
  Backend, Action, RouteConfig, Config, Result, ok, failed, World, Context, background, Event,
  plain_event, event_route_added, emit,
}
use go_portless.Route.{Route, build}

-- bridgeSet: the local listeners, by number.
pub record BridgeSet : Type 0 where
  pub ls : List ℕ
  pub closed : Bool

-- The pooled HTTP transport and client are left out. A name that is reserved and not yet
-- published has the entry `none`, the nil of the source.
pub record Registry (E : Type 0) : Type 0 where
  pub cfg : Config E
  pub routes : Dict (Option (Route E))
  pub closed : Bool
  pub bridges : BridgeSet
  pub done : Bool
  pub has_rewrites : Bool

-- The registry, what Add returns, and the world after it.
abbrev pub Added : Type 0 → Type 0
Added E = Registry E × Result (Route E) × World E

module _ {E : Type 0} where
  -- New
  unfoldable pub new_registry : List (Config E → Config E) → Registry E
  new_registry options = record {
    cfg = configure options;
    routes = [];
    closed = false;
    bridges = record { ls = []; closed = false };
    done = false;
    has_rewrites = false;
  }

  -- Lookup: a reserved name is not found.
  abbrev pub published : Option (Option (Route E)) → Option (Route E)
  published none = none
  published (some entry) = entry

  unfoldable pub lookup_route : Registry E → Text → Option (Route E)
  lookup_route r name = published (lookup (to_lower name) r.routes)

  -- Routes, in the order of the map.
  unfoldable pub published_routes : Dict (Option (Route E)) → List (Route E)
  published_routes [] = []
  published_routes ((k, none) ∷ m) = published_routes m
  published_routes ((k, some rt) ∷ m) = rt ∷ published_routes m

  unfoldable pub emit_event : Registry E → Event → World E → World E
  emit_event r e w = emit r.cfg.handlers e w

  -- The lock sections of Add: the name is reserved before Start, ...
  abbrev pub reserve_in :
      Bool → Option (Option (Route E)) → Registry E → Text → Text → Result (Registry E)
  reserve_in true entry r key name = failed (sentinel closed)
  reserve_in false (some entry) r key name =
      failed (wrap "portless: add %q: %w" (name ∷ []) (sentinel route_exists))
  reserve_in false none r key name = ok (record r { routes = insert key none r.routes })

  unfoldable pub reserve : Registry E → Text → Text → Result (Registry E)
  reserve r key name = reserve_in r.closed (lookup key r.routes) r key name

  -- ... freed if Start fails, ...
  unfoldable pub release_name : Registry E → Text → Registry E
  release_name r key = record r { routes = delete key r.routes }

  -- ... and published after it, unless the registry was closed meanwhile.
  abbrev pub publish_in : Bool → Registry E → Text → Route E → Registry E × Bool
  publish_in true r key rt = (record r { routes = delete key r.routes }, false)
  publish_in false r key rt = (record r { routes = insert key (some rt) r.routes }, true)

  unfoldable pub publish : Registry E → Text → Route E → Registry E × Bool
  publish r key rt = publish_in r.closed r key rt

  -- The sink that a backend is given names the route in the events that name none.
  unfoldable pub sink : Registry E → Text → Event → World E → World E
  sink r name e w = emit_event r (if text_eq e.route [] then record e { route = name } else e) w

  abbrev pub wire_sink :
      Option ((Event → World E → World E) → World E → World E)
      → (Event → World E → World E)
      → World E
      → World E
  wire_sink none s w = w
  wire_sink (some set) s w = set s w

  -- A Starter's Start or a Stopper's Stop; a backend without it succeeds.
  unfoldable pub run_action : Option (Action E) → Action E
  run_action none ctx w = (none, w)
  run_action (some a) ctx w = a ctx w

  abbrev pub finish_add : Registry E × Bool → Text → Route E → World E → Added E
  finish_add (r, true) name rt w =
      (r, ok rt, emit_event r (plain_event event_route_added name []) w)
  finish_add (r, false) name rt w =
      (r, failed (sentinel closed), (run_action rt.backend.stop background w).1)

  abbrev pub started : Registry E → Text → Text → Route E → Option Err × World E → Added E
  started r key name rt (some e, w) =
      (release_name r key, failed (wrap "portless: start backend for %q: %w" (name ∷ []) e), w)
  started r key name rt (none, w) = finish_add (publish r key rt) name rt w

  abbrev pub reserved :
      Registry E → Context → Text → Text → Route E → World E → Result (Registry E) → Added E
  reserved r ctx key name rt w (failed e) = (r, failed e, w)
  reserved r ctx key name rt w (ok r') =
      started r' key name rt
        (run_action rt.backend.start ctx (wire_sink rt.backend.set_event_sink (sink r' name) w))

  -- hasRewrites is set before the name is known to be free, and never cleared.
  unfoldable pub mark_rewrites : Registry E → Route E → Registry E
  mark_rewrites r rt = record r {
    has_rewrites = r.has_rewrites || not (text_eq rt.cfg.host_rewrite []);
  }

  -- Add from the point where the options have been applied and the rewrite checked.
  unfoldable pub add_route : Registry E → Context → Text → Route E → World E → Added E
  add_route r ctx name rt w =
      let marked = mark_rewrites r rt in
      reserved marked ctx (to_lower name) name rt w (reserve marked (to_lower name) name)

  abbrev pub checked : Option Err → Registry E → Context → Text → Route E → World E → Added E
  checked (some e) r ctx name rt w = (r, failed (wrap "portless: add %q: %w" (name ∷ []) e), w)
  checked none r ctx name rt w = add_route r ctx name rt w

  unfoldable pub add_checked :
      Registry E → Context → Text → Backend E → RouteConfig E → World E → Added E
  add_checked r ctx name b cfg w =
      checked (validate_host_rewrite cfg.host_rewrite) r ctx name
        (build name b cfg r.cfg.middleware) w

  -- Add, where a backend that is nil is `none`.
  unfoldable pub add :
      Registry E
      → Context
      → Text
      → Option (Backend E)
      → List (RouteConfig E → RouteConfig E)
      → World E
      → Added E
  add r ctx [] b options w = (r, failed (errorf "portless: route name must not be empty" []), w)
  add r ctx (c ∷ name) none options w =
      (r, failed (errorf "portless: backend must not be nil" []), w)
  add r ctx (c ∷ name) (some b) options w =
      add_checked r ctx (c ∷ name) b (configure_route r.cfg.ready_timeout options) w

-- ===== src/Registry/Bootstrap.antt =====
-- registry.go: Registry.Ready, which waits until several routes, or all of them, accept connections.
pub mod Up
mod Tests
use go_portless.Common.{
  ℕ, zero, suc, ◌-◌, ◌*◌, ◌<◌, ◌≡◌, refl, sym, ◌∙◌, ◌↔◌, ◌⊎◌, inl, inr, Bool, true, false, ◌||◌,
  Option, none, some, List, [], ◌∷◌, arith, Text, codes, Bool-cases, Option-cases, found_nothing,
  ap,
}
use mathlib.Core.Option
use go_portless.Errors.{Err, Sentinel, wrap, joined, sentinel, route_not_found, is}
use go_portless.Net.{itoa, join_host_port}
use go_portless.Dial.{Result, ok, failed, World, Context, Conn}
use go_portless.Route.{Route, ready_port}
use go_portless.Readiness.{dial_route}
use go_portless.Readiness.Termination.{
  IsForward, IsForwardCheck, latest, shortest_wait, dial_route_returns,
}
use go_portless.Registry.{Registry, lookup_route, published_routes}
use go_portless.Registry.Ops.{join_errs, discard, route_ready}

abbrev pub present : List (Option Err) → List Err
present [] = []
present (none ∷ errs) = present errs
present (some e ∷ errs) = e ∷ present errs

abbrev pub first_error :
    Option (Option Err) → Option (List (Option Err)) → Option (List (Option Err))
first_error none rest = none
first_error (some e) none = none
first_error (some e) (some es) = some (e ∷ es)

abbrev pub joined_errs : List (Option Err) → Option Err
joined_errs errs = join_errs (present errs)

module _ {E : Type 0} where
  abbrev pub onto_routes :
      Text → Option (Route E) → Result (List (Route E)) → Result (List (Route E))
  onto_routes name none rest =
      failed (wrap "portless: ready %q: %w" (name ∷ []) (sentinel route_not_found))
  onto_routes name (some rt) (failed e) = failed e
  onto_routes name (some rt) (ok rts) = ok (rt ∷ rts)

  unfoldable pub named_routes : Registry E → List Text → Result (List (Route E))
  named_routes r [] = ok []
  named_routes r (name ∷ names) = onto_routes name (lookup_route r name) (named_routes r names)

  -- The routes that Ready waits for: all of them when there are no names.
  abbrev pub ready_routes : Registry E → List Text → Result (List (Route E))
  ready_routes r [] = ok (published_routes r.routes)
  ready_routes r (name ∷ names) = named_routes r (name ∷ names)

  abbrev pub wait_error : Route E → Option Err × World E → Option Err
  wait_error rt (none, w) = none
  wait_error rt (some e, w) = some (wrap "route %q: %w" (rt.name ∷ []) e)

  -- The errors of the goroutines; the one at place i waits in the world `worlds i`, which is
  -- whatever the others have made of it.
  unfoldable pub wait_each :
      ℕ → Registry E → Context → (ℕ → World E) → List (Route E) → Option (List (Option Err))
  wait_each fuel r ctx worlds [] = some []
  wait_each fuel r ctx worlds (rt ∷ rts) =
      first_error (Option.map (wait_error rt) (route_ready fuel r ctx rt (worlds 0)))
        (wait_each fuel r ctx (λ i. worlds (suc i)) rts)

  abbrev pub waited :
      ℕ → Registry E → Context → (ℕ → World E) → Result (List (Route E)) → Option (Option Err)
  waited fuel r ctx worlds (failed e) = some (some e)
  waited fuel r ctx worlds (ok rts) = Option.map joined_errs (wait_each fuel r ctx worlds rts)

  -- Ready, on the fuel of each of its waits.
  unfoldable pub ready : ℕ → Registry E → Context → (ℕ → World E) → List Text → Option (Option Err)
  ready fuel r ctx worlds names = waited fuel r ctx worlds (ready_routes r names)

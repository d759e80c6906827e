-- ===== src/Registry/Returning.antt =====
-- AddReady returns.
use go_portless.Common.{
  ℕ, ◌-◌, ◌*◌, ◌<◌, ◌≡◌, refl, ap, ◌∙◌, Option, none, some, List, Text, codes, found_nothing,
}
use go_portless.Net.{itoa, join_host_port}
use go_portless.Dial.{Backend, RouteConfig, Result, ok, World, Context, Conn}
use go_portless.Route.{Route, ready_port}
use go_portless.Readiness.{dial_route}
use go_portless.Registry.{Registry, Added, add}
use go_portless.Registry.Ops.{discard, route_ready, settled, await_ready, add_ready}
use mathlib.Core.Option as Option
use go_portless.Readiness.Termination.{
  IsForward, IsForwardCheck, latest, shortest_wait, dial_route_returns,
}

module _ {E : Type 0} where
  settled-some :
      (r : Registry E) (name : Text) (rt : Route E) (o : Option (Result Conn × World E))
      (answer : Result Conn × World E)
      → o ≡ some answer
      → (a : Added E) × (Option.map (settled r name rt) (Option.map discard o) ≡ some a)
  settled-some r name rt none answer e = found_nothing refl e
  settled-some r name rt (some found) answer e = (settled r name rt (discard found), refl)

  -- AddReady of a route that Add accepts always returns: one attempt for each 18.75 ms to the
  -- caller's deadline, or to the route's ready timeout where the caller has none, and one more,
  -- are enough. Dials and health checks are taken to return and not to turn the clock back.
  pub add_ready_returns :
      (fuel : ℕ) (r r' : Registry E) (ctx : Context) (name : Text) (b : Option (Backend E))
      (options : List (RouteConfig E → RouteConfig E)) (w w' : World E) (rt : Route E)
      → add r ctx name b options w ≡ (r', ok rt, w')
      → IsForward rt.dial
      → IsForwardCheck rt.cfg.health
      → latest ctx.deadline rt.cfg.ready_timeout w'.now - w'.now < fuel * shortest_wait
      → (a : Added E) × (add_ready fuel r ctx name b options w ≡ some a)
  unfolding add_ready route_ready
  add_ready_returns fuel r r' ctx name b options w w' rt added f g enough =
      let address = join_host_port rt.name (itoa (ready_port rt.cfg.port_map)) in
      let (answer, e) =
        dial_route_returns fuel r'.cfg.handlers ctx rt (codes "tcp") address w' f g enough in
      let (a, q) =
        settled-some r' name rt (dial_route fuel r'.cfg.handlers ctx rt (codes "tcp") address w')
          answer e in
      (a, ap (await_ready fuel ctx name) added ∙ q)

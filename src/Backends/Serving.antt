-- ===== src/Backends/Serving.antt =====
-- What ListenAndAdd does to the registry and to its listener, and the two lives of a future
-- backend.
use go_portless.Common.{
  ℕ, ◌≡◌, refl, ◌⊎◌, inl, inr, true, none, some, List, [], ◌∷◌, Text, to_lower, lookup,
}
use go_portless.Errors.{Err, is_retryable, as_retryable}
use go_portless.Dial.{DialFunc, RouteConfig, Result, ok, failed, World, Context, Conn}
use go_portless.Route.{Route}
use go_portless.Registry.{Registry, Added}
use go_portless.Route as RouteOf
use go_portless.Registry.Sequential.{AddOutcome, SameRoutes, Publishes, add-AddOutcome}
use go_portless.Backends.{
  tcp_backend, future_backend, dial_once_set, address_once_set, Listened, listen_added,
  listen_and_add,
}

module _ {E : Type 0} where
  -- On success the listener stays open and the name, which was free, has a route; on an error no
  -- listener is left open and no name means another route than before.
  abbrev pub ListenOutcome : Registry E → Text → Result (ℕ × Text) → Listened E → Type 0
  ListenOutcome r key (failed d) (r', answer, closes, w) =
      (r' ≡ r) × (closes ≡ []) × ((e : Err) × (answer ≡ failed e))
  ListenOutcome r key (ok (l, address)) (r', ok l', closes, w) =
      (l' ≡ l)
      × (closes ≡ [])
      × (lookup key r.routes ≡ none)
      × ((rt : Route E) × Publishes r r' key rt)
  ListenOutcome r key (ok (l, address)) (r', failed e, closes, w) =
      (closes ≡ l ∷ []) × SameRoutes r r'

  listen_added-ListenOutcome :
      (r : Registry E) (key : Text) (l : ℕ) (address : Text) (answer : Added E)
      → AddOutcome r key answer
      → ListenOutcome r key (ok (l, address)) (listen_added l answer)
  listen_added-ListenOutcome r key l address (r', ok rt, w) (up, free, publishes, c) =
      (refl, refl, free, (rt, publishes))
  listen_added-ListenOutcome r key l address (r', failed e, w) (sames, c) = (refl, sames)

  -- ListenAndAdd holds a listener exactly if it returns one: on success the listener is open and
  -- the name, which was free, has a route, the only change to the routes; if Add fails, the
  -- listener is closed and the routes are as before; if there is no listener, nothing happens.
  pub listen_and_add-ListenOutcome :
      (r : Registry E) (ctx : Context) (name : Text) (number : ℕ) (dialer : DialFunc E)
      (options : List (RouteConfig E → RouteConfig E)) (l : Result (ℕ × Text)) (w : World E)
      → ListenOutcome r (to_lower name) l (listen_and_add r ctx name number dialer options l w)
  unfolding listen_and_add
  listen_and_add-ListenOutcome r ctx name number dialer options (failed e) w =
      (refl, refl, (_, refl))
  listen_and_add-ListenOutcome r ctx name number dialer options (ok (l, address)) w =
      listen_added-ListenOutcome r (to_lower name) l address _
        (add-AddOutcome r ctx name (some (tcp_backend number dialer address)) options w)

  -- A dial error of a future backend, or none.
  abbrev pub IsWaiting : Result Conn × World E → World E → Type 0
  IsWaiting result w = (e : Err) × (result ≡ (failed e, w)) × (is_retryable (some e) ≡ true)

  dial_once_set-cases :
      (dialer : DialFunc E) (address : Text) (ctx : Context) (network ignored : Text) (w : World E)
      → ((address_once_set address ≡ none)
          × IsWaiting (dial_once_set dialer address ctx network ignored w) w)
        ⊎ ((address_once_set address ≡ some address)
            × (dial_once_set dialer address ctx network ignored w ≡ dialer ctx network address w))
  unfolding is_retryable as_retryable
  dial_once_set-cases dialer [] ctx network ignored w = inl (refl, (_, refl, refl))
  dial_once_set-cases dialer (c ∷ s) ctx network ignored w = inr (refl, refl)

  -- A dial of a future backend, whatever address it is asked for: as long as Addr answers nothing,
  -- the dial fails at once with a retryable error, so that the readiness loop waits; after that it
  -- is the dial of the address that Addr answers.
  pub future_dial :
      (number : ℕ) (dialer : DialFunc E) (address : E → Text) (ctx : Context)
      (network ignored : Text) (w : World E)
      → let b = future_backend number dialer address in
        let answer = RouteOf.ask b.addr w in
        ((answer ≡ none) × IsWaiting (b.dial_context ctx network ignored w) w)
        ⊎ ((answer ≡ some (address w.env))
            × (b.dial_context ctx network ignored w ≡ dialer ctx network (address w.env) w))
  unfolding future_backend
  future_dial number dialer address ctx network ignored w =
      dial_once_set-cases dialer (address w.env) ctx network ignored w

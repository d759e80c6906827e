-- ===== src/Registry/Final.antt =====
-- Close is final, and what DialContext does with a name that has no route.
use go_portless.Common.{
  ℕ, ◌≡◌, refl, ◌⊎◌, inl, inr, true, false, none, some, [], ◌∷◌, Option-cases, Text, lookup,
}
use go_portless.Errors.{Err, wrap, sentinel, closed, route_not_found, is, same}
use go_portless.Net.{host_of}
use go_portless.Dial.{DialFunc, Result, failed, World, Context}
use go_portless.Route.{Route}
use go_portless.Registry.{Registry, lookup_route, reserve, add_route, mark_rewrites}
use go_portless.Registry.Ops.{bridge_add, bridge_close_all, shut, close, dial_context, listen_local}

abbrev not_found : Text → Err
not_found address = wrap "portless: dial %q: %w" (address ∷ []) (sentinel route_not_found)

is-not_found : (address : Text) → is route_not_found (not_found address) ≡ true
unfolding is same
is-not_found address = refl

module _ {E : Type 0} where
  -- Nothing works any more, and nothing is left.
  pub record IsFinished (r : Registry E) : Type 0 where
    pub forgets : (name : Text) → lookup_route r name ≡ none
    pub refuses_dial :
        (fuel : ℕ) (ctx : Context) (network address : Text) (w : World E)
        → dial_context fuel r ctx network address w ≡ some (failed (sentinel closed), w)
    pub refuses_listen :
        (name : Text) (l : Result ℕ) → listen_local r name l ≡ (r, failed (sentinel closed), [])
    pub refuses_route :
        (ctx : Context) (name : Text) (rt : Route E) (w : World E)
        → (add_route r ctx name rt w).1 ≡ failed (sentinel closed)
    pub refuses_bridge : (l : ℕ) → bridge_add r.bridges l ≡ (r.bridges, false)
    pub idempotent : (w : World E) → close r w ≡ (r, none, [], w)

  reserve-closed :
      (r : Registry E) (key name : Text)
      → r.closed ≡ true
      → reserve r key name ≡ failed (sentinel closed)
  unfolding reserve
  reserve-closed r key name h = rw h

  -- After the first Close, no name has a route; dials, local listeners and new routes are refused
  -- with ErrClosed, a listener that was just bound is refused by the bridge set, and another
  -- Close does nothing and reports no error.
  pub close-IsFinished : (r : Registry E) (w : World E) → r.done ≡ false → IsFinished (close r w).0
  unfolding close shut bridge_close_all
  close-IsFinished r w h = rw h (record {
    forgets = λ name. unfold lookup_route lookup in refl;
    refuses_dial = λ fuel ctx network address w'. unfold dial_context in refl;
    refuses_listen = λ name l. unfold listen_local in refl;
    refuses_route = λ ctx name rt w'. unfold add_route reserve mark_rewrites in refl;
    refuses_bridge = λ l. unfold bridge_add in refl;
    idempotent = λ w'. refl;
  })

  -- A name that has no route is dialled by the fallback, with nothing of the registry around it,
  -- or fails with ErrRouteNotFound where there is none.
  pub dial_unknown :
      (fuel : ℕ) (r : Registry E) (ctx : Context) (network address : Text) (w : World E)
      → r.closed ≡ false
      → lookup_route r (host_of address) ≡ none
      → ((e : Err) × (r.cfg.fallback ≡ none)
          × (dial_context fuel r ctx network address w ≡ some (failed e, w))
          × (is route_not_found e ≡ true))
        ⊎ ((d : DialFunc E) × (r.cfg.fallback ≡ some d)
            × (dial_context fuel r ctx network address w ≡ some (d ctx network address w)))
  unfolding dial_context lookup_route
  dial_unknown fuel r ctx network address w up missing = elim (Option-cases r.cfg.fallback) [
    | inl strict ↦ inl (
      not_found address,
      strict,
      rw up (rw (missing, dial_context) (rw strict)),
      is-not_found address,
    )
    | inr (d, given) ↦ inr (d, given, rw up (rw (missing, dial_context) (rw given)))
  ]

-- ===== src/Registry/Transaction.antt =====
-- Remove undoes Add, and AddReady leaves nothing behind when the route does not come up.
use go_portless.Common.{
  ℕ, ◌≡◌, refl, ◌⊎◌, true, if◌then◌else◌, Option, none, some, arith, Text, text_eq, text_eq_iff,
  to_lower, lookup, lookup-delete,
}
use go_portless.Errors.{Err}
use go_portless.Dial.{Result, ok, failed, World, Context, has_closed}
use go_portless.Route.{Route}
use go_portless.Registry.{Registry, Added, published, lookup_route}
use go_portless.Registry.Ops.{take_in, take, taken, remove, route_ready}
use mathlib.Core.Option
use go_portless.Registry.Sequential.{AddOutcome}

module _ {E : Type 0} where
  taken-routes :
      (o : Option (Route E)) (r : Registry E) (ctx : Context) (key name : Text) (w : World E)
      → published (lookup key r.routes) ≡ o
      → let result = taken ctx name w (take_in o r key) in
        ((j : Text)
          → published (lookup j result.0.routes)
            ≡ (if text_eq key j then none else published (lookup j r.routes)))
        × (result.0.closed ≡ r.closed)
  taken-routes none r ctx key name w e = ((λ j. ground (arith, text_eq_iff key j)), refl)
  taken-routes (some rt) r ctx key name w e =
      ((λ j. ground (arith, lookup-delete key j r.routes)), refl)

  -- After Remove, Lookup finds the name no more, and every other name as before, whatever the
  -- backend's Stop answers.
  pub lookup_route-remove :
      (r : Registry E) (ctx : Context) (name other : Text) (w : World E)
      → lookup_route (remove r ctx name w).0 other
        ≡ (if text_eq (to_lower name) (to_lower other) then none else lookup_route r other)
  unfolding remove take lookup_route
  lookup_route-remove r ctx name other w =
      (taken-routes (published (lookup (to_lower name) r.routes)) r ctx (to_lower name) name w
          refl).0
        (to_lower other)

  -- What AddReady answers after a wait that has ended so.
  abbrev pub wait_result : Route E → Option Err → Result (Route E)
  wait_result rt none = ok rt
  wait_result rt (some e) = failed e

  -- A Close has come by the end of the wait of AddReady: the registry is closed and empty.
  abbrev pub IsOvertaken : ℕ → Context → Added E → Added E → Type 0
  IsOvertaken fuel ctx added result =
      (r' : Registry E) × (rt : Route E) × (w : World E) × (answer : Option Err) × (w' : World E)
      × (added ≡ (r', ok rt, w))
      × (route_ready fuel r' ctx rt w ≡ some (answer, w'))
      × (has_closed w' ≡ true)
      × (result.0.closed ≡ true)
      × ((other : Text) → lookup_route result.0 other ≡ none)
      × (result.1 ≡ wait_result rt answer)

  abbrev AddReadyOutcome : ℕ → Registry E → Context → Text → Added E → Added E → Type 0
  AddReadyOutcome fuel r ctx name added result =
      AddOutcome r (to_lower name) result ⊎ IsOvertaken fuel ctx added result

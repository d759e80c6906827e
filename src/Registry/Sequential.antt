-- ===== src/Registry/Sequential.antt =====
-- What the operations do to the map of routes when nothing else runs: Add is a
-- transaction, and a rejected Add does not touch the backend.
use go_portless.Common.{
  ◌≡◌, refl, ◌≢◌, ◌⊎◌, inl, inr, Bool, true, false, Option, none, some, List, [], ◌∷◌, arith,
  if◌then◌else◌, Text, text_eq, text_eq_iff, to_lower, Dict, lookup, delete, insert, lookup-delete,
  lookup-insert,
}
use go_portless.Errors.{Err}
use go_portless.Dial.{Backend, RouteConfig, ok, failed, World, Context}
use go_portless.Route.{Route}
use go_portless.Registry.{
  Registry, Added, reserve_in, reserve, release_name, publish, started, reserved, add_route,
  mark_rewrites, checked, add_checked, add,
}

module _ {E : Type 0} where
  -- The routes are those of before, with this one under its key.
  abbrev pub Publishes : Registry E → Registry E → Text → Route E → Type 0
  Publishes r r' key rt =
      (j : Text)
      → lookup j r'.routes ≡ (if text_eq key j then some (some rt) else lookup j r.routes)

  -- No name means another route than before.
  abbrev pub SameRoutes : Registry E → Registry E → Type 0
  SameRoutes r r' = (j : Text) → lookup j r'.routes ≡ lookup j r.routes

  abbrev pub AddOutcome : Registry E → Text → Added E → Type 0
  AddOutcome r key (r', ok rt, w) =
      (r.closed ≡ false)
      × (lookup key r.routes ≡ none)
      × Publishes r r' key rt
      × (r'.closed ≡ false)
  AddOutcome r key (r', failed e, w) = SameRoutes r r' × (r'.closed ≡ r.closed)

  insert-insert :
      (key j : Text) (u v : Option (Route E)) (m : Dict (Option (Route E)))
      → lookup j (insert key v (insert key u m)) ≡ (if text_eq key j then some v else lookup j m)
  insert-insert key j u v m =
      ground (arith, lookup-insert key j v (insert key u m), lookup-insert key j u m)

  delete-insert :
      (key j : Text) (u : Option (Route E)) (m : Dict (Option (Route E)))
      → lookup key m ≡ none
      → lookup j (delete key (insert key u m)) ≡ lookup j m
  delete-insert key j u m free =
      ground
        (arith, lookup-delete key j (insert key u m), lookup-insert key j u m, text_eq_iff key j)

  started-AddOutcome :
      (r : Registry E) (key name : Text) (rt : Route E) (answer : Option Err × World E)
      → r.closed ≡ false
      → lookup key r.routes ≡ none
      → AddOutcome r key
          (started (record r { routes = insert key none r.routes }) key name rt answer)
  unfolding release_name publish
  started-AddOutcome r key name rt (some e, w) up free =
      ((λ j. delete-insert key j none r.routes free), refl)
  started-AddOutcome r key name rt (none, w) up free =
      rw up (refl, free, (λ j. insert-insert key j none (some rt) r.routes), refl)

  reserved-AddOutcome :
      (b : Bool) (o : Option (Option (Route E))) (r : Registry E) (ctx : Context) (key name : Text)
      (rt : Route E) (w : World E)
      → r.closed ≡ b
      → lookup key r.routes ≡ o
      → AddOutcome r key (reserved r ctx key name rt w (reserve_in b o r key name))
  reserved-AddOutcome true o r ctx key name rt w c f = ((λ j. refl), refl)
  reserved-AddOutcome false (some entry) r ctx key name rt w c f = ((λ j. refl), refl)
  reserved-AddOutcome false none r ctx key name rt w c f = started-AddOutcome r key name rt _ c f

  checked-AddOutcome :
      (e : Option Err) (r : Registry E) (ctx : Context) (name : Text) (rt : Route E) (w : World E)
      → AddOutcome r (to_lower name) (checked e r ctx name rt w)
  unfolding add_route reserve mark_rewrites
  checked-AddOutcome (some e) r ctx name rt w = ((λ j. refl), refl)
  checked-AddOutcome none r ctx name rt w =
      reserved-AddOutcome r.closed (lookup (to_lower name) r.routes) (mark_rewrites r rt) ctx
        (to_lower name) name rt w refl refl

  -- Add is a transaction: on success the registry was open and the name was free, in any case of
  -- letters, and only that name now has a route; on any error, of Start too, no name means
  -- another route than before.
  pub add-AddOutcome :
      (r : Registry E) (ctx : Context) (name : Text) (b : Option (Backend E))
      (options : List (RouteConfig E → RouteConfig E)) (w : World E)
      → AddOutcome r (to_lower name) (add r ctx name b options w)
  unfolding add add_checked
  add-AddOutcome r ctx [] b options w = ((λ j. refl), refl)
  add-AddOutcome r ctx (c ∷ name) none options w = ((λ j. refl), refl)
  add-AddOutcome r ctx (c ∷ name) (some b) options w = checked-AddOutcome _ r ctx (c ∷ name) _ w

  rejected :
      (b : Bool) (o : Option (Option (Route E))) (r : Registry E) (ctx : Context) (key name : Text)
      (rt : Route E) (w : World E)
      → (b ≡ true) ⊎ (o ≢ none)
      → (reserved r ctx key name rt w (reserve_in b o r key name)).2 ≡ w
  rejected true o r ctx key name rt w h = refl
  rejected false (some entry) r ctx key name rt w h = refl
  rejected false none r ctx key name rt w (inl h) = cc
  rejected false none r ctx key name rt w (inr h) = absurd (h refl)

  checked-rejected :
      (e : Option Err) (r : Registry E) (ctx : Context) (name : Text) (rt : Route E) (w : World E)
      → (r.closed ≡ true) ⊎ (lookup (to_lower name) r.routes ≢ none)
      → (checked e r ctx name rt w).2 ≡ w
  unfolding add_route reserve mark_rewrites
  checked-rejected (some e) r ctx name rt w h = refl
  checked-rejected none r ctx name rt w h =
      rejected r.closed (lookup (to_lower name) r.routes) (mark_rewrites r rt) ctx (to_lower name)
        name rt w h

  -- An Add to a closed registry, or of a name that is taken in any case of letters, published or
  -- only reserved, does nothing: the backend is not started or wired, and no event is emitted.
  pub add_rejected :
      (r : Registry E) (ctx : Context) (name : Text) (b : Option (Backend E))
      (options : List (RouteConfig E → RouteConfig E)) (w : World E)
      → (r.closed ≡ true) ⊎ (lookup (to_lower name) r.routes ≢ none)
      → (add r ctx name b options w).2 ≡ w
  unfolding add add_checked
  add_rejected r ctx [] b options w h = refl
  add_rejected r ctx (c ∷ name) none options w h = refl
  add_rejected r ctx (c ∷ name) (some b) options w h = checked-rejected _ r ctx (c ∷ name) _ w h

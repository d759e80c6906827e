-- ===== src/Control/Wire.antt =====
-- What a client can tell of an error that went over the control API.
use go_portless.Common.{
  text_eq_no, ◌≡◌, refl, ◌≢◌, ◌↔◌, inl, inr, Bool, false, Option, none, some, [], arith, Bool-cases,
  Text, text_eq, Dict, lookup,
}
use go_portless.Errors.{Err, route_exists, route_not_found, is, Sentinel, same, tag}
use go_portless.Dial.{Backend, Result, ok, failed, World, Context}
use go_portless.Registry.{Registry, Added, add}
use go_portless.Registry.Ops.{remove}
use go_portless.Control.{
  RouteSpec, Server, Factory, add_replied, handle_add_route, remove_replied, handle_remove_route,
}
use go_portless.Control.Client.{sentinel_for, read_reply}

-- errors.Is of an error that may be nil.
abbrev pub finds : Sentinel → Option Err → Bool
finds s none = false
finds s (some e) = is s e

abbrev pub error_of {ℓ} : {A : Type ℓ} → Result A → Option Err
error_of (failed e) = some e
error_of (ok a) = none

failed_iff : (d e : Err) → ((some d) ≡ none) ↔ ((some e) ≡ none)
failed_iff d e = ground arith

module _ {E : Type 0} where
  add_replied-finds :
      (s : Server E) (spec : RouteSpec) (answer : Added E) (method path message : Text)
      → let read = read_reply method path message (ok (add_replied s spec answer).1) in
        (finds route_exists read ≡ finds route_exists (error_of answer.1))
        × (finds route_not_found read ≡ false)
        × ((read ≡ none) ↔ (error_of answer.1 ≡ none))
  unfolding read_reply sentinel_for is text_eq same tag
  add_replied-finds s spec (r, failed e, w) method path message =
      elim (Bool-cases (is route_exists e)) [
        | inl hit ↦ rw (hit) (refl, refl, failed_iff _ e)
        | inr miss ↦ rw (miss) (refl, refl, failed_iff _ e)
      ]
  add_replied-finds s spec (r, ok rt, w) method path message = (refl, refl, ((λ p. p), (λ p. p)))

  remove_replied-finds :
      (s : Server E) (name : Text) (answer : Registry E × Option Err × World E)
      (method path message : Text)
      → let read = read_reply method path message (ok (remove_replied s name answer).1) in
        (finds route_not_found read ≡ finds route_not_found answer.1)
        × (finds route_exists read ≡ false)
        × ((read ≡ none) ↔ (answer.1 ≡ none))
  unfolding read_reply sentinel_for is text_eq same tag
  remove_replied-finds s name (r, some e, w) method path message =
      elim (Bool-cases (is route_not_found e)) [
        | inl hit ↦ rw (hit) (refl, refl, failed_iff _ e)
        | inr miss ↦ rw (miss) (refl, refl, failed_iff _ e)
      ]
  remove_replied-finds s name (r, none, w) method path message = (refl, refl, ((λ p. p), (λ p. p)))

  -- A client that adds a route, with a spec that has a name and a type with a factory that
  -- accepts its configuration, finds ErrRouteExists in what it reads exactly if the server's Add
  -- failed with it, never finds ErrRouteNotFound, and reads no error exactly if Add had none.
  pub add_over_wire :
      (factories : Dict (Factory E)) (factory : Factory E) (s : Server E) (ctx : Context)
      (spec : RouteSpec) (b : Backend E) (w : World E) (method path message : Text)
      → spec.name ≢ []
      → spec.kind ≢ []
      → lookup spec.kind factories ≡ some factory
      → factory spec.config ≡ ok b
      → let reply = (handle_add_route factories s ctx (ok spec) w).1 in
        let read = read_reply method path message (ok reply) in
        let answer = error_of (add s.reg ctx spec.name (some b) [] w).1 in
        (finds route_exists read ≡ finds route_exists answer)
        × (finds route_not_found read ≡ false)
        × ((read ≡ none) ↔ (answer ≡ none))
  unfolding handle_add_route
  add_over_wire factories factory s ctx spec b w method path message name kind found made =
      simp (text_eq_no spec.name [] name, text_eq_no spec.kind [] kind, found, made)
        (add_replied-finds s spec (add s.reg ctx spec.name (some b) [] w) method path message)

  -- A client that removes a route finds ErrRouteNotFound in what it reads exactly if the server's
  -- Remove failed with it, never finds ErrRouteExists, and reads no error exactly if Remove had
  -- none.
  pub remove_over_wire :
      (s : Server E) (ctx : Context) (name : Text) (w : World E) (method path message : Text)
      → let reply = (handle_remove_route s ctx name w).1 in
        let read = read_reply method path message (ok reply) in
        let answer = (remove s.reg ctx name w).1 in
        (finds route_not_found read ≡ finds route_not_found answer)
        × (finds route_exists read ≡ false)
        × ((read ≡ none) ↔ (answer ≡ none))
  unfolding handle_remove_route
  remove_over_wire s ctx name w method path message =
      remove_replied-finds s name (remove s.reg ctx name w) method path message

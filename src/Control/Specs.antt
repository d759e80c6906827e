-- ===== src/Control/Specs.antt =====
-- The specs that the control server files, and the routes they belong to.
use go_portless.Common.{
  if_true, if_false, found_nothing, ℕ, ◌≡◌, refl, sym, ap, ◌∙◌, inl, inr, ◌||◌, Option, none, some,
  List, [], ◌∷◌, if◌then◌else◌, Bool-cases, Text, text_eq, text_eq_iff, to_lower, Dict, lookup,
  lookup-delete, lookup-insert,
}
use go_portless.Errors.{Err}
use go_portless.Dial.{Backend, Config, Result, ok, failed, World, Context}
use go_portless.Route.{Route}
use go_portless.Registry.{Registry, Added, new_registry, published, lookup_route}
use go_portless.Registry.Ops.{remove}
use go_portless.Registry.Sequential.{AddOutcome, add-AddOutcome}
use go_portless.Registry.Transaction.{lookup_route-remove}
use go_portless.Control.{
  RouteSpec, Server, Factory, new_server, add_replied, add_built, add_made, handle_add_route,
  remove_replied, handle_remove_route,
}

-- The requests that change a server.
pub data ApiCall (E : Type 0) : Type 0 where
  api_add : Dict (Factory E) → Context → Result RouteSpec → ApiCall E
  api_remove : Context → Text → ApiCall E

module _ {E : Type 0} where
  abbrev pub api_call : ApiCall E → Server E × World E → Server E × World E
  api_call (api_add factories ctx body) (s, w) =
      let (s', reply, w') = handle_add_route factories s ctx body w in (s', w')
  api_call (api_remove ctx name) (s, w) =
      let (s', reply, w') = handle_remove_route s ctx name w in (s', w')

  abbrev pub api_calls : List (ApiCall E) → Server E × World E → Server E × World E
  api_calls [] s = s
  api_calls (c ∷ cs) s = api_calls cs (api_call c s)

  -- A spec is filed under this name.
  abbrev pub IsFiled : Server E → Text → Type 0
  IsFiled s name =
      (spec : RouteSpec) × (lookup (to_lower name) s.specs ≡ some spec)
      × (to_lower spec.name ≡ to_lower name)

  abbrev AllFiled : Server E → Type 0
  AllFiled s = (name : Text) (rt : Route E) → lookup_route s.reg name ≡ some rt → IsFiled s name

  add_replied-AllFiled :
      (s : Server E) (spec : RouteSpec) (answer : Added E)
      → AddOutcome s.reg (to_lower spec.name) answer
      → AllFiled s
      → AllFiled (add_replied s spec answer).0
  unfolding lookup_route
  add_replied-AllFiled s spec (r, failed e, w) (sames, c) filed name rt found =
      filed name rt (ap published (sym (sames (to_lower name))) ∙ found)
  add_replied-AllFiled s spec (r, ok q, w) (up, free, publishes, c) filed name rt found =
      elim (Bool-cases (text_eq (to_lower spec.name) (to_lower name))) [
        | inl hit ↦ (
          spec,
          lookup-insert (to_lower spec.name) (to_lower name) spec s.specs ∙ rw hit refl,
          ((text_eq_iff (to_lower spec.name) (to_lower name)).0 hit),
        )
        | inr miss ↦
            rw (lookup-insert (to_lower spec.name) (to_lower name) spec s.specs, miss)
              (filed name rt
                (sym (ap published (publishes (to_lower name) ∙ if_false _ miss)) ∙ found))
      ]

  add_built-AllFiled :
      (s : Server E) (ctx : Context) (spec : RouteSpec) (b : Result (Backend E)) (w : World E)
      → AllFiled s
      → AllFiled (add_built s ctx spec b w).0
  add_built-AllFiled s ctx spec (failed e) w f = f
  add_built-AllFiled s ctx spec (ok b) w f =
      add_replied-AllFiled s spec _ (add-AddOutcome s.reg ctx spec.name (some b) [] w) f

  remove_replied-AllFiled :
      (s : Server E) (name : Text) (answer : Registry E × Option Err × World E)
      → ((other : Text)
          → lookup_route answer.0 other
            ≡ (if text_eq (to_lower name) (to_lower other) then none else lookup_route s.reg other))
      → AllFiled s
      → AllFiled (remove_replied s name answer).0
  remove_replied-AllFiled s name (r, some e, w) gone filed other rt found =
      elim (Bool-cases (text_eq (to_lower name) (to_lower other))) [
        | inl hit ↦ found_nothing (gone other ∙ if_true _ hit) found
        | inr miss ↦ filed other rt (sym (gone other ∙ if_false _ miss) ∙ found)
      ]
  remove_replied-AllFiled s name (r, none, w) gone filed other rt found =
      elim (Bool-cases (text_eq (to_lower name) (to_lower other))) [
        | inl hit ↦ found_nothing (gone other ∙ if_true _ hit) found
        | inr miss ↦
            rw (lookup-delete (to_lower name) (to_lower other) s.specs, miss)
              (filed other rt (sym (gone other ∙ if_false _ miss) ∙ found))
      ]

  add_made-AllFiled :
      (s : Server E) (ctx : Context) (spec : RouteSpec) (o : Option (Factory E)) (w : World E)
      → AllFiled s
      → AllFiled (add_made s ctx spec o w).0
  add_made-AllFiled s ctx spec none w f = f
  add_made-AllFiled s ctx spec (some factory) w f =
      add_built-AllFiled s ctx spec (factory spec.config) w f

  handle_add_route-AllFiled :
      (factories : Dict (Factory E)) (s : Server E) (ctx : Context) (body : Result RouteSpec)
      (w : World E)
      → AllFiled s
      → AllFiled (handle_add_route factories s ctx body w).0
  unfolding handle_add_route
  handle_add_route-AllFiled factories s ctx (failed e) w f = f
  handle_add_route-AllFiled factories s ctx (ok spec) w f =
      elim (Bool-cases (text_eq spec.name [] || text_eq spec.kind [])) [
        | inl bad ↦ rw bad f
        | inr good ↦ rw good (add_made-AllFiled s ctx spec (lookup spec.kind factories) w f)
      ]

  api_call-AllFiled :
      (c : ApiCall E) (s : Server E × World E) → AllFiled s.0 → AllFiled (api_call c s).0
  unfolding handle_remove_route
  api_call-AllFiled (api_add factories ctx body) (s, w) f =
      handle_add_route-AllFiled factories s ctx body w f
  api_call-AllFiled (api_remove ctx name) (s, w) f =
      remove_replied-AllFiled s name (remove s.reg ctx name w)
        (λ other. lookup_route-remove s.reg ctx name other w) f

  api_calls-AllFiled :
      (cs : List (ApiCall E)) (s : Server E × World E) → AllFiled s.0 → AllFiled (api_calls cs s).0
  api_calls-AllFiled [] s f = f
  api_calls-AllFiled (c ∷ cs) s f = api_calls-AllFiled cs (api_call c s) (api_call-AllFiled c s f)

  new_server-AllFiled :
      (options : List (Config E → Config E)) (proxy_addr : Text) (now : ℕ)
      → AllFiled (new_server (new_registry options) proxy_addr now)
  unfolding new_server new_registry lookup_route lookup
  new_server-AllFiled options proxy_addr now name rt found = found_nothing refl found

  -- After any add and remove requests to a server of a new registry, every route that Lookup
  -- finds has a spec filed under its name, in any case of letters: the list of routes never has
  -- to call one custom. The requests run one after the other and nothing else adds routes.
  pub routes-IsFiled :
      (options : List (Config E → Config E)) (proxy_addr : Text) (now : ℕ) (w : World E)
      (cs : List (ApiCall E)) (name : Text) (rt : Route E)
      → lookup_route (api_calls cs (new_server (new_registry options) proxy_addr now, w)).0.reg name
        ≡ some rt
      → IsFiled (api_calls cs (new_server (new_registry options) proxy_addr now, w)).0 name
  routes-IsFiled options proxy_addr now w cs name rt found =
      api_calls-AllFiled cs _ (new_server-AllFiled options proxy_addr now) name rt found

-- ===== src/Registry/Bootstrap/Tests.antt =====
-- Registry.Ready of two names at a concrete registry.
use go_portless.Common.{
  ℕ, ◌≡◌, refl, sym, subst, ◌∙◌, Option, some, List, [], ◌∷◌, Text, codes, arith, text_eq, to_lower,
  lower_byte, lookup,
}
use go_portless.Errors.{Err}
use go_portless.Dial.{ok, background}
use go_portless.Route.{Route}
use go_portless.Registry.{lookup_route}
use go_portless.Fixtures.{World0, idle, up_route, one_route}
use go_portless.Registry.Bootstrap.{named_routes, ready_routes, ready}
use go_portless.Registry.Bootstrap.Up.{AreEnough, ReadyOutcome, ready-ReadyOutcome}

abbrev twice : List Text
twice = codes "db" ∷ codes "DB" ∷ []

abbrev idle_worlds : ℕ → World0
idle_worlds i = idle

twice_named : ready_routes one_route twice ≡ ok (up_route ∷ up_route ∷ [])
unfolding named_routes lookup_route lookup to_lower text_eq lower_byte
twice_named = refl

same_routes : {rts rts' : List (Route Unit)} → ok rts ≡ ok rts' → rts ≡ rts'
same_routes e = cc

both-AreEnough : AreEnough 54 one_route background idle_worlds (up_route ∷ up_route ∷ [])
unfolding AreEnough
both-AreEnough = (
  (λ ctx network address w. omega arith),
  tt,
  omega arith,
  ((λ ctx network address w. omega arith), tt, omega arith, tt),
)

ready-ReadyOutcome_example :
    (a : Option Err) × (ready 54 one_route background idle_worlds twice ≡ some a)
    × ReadyOutcome 54 one_route background idle_worlds twice a
ready-ReadyOutcome_example = ready-ReadyOutcome 54 one_route background idle_worlds twice (λ rts h.
    subst (AreEnough 54 one_route background idle_worlds) (same_routes (sym twice_named ∙ h))
      both-AreEnough)

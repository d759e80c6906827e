-- ===== src/Registry/Lifecycle/Tests.antt =====
-- Lifecycles at concrete steps.
use go_portless.Common.{
  ◌+◌, ◌≤◌, ◌≡◌, refl, ◌⊎◌, none, List, [], ◌∷◌, map, codes, text_eq, lower_byte, to_lower, lookup,
  insert,
}
use go_portless.Registry.{new_registry, lookup_route, published_routes, reserve, publish}
use go_portless.Registry.Ops.{shut}
use go_portless.Fixtures.{up_route}
use go_portless.Registry.Lifecycle.{
  Act, begin, start_succeeds, finish, closes, stops, pick, pick_number, number_of, step, run,
  initial,
}
use go_portless.Registry.Lifecycle.Counts.{count, count_key, count_task}
use go_portless.Registry.Lifecycle.Runs.{one_add_at_a_time, backends_balanced, stopped_after_close}

-- Two Adds of one name, of which the second is turned away; a Close that overtakes an Add, which then
-- stops its backend.
abbrev begun_twice : List (Act Unit)
begun_twice = begin (codes "db") up_route ∷ begin (codes "DB") up_route ∷ []

abbrev overtaken : List (Act Unit)
overtaken = begin (codes "db") up_route ∷ start_succeeds 0 ∷ closes ∷ finish 0 ∷ stops 0 ∷ []

one_add_at_a_time_example :
    let s = run (initial {E = Unit} []) begun_twice in
    let under_way =
      count_key (to_lower (codes "db")) s.starting + count_key (to_lower (codes "db")) s.waiting in
    (under_way ≤ 1) × ((under_way ≡ 0) ⊎ (lookup_route s.reg (codes "db") ≡ none))
unfolding run step reserve initial new_registry lookup insert text_eq to_lower lower_byte
one_add_at_a_time_example = one_add_at_a_time [] begun_twice (codes "db") refl

backends_balanced_example :
    let s = run (initial {E = Unit} []) overtaken in
    count 1 s.acquired
    ≡ count_task 1 s.waiting
      + count 1 (map number_of (published_routes s.reg.routes))
      + count 1 s.doomed
      + count 1 s.stopped
backends_balanced_example = backends_balanced [] overtaken 1

stopped_after_close_example :
    (count 1 (run (initial {E = Unit} []) overtaken).stopped
      ≡ count 1 (run (initial {E = Unit} []) overtaken).acquired)
    × (lookup_route (run (initial {E = Unit} []) overtaken).reg (codes "db") ≡ none)
unfolding run step pick pick_number reserve initial new_registry lookup publish shut
    published_routes insert
stopped_after_close_example = stopped_after_close [] overtaken 1 (codes "db") refl refl refl

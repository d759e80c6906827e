-- ===== src/Registry/Lifecycle/Runs.antt =====
-- What holds after any sequence of steps.
use go_portless.Common.{
  ℕ, ◌+◌, ◌≤◌, ◌≡◌, refl, ◌⊎◌, inl, inr, true, false, Option, none, some, List, [], ◌∷◌, map, arith,
  Text, to_lower, lookup,
}
use go_portless.Dial.{Config}
use go_portless.Route.{Route}
use go_portless.Registry.{published, lookup_route, published_routes, reserve, publish}
use go_portless.Registry.Ops.{take}
use go_portless.Registry.Lifecycle.{
  Task, Sys, Act, begin, start_fails, start_succeeds, finish, removes, closes, stops, pick,
  pick_number, number_of, start_failed, start_succeeded, finished, step, run, initial,
}
use go_portless.Registry.Lifecycle.Counts.{
  count, reserved_weight, count_published, count_key, count_task, SameCounts, pick_counts,
  pick_number-count,
}
use go_portless.Registry.Lifecycle.Invariant.{
  Inv, initial-Inv, begun-Inv, start_failed-Inv, start_succeeded-Inv, concluded-Inv, removed-Inv,
  closed_down-Inv, stop_called-Inv, reserved_weight-le,
}

module _ {E : Type 0} where
  abbrev Picked : List (Task E) → Option (Task E × List (Task E)) → Type 0
  Picked ts none = Unit
  Picked ts (some (t, rest)) = SameCounts ts (t ∷ rest)

  pick-Picked :
      (i : ℕ) (ts : List (Task E)) (o : Option (Task E × List (Task E)))
      → pick i ts ≡ o
      → Picked ts o
  pick-Picked i ts none e = tt
  pick-Picked i ts (some (t, rest)) e = pick_counts i ts t rest e

  failed-Inv :
      (o : Option (Task E × List (Task E))) (s : Sys E)
      → Picked s.starting o
      → Inv s
      → Inv (start_failed s o)
  failed-Inv none s p v = v
  failed-Inv (some (t, ts)) s p v = start_failed-Inv s t ts p v

  succeeded-Inv :
      (o : Option (Task E × List (Task E))) (s : Sys E)
      → Picked s.starting o
      → Inv s
      → Inv (start_succeeded s o)
  succeeded-Inv none s p v = v
  succeeded-Inv (some (t, ts)) s p v = start_succeeded-Inv s t ts p v

  finished-Inv :
      (o : Option (Task E × List (Task E))) (s : Sys E)
      → Picked s.waiting o
      → Inv s
      → Inv (finished s o)
  unfolding publish
  finished-Inv none s p v = v
  finished-Inv (some (t, ts)) s p v = concluded-Inv s.reg.closed s t ts refl p v

  step-Inv : (s : Sys E) (a : Act E) → Inv s → Inv (step s a)
  unfolding step reserve take
  step-Inv s (begin name rt) v =
      begun-Inv s.reg.closed (lookup (to_lower name) s.reg.routes) s (to_lower name) name rt refl
        refl v
  step-Inv s (start_fails i) v = failed-Inv _ s (pick-Picked i s.starting _ refl) v
  step-Inv s (start_succeeds i) v = succeeded-Inv _ s (pick-Picked i s.starting _ refl) v
  step-Inv s (finish i) v = finished-Inv _ s (pick-Picked i s.waiting _ refl) v
  step-Inv s (removes name) v =
      removed-Inv (lookup (to_lower name) s.reg.routes) s (to_lower name) refl v
  step-Inv s closes v = closed_down-Inv s v
  step-Inv s (stops i) v =
      stop_called-Inv (pick_number i s.doomed) s (pick_number-count i s.doomed) v

  run-Inv : (s : Sys E) (acts : List (Act E)) → Inv s → Inv (run s acts)
  unfolding run
  run-Inv s [] v = v
  run-Inv s (a ∷ acts) v = run-Inv (step s a) acts (step-Inv s a v)

  open-or-hidden : (o : Option (Option (Route E))) → (reserved_weight o ≡ 0) ⊎ (published o ≡ none)
  open-or-hidden none = inl refl
  open-or-hidden (some none) = inr refl
  open-or-hidden (some (some rt)) = inl refl

  -- However the steps of concurrent Adds, Removes and Closes interleave: while the registry is
  -- open, at most one Add is under way for a name, between its reservation and its publication,
  -- and either there is none or the name has no published route. So no two Starts run for one
  -- name, and no Start runs for a name in use.
  pub one_add_at_a_time :
      (options : List (Config E → Config E)) (acts : List (Act E)) (name : Text)
      → (run (initial options) acts).reg.closed ≡ false
      → let s = run (initial options) acts in
        let under_way =
          count_key (to_lower name) s.starting + count_key (to_lower name) s.waiting in
        (under_way ≤ 1) × ((under_way ≡ 0) ⊎ (lookup_route s.reg name ≡ none))
  one_add_at_a_time options acts name up =
      let s : Sys E = run (initial options) acts in
      let key : Text = to_lower name in
      let v : Inv s = run-Inv (initial options) acts (initial-Inv options) in
      let o : Option (Option (Route E)) = lookup key s.reg.routes in
      (
        omega (arith, v.single up key, reserved_weight-le o),
        elim (open-or-hidden o) [
          | inl idle ↦ inl (omega (arith, v.single up key, idle))
          | inr hidden ↦ inr (unfold lookup_route in hidden)
        ],
      )

  -- However the steps interleave, no backend is lost or stopped too often: the successful Starts
  -- of a backend are as many as the Adds that still wait with it, the names under which it is
  -- published, the operations that have taken it on themselves to stop it and have not called its
  -- Stop yet, and the calls of its Stop.
  pub backends_balanced :
      (options : List (Config E → Config E)) (acts : List (Act E)) (n : ℕ)
      → let s = run (initial options) acts in
        count n s.acquired
        ≡ count_task n s.waiting
          + count n (map number_of (published_routes s.reg.routes))
          + count n s.doomed
          + count n s.stopped
  backends_balanced options acts n =
      (run-Inv (initial options) acts (initial-Inv options)).balanced n

  -- Once the registry is closed, no Add waits any more, and no overtaken Add, Remove or Close still
  -- has a Stop to call: the Stop of each backend has been called exactly as often as its Start has
  -- succeeded, and no name has a route. A backend without Stop or Start counts as if it had one
  -- that does nothing.
  pub stopped_after_close :
      (options : List (Config E → Config E)) (acts : List (Act E)) (n : ℕ) (name : Text)
      → (run (initial options) acts).reg.closed ≡ true
      → (run (initial options) acts).waiting ≡ []
      → (run (initial options) acts).doomed ≡ []
      → (count n (run (initial options) acts).stopped
          ≡ count n (run (initial options) acts).acquired)
        × (lookup_route (run (initial options) acts).reg name ≡ none)
  stopped_after_close options acts n name shut_ idle over =
      let s = run (initial options) acts in
      let v = run-Inv (initial options) acts (initial-Inv options) in
      let none_left : count_published n s.reg.routes ≡ 0 =
        rw (v.empty shut_) (unfold published_routes in refl) in
      let none_waits : count_task n s.waiting ≡ 0 = rw idle in
      let none_owed : count n s.doomed ≡ 0 = rw over refl in
      (
        omega (arith, v.balanced n, none_left, none_waits, none_owed),
        unfold lookup_route lookup in rw (v.empty shut_),
      )

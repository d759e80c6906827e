-- ===== src/Registry/Bootstrap/Up.antt =====
-- What Registry.Ready answers.
use mathlib.Core.List.{Memᴰ}
use mathlib.Core.List.Memᴰ.{head, tail}
use go_portless.Common.{
  subst, ℕ, suc, ◌-◌, ◌*◌, ◌<◌, ◌≡◌, refl, ◌∙◌, ◌↔◌, ◌⊎◌, inl, inr, Bool, true, false, ◌||◌, Option,
  none, some, List, [], ◌∷◌, arith, Text, codes, Option-cases, found_nothing, ap,
}
use mathlib.Core.Option
use go_portless.Errors.{Err, Sentinel, same, wrap, joined, route_not_found, is}
use go_portless.Net.{itoa, join_host_port}
use go_portless.Dial.{Result, ok, failed, World, Context, Conn, close_conn}
use go_portless.Route.{Route, ready_port}
use go_portless.Readiness.{dial_route}
use go_portless.Readiness.Termination.{
  IsForward, IsForwardCheck, latest, shortest_wait, dial_route_returns,
}
use go_portless.Registry.{Registry, lookup_route, published_routes}
use go_portless.Registry.Ops.{join_errs, route_ready}
use go_portless.Registry.Bootstrap.{
  first_error, wait_error, present, joined_errs, onto_routes, named_routes, ready_routes, wait_each,
  waited, ready,
}

-- None of the probes has an error.
unfoldable pub all_up : List (Option Err) → Bool
all_up [] = true
all_up (none ∷ answers) = all_up answers
all_up (some e ∷ answers) = false

-- One of the probes has an error that errors.Is finds s in.
unfoldable pub any_is : Sentinel → List (Option Err) → Bool
any_is s [] = false
any_is s (none ∷ answers) = any_is s answers
any_is s (some e ∷ answers) = is s e || any_is s answers

abbrev pub is_in : Sentinel → Option Err → Bool
is_in s none = false
is_in s (some e) = is s e

-- The joined error tells the probes apart no better and no worse.
abbrev pub IsJoined : List (Option Err) → Option Err → Type 0
IsJoined answers a =
    ((a ≡ none) ↔ (all_up answers ≡ true)) × ((s : Sentinel) → is_in s a ≡ any_is s answers)

join_errs-is :
    (s : Sentinel) (e : Err) (es : List Err)
    → is_in s (join_errs (e ∷ es)) ≡ is s e || is_in s (join_errs es)
unfolding join_errs is
join_errs-is s e es = elim (Option-cases (join_errs es)) [
  | inl n ↦ rw n (ground arith)
  | inr (d, q) ↦ rw q refl
]

join_errs-some : (e : Err) (es : List Err) → (d : Err) × (join_errs (e ∷ es) ≡ some d)
unfolding join_errs
join_errs-some e es = elim (Option-cases (join_errs es)) [
  | inl n ↦ (e, rw n refl)
  | inr (d, q) ↦ (joined e d, rw q refl)
]

failed-IsJoined :
    (name : Text) (e : Err) (answers : List (Option Err)) (errs : List (Option Err))
    → IsJoined answers (joined_errs errs)
    → IsJoined (some e ∷ answers) (joined_errs (some (wrap "route %q: %w" (name ∷ []) e) ∷ errs))
unfolding all_up any_is is
failed-IsJoined name e answers errs (up, found) =
    let wrapped = wrap "route %q: %w" (name ∷ []) e in
    let (d, q) = join_errs-some wrapped (present errs) in
    (
      ((λ h. found_nothing h q), (λ h. absurd (ground arith))),
      (λ s. join_errs-is s wrapped (present errs) ∙ rw (found s) refl),
    )

module _ {E : Type 0} (fuel : ℕ) (r : Registry E) (ctx : Context) where
  -- The dial of a route's readiness wait.
  abbrev pub ready_dial : Route E → World E → Option (Result Conn × World E)
  ready_dial rt w =
      dial_route fuel r.cfg.handlers ctx rt (codes "tcp")
        (join_host_port rt.name (itoa (ready_port rt.cfg.port_map))) w

  -- The error of a probe: that of the dial, or that of the Close of its connection.
  abbrev pub probe_error : Result Conn → World E → Option Err
  probe_error (failed e) w = some e
  probe_error (ok c) w = w.close_error c

  -- The errors of the probes of the routes, each in its own world.
  pub data Answered : (ℕ → World E) → List (Route E) → List (Option Err) → Type 0 where
    no_routes : (worlds : ℕ → World E) → Answered worlds [] []
    one_more :
        (worlds : ℕ → World E) (rt : Route E) (rts : List (Route E)) (answer : Result Conn)
        (w : World E) (answers : List (Option Err))
        → ready_dial rt (worlds 0) ≡ some (answer, w)
        → Answered (λ i. worlds (suc i)) rts answers
        → Answered worlds (rt ∷ rts) (probe_error answer w ∷ answers)

  -- The fuel is enough for the wait of each route.
  unfoldable pub AreEnough : (ℕ → World E) → List (Route E) → Type 0
  AreEnough worlds [] = Unit
  AreEnough worlds (rt ∷ rts) =
      IsForward rt.dial
      × IsForwardCheck rt.cfg.health
      × (latest ctx.deadline rt.cfg.ready_timeout (worlds 0).now - (worlds 0).now
          < fuel * shortest_wait)
      × AreEnough (λ i. worlds (suc i)) rts

  abbrev Waits : (ℕ → World E) → List (Route E) → Type 0
  Waits worlds rts =
      (errs : List (Option Err)) × (answers : List (Option Err)) × (wait_each fuel r ctx worlds rts
        ≡ some errs)
      × Answered worlds rts answers
      × IsJoined answers (joined_errs errs)

  closed_waited :
      (worlds : ℕ → World E) (rt : Route E) (rts : List (Route E)) (c : Conn) (w : World E)
      (o : Option Err)
      → w.close_error c ≡ o
      → ready_dial rt (worlds 0) ≡ some (ok c, w)
      → Waits (λ i. worlds (suc i)) rts
      → Waits worlds (rt ∷ rts)
  unfolding wait_each route_ready all_up any_is
  closed_waited worlds rt rts c w none o d (errs, answers, e, q, j) = (
    none ∷ errs,
    none ∷ answers,
    rw (d, e) (ap (λ x. first_error (some (wait_error rt (x, close_conn c w))) (some errs)) o),
    subst (λ x. Answered worlds (rt ∷ rts) (x ∷ answers)) o
        (one_more worlds rt rts (ok c) w answers d q),
    j,
  )
  closed_waited worlds rt rts c w (some x) o d (errs, answers, e, q, j) = (
    some (wrap "route %q: %w" (rt.name ∷ []) x) ∷ errs,
    some x ∷ answers,
    rw (d, e) (ap (λ x. first_error (some (wait_error rt (x, close_conn c w))) (some errs)) o),
    subst (λ y. Answered worlds (rt ∷ rts) (y ∷ answers)) o
        (one_more worlds rt rts (ok c) w answers d q),
    failed-IsJoined rt.name x answers errs j,
  )

  onto_waited :
      (worlds : ℕ → World E) (rt : Route E) (rts : List (Route E)) (answer : Result Conn)
      (w : World E)
      → ready_dial rt (worlds 0) ≡ some (answer, w)
      → Waits (λ i. worlds (suc i)) rts
      → Waits worlds (rt ∷ rts)
  unfolding wait_each route_ready all_up any_is
  onto_waited worlds rt rts (ok c) w d (errs, answers, e, q, j) =
      closed_waited worlds rt rts c w (w.close_error c) refl d (errs, answers, e, q, j)
  onto_waited worlds rt rts (failed x) w d (errs, answers, e, q, j) = (
    some (wrap "route %q: %w" (rt.name ∷ []) x) ∷ errs,
    some x ∷ answers,
    rw (d, e) refl,
    one_more worlds rt rts (failed x) w answers d q,
    failed-IsJoined rt.name x answers errs j,
  )

  wait_each-Waits :
      (worlds : ℕ → World E) (rts : List (Route E)) → AreEnough worlds rts → Waits worlds rts
  unfolding AreEnough wait_each all_up any_is join_errs
  wait_each-Waits worlds [] enough =
      ([], [], refl, no_routes worlds, (((λ h. refl), (λ h. refl)), (λ s. refl)))
  wait_each-Waits worlds (rt ∷ rts) (f, g, enough, more) =
      let ((answer, w), d) =
        dial_route_returns fuel r.cfg.handlers ctx rt (codes "tcp")
          (join_host_port rt.name (itoa (ready_port rt.cfg.port_map))) (worlds 0) f g enough in
      onto_waited worlds rt rts answer w d (wait_each-Waits (λ i. worlds (suc i)) rts more)

  -- A name that no route has.
  abbrev pub IsUnknown : List Text → Err → Type 0
  IsUnknown names e =
      (is route_not_found e ≡ true) × (name : Text) × Memᴰ name names × (lookup_route r name ≡ none)

  -- The routes of these names, in their order.
  pub data AreNamed : List Text → List (Route E) → Type 0 where
    nothing : AreNamed [] []
    named :
        (name : Text) (rt : Route E) (names : List Text) (rts : List (Route E))
        → lookup_route r name ≡ some rt
        → AreNamed names rts
        → AreNamed (name ∷ names) (rt ∷ rts)

  abbrev Found : List Text → Result (List (Route E)) → Type 0
  Found names (failed e) = IsUnknown names e
  Found names (ok rts) = AreNamed names rts

  onto_routes-Found :
      (name : Text) (names : List Text) (o : Option (Route E)) (rest : Result (List (Route E)))
      → lookup_route r name ≡ o
      → Found names rest
      → Found (name ∷ names) (onto_routes name o rest)
  unfolding is same
  onto_routes-Found name names none rest l h = (refl, name, head refl, l)
  onto_routes-Found name names (some rt) (failed e) l (q, name', m, n) = (q, name', tail m, n)
  onto_routes-Found name names (some rt) (ok rts) l h = named name rt names rts l h

  named_routes-Found : (names : List Text) → Found names (named_routes r names)
  unfolding named_routes
  named_routes-Found [] = nothing
  named_routes-Found (name ∷ names) =
      onto_routes-Found name names (lookup_route r name) (named_routes r names) refl
        (named_routes-Found names)

  -- The routes that are waited for: those of the names, or all that are registered.
  abbrev pub IsMeant : List Text → List (Route E) → Type 0
  IsMeant [] rts = rts ≡ published_routes r.routes
  IsMeant (name ∷ names) rts = AreNamed (name ∷ names) rts

  abbrev pub ReadyOutcome : (ℕ → World E) → List Text → Option Err → Type 0
  ReadyOutcome worlds names a =
      ((e : Err) × (a ≡ some e) × IsUnknown names e)
      ⊎ ((rts : List (Route E)) × (answers : List (Option Err)) × IsMeant names rts
          × Answered worlds rts answers
          × IsJoined answers a)

  abbrev Meant : List Text → Result (List (Route E)) → Type 0
  Meant names (failed e) = IsUnknown names e
  Meant names (ok rts) = IsMeant names rts

  Found-Meant :
      (name : Text) (names : List Text) (found : Result (List (Route E)))
      → Found (name ∷ names) found
      → Meant (name ∷ names) found
  Found-Meant name names (failed e) h = h
  Found-Meant name names (ok rts) h = h

  ready_routes-Meant : (names : List Text) → Meant names (ready_routes r names)
  ready_routes-Meant [] = refl
  ready_routes-Meant (name ∷ names) =
      Found-Meant name names (named_routes r (name ∷ names)) (named_routes-Found (name ∷ names))

  waited-ReadyOutcome :
      (worlds : ℕ → World E) (names : List Text) (found : Result (List (Route E)))
      → Meant names found
      → ((rts : List (Route E)) → found ≡ ok rts → AreEnough worlds rts)
      → (a : Option Err) × (waited fuel r ctx worlds found ≡ some a) × ReadyOutcome worlds names a
  waited-ReadyOutcome worlds names (failed e) m enough = (some e, refl, inl (e, refl, m))
  waited-ReadyOutcome worlds names (ok rts) m enough =
      let (errs, answers, e, q, j) = wait_each-Waits worlds rts (enough rts refl) in
      (joined_errs errs, ap (Option.map joined_errs) e, inr (rts, answers, m, q, j))

  -- Ready returns when every wait of a route has, for which one attempt for each 18.75 ms to the
  -- caller's deadline, or to the route's ready timeout where the caller has none, and one more, are
  -- enough. If one of the names is unknown, the error is ErrRouteNotFound. Otherwise the routes of
  -- those names, or all routes where none is given, have been probed, each in a world of its own: by a
  -- dial, and the Close of the connection that it gives. There is no error exactly if no probe has
  -- one, in its dial or in its Close, and errors.Is finds in the error what it finds in that of one of
  -- the probes. Dials and health checks are taken to return, and not to turn the clock back.
  pub ready-ReadyOutcome :
      (worlds : ℕ → World E) (names : List Text)
      → ((rts : List (Route E)) → ready_routes r names ≡ ok rts → AreEnough worlds rts)
      → (a : Option Err) × (ready fuel r ctx worlds names ≡ some a) × ReadyOutcome worlds names a
  unfolding ready
  ready-ReadyOutcome worlds names enough =
      waited-ReadyOutcome worlds names (ready_routes r names) (ready_routes-Meant names) enough

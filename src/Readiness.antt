-- ===== src/Readiness.antt =====
-- registry.go, dialRoute: the readiness loop. A dial is retried with backoff until it succeeds, or
-- fails for good, or the context ends, or the registry closes.
-- The loop runs on fuel, a number of attempts; Readiness/Termination says how many are enough.
mod Tests
pub mod Termination
pub mod Outcome
use go_portless.Common.{
  ℕ, zero, suc, ◌+◌, ◌-◌, ◌%◌, not, Option, none, some, List, [], ◌∷◌, ltb, leb, if◌then◌else◌,
  Text,
}
use go_portless.Backoff.{Backoff, new, next}
use go_portless.Errors.{Err, errorf, wrap, wrap_two, retryable, sentinel, closed, is_retryable_err}
use go_portless.Dial.{
  DialFunc, HealthCheck, Result, ok, failed, World, Context, Conn, Event, plain_event,
  event_dial_start, event_dial_retry, event_dial_success, event_dial_error, emit, close_conn, cause,
  ends, with_timeout_cause,
}
use go_portless.Route.{Route}

-- dialWaitError for a last error that is not nil, as it always is in the loop.
unfoldable pub dial_wait_error : Text → Err → Err → Err
dial_wait_error name why last =
    wrap_two "portless: waiting for route %q: %w (last backend error: %w)" (name ∷ []) why last

-- How the select of the loop ends: the context is done, the registry is closed, or the timer
-- fires, and when. Of two that are due at once Go picks either; here the context goes first and
-- the timer last.
pub data Wake : Type 0 where
  ctx_done : ℕ → Err → Wake
  registry_done : ℕ → Wake
  timer : ℕ → Wake

abbrev pub wake_by : ℕ → Option ℕ → Wake
wake_by due none = timer due
wake_by due (some t) = if leb t due then registry_done t else timer due

abbrev pub wake_of : Option (ℕ × Err) → Wake → Wake
wake_of none k = k
wake_of (some (t, e)) (ctx_done s d) = ctx_done s d
wake_of (some (t, e)) (registry_done s) = if leb t s then ctx_done t e else registry_done s
wake_of (some (t, e)) (timer s) = if leb t s then ctx_done t e else timer s

-- The select that is entered with the timer due at `due`.
unfoldable pub select : Context → Option ℕ → ℕ → Wake
select ctx closes_at due = wake_of (ends ctx) (wake_by due closes_at)

abbrev pub later : ℕ → ℕ → ℕ
later s t = if ltb s t then t else s

module _ {E : Type 0} where
  unfoldable pub wait_until : ℕ → World E → World E
  wait_until t w = record w { now = later w.now t }

  -- The context that a dial runs under, told its deadline: the route's ready timeout caps one
  -- that has none.
  abbrev pub capped : Option (ℕ × Err) → Context → Route E → ℕ → Context
  capped (some d) ctx rt now = ctx
  capped none ctx rt now =
      with_timeout_cause ctx now rt.cfg.ready_timeout
        (errorf "portless: route %q not ready within %v" (rt.name ∷ []))

  unfoldable pub ready_context : Context → Route E → ℕ → Context
  ready_context ctx rt now = capped ctx.deadline ctx rt now

  -- What the health check makes of a connection: the connection is closed if the check fails.
  unfoldable pub judge : Conn → Option Err × World E → Result Conn × World E
  judge c (none, w) = (ok c, w)
  judge c (some e, w) = (failed (retryable (wrap "health check: %w" [] e)), close_conn c w)

  unfoldable pub gate :
      Option (HealthCheck E) → DialFunc E → Context → Result Conn × World E → Result Conn × World E
  gate health backend_dial ctx (failed e, w) = (failed e, w)
  gate none backend_dial ctx (ok c, w) = (ok c, w)
  gate (some check) backend_dial ctx (ok c, w) = judge c (check ctx backend_dial w)

  -- One attempt: the dial, and the health check if there is one.
  unfoldable pub try : Route E → Context → Text → Text → World E → Result Conn × World E
  try rt ctx network address w =
      gate rt.cfg.health rt.backend.dial_context ctx (rt.dial ctx network address w)

module _ {E : Type 0} (handlers : List ℕ) (ctx : Context) (rt : Route E) (network address : Text)
    (start : ℕ) where
  unfoldable pub fail : Err → World E → Result Conn × World E
  fail e w = (failed e, emit handlers (record event { err = some e }) w)
    where
      event : Event
      event = plain_event event_dial_error rt.name address

  unfoldable pub succeed : Conn → World E → Result Conn × World E
  succeed c w = (ok c, emit handlers (record event { elapsed = w.now - start }) w)
    where
      event : Event
      event = plain_event event_dial_success rt.name address

  unfoldable pub report_retry : ℕ → Err → World E → World E
  report_retry attempt e w = emit handlers (record event { attempt = attempt + 1; err = some e }) w
    where
      event : Event
      event = plain_event event_dial_retry rt.name address

  -- What an attempt leads to: the end of the loop, or a wait and another attempt.
  pub data Next : Type 0 where
    return : Result Conn × World E → Next
    again : Backoff → World E → Next

  unfoldable pub sleep : Err → Backoff → Wake → World E → Next
  sleep last bo (ctx_done t why) w =
      return (fail (dial_wait_error rt.name why last) (wait_until t w))
  sleep last bo (registry_done t) w = return (fail (sentinel closed) (wait_until t w))
  sleep last bo (timer t) w = again bo (wait_until t w)

  unfoldable pub retry : ℕ → Backoff → Err → World E → Next
  retry attempt bo e w =
      let w' = report_retry attempt e w in
      let (delay, bo') = next bo (w'.draw attempt) in
      sleep e bo' (select ctx w'.closes_at (w'.now + delay)) w'

  unfoldable pub settle : ℕ → Backoff → Result Conn × World E → Next
  settle attempt bo (ok c, w) = return (succeed c w)
  settle attempt bo (failed e, w) = elim (cause ctx w.now) [
    | some why ↦ return (fail (dial_wait_error rt.name why e) w)
    | none ↦
        if is_retryable_err e
        then retry attempt bo e w
        else return (fail (wrap "portless: dial route %q: %w" (rt.name ∷ []) e) w)
  ]

  abbrev pub proceed :
      (Backoff → World E → Option (Result Conn × World E)) → Next → Option (Result Conn × World E)
  proceed loop (return r) = some r
  proceed loop (again bo w) = loop bo w

  unfoldable pub dial_loop : ℕ → ℕ → Backoff → World E → Option (Result Conn × World E)
  dial_loop zero attempt bo w = none
  dial_loop (suc fuel) attempt bo w =
      proceed (dial_loop fuel (attempt + 1)) (settle attempt bo (try rt ctx network address w))

module _ {E : Type 0} where
  -- dialRoute
  unfoldable pub dial_route :
      ℕ → List ℕ → Context → Route E → Text → Text → World E → Option (Result Conn × World E)
  dial_route fuel handlers ctx rt network address w =
      dial_loop handlers (ready_context ctx rt w.now) rt network address w.now fuel 0
        (new 25000000 500000000) (emit handlers (plain_event event_dial_start rt.name address) w)

-- ===== src/Readiness/Outcome.antt =====
-- What the result of the readiness loop says: where a connection comes from, and what each error
-- means.
use go_portless.Common.{
  ℕ, zero, suc, ◌+◌, ◌≤◌, ◌≡◌, refl, ap, subst, ◌⊎◌, inl, inr, false, ◌||◌, Option, none, some,
  List, arith, Bool-cases, Option-cases, Text,
}
use mathlib.Core.Option.{some-injective}
use go_portless.Backoff.{Backoff}
use go_portless.Errors.{Err, Sentinel, sentinel, closed, is, is_retryable, is_retryable_err}
use go_portless.Dial.{
  DialFunc, HealthCheck, Result, ok, failed, World, Context, Conn, Event, EventType,
  event_dial_success, event_dial_error, emit, cause, ends, cause_at,
}
use go_portless.Route.{Route}
use go_portless.Readiness.{
  Wake, ctx_done, registry_done, timer, wake_by, wake_of, select, ready_context, judge, gate, try,
  fail, succeed, report_retry, wait_until, later, Next, return, again, sleep, retry, settle,
  proceed, dial_loop, dial_route, dial_wait_error,
}

module _ {E : Type 0} where
  -- The health check, if there is one, finds the backend healthy.
  abbrev pub IsHealthy : Option (HealthCheck E) → DialFunc E → Context → World E → Type 0
  IsHealthy none d ctx w = Unit {0}
  IsHealthy (some check) d ctx w = (check ctx d w).0 ≡ none

  judge-ok :
      (c c' : Conn) (r : Option Err × World E) → (judge c r).0 ≡ ok c' → (c ≡ c') × (r.0 ≡ none)
  unfolding judge
  judge-ok c c' (none, w) e = ground arith
  judge-ok c c' (some e', w) e = cc

  gate-ok :
      (health : Option (HealthCheck E)) (d : DialFunc E) (ctx : Context) (r : Result Conn × World E)
      (c : Conn)
      → (gate health d ctx r).0 ≡ ok c
      → (r.0 ≡ ok c) × IsHealthy health d ctx r.1
  unfolding gate
  gate-ok health d ctx (failed e', w) c e = cc
  gate-ok none d ctx (ok c', w) c e = (e, tt)
  gate-ok (some check) d ctx (ok c', w) c e =
      let (same, healthy) = judge-ok c' c (check ctx d w) e in (ap ok same, healthy)

later-ge : (s t : ℕ) → t ≤ later s t
later-ge s t = ground arith

module _ {E : Type 0} (handlers : List ℕ) (ctx : Context) (rt : Route E) (network address : Text)
    (start : ℕ) where
  -- An attempt in some state of the world failed with this error.
  abbrev pub Attempted : Err → Type 0
  Attempted e = (w : World E) × ((try rt ctx network address w).0 ≡ failed e)

  -- The context has ended by now, for this reason.
  abbrev pub Ended : Err → World E → Type 0
  Ended why w = (t : ℕ) × (ends ctx ≡ some (t, why)) × (t ≤ w.now)

  -- The registry has closed by now.
  abbrev pub IsShut : Err → World E → Type 0
  IsShut e w = (e ≡ sentinel closed) × ((t : ℕ) × (w.closes_at ≡ some t) × (t ≤ w.now))

  -- The last thing that the handlers are told.
  abbrev pub Told : EventType → Option Err → World E → Type 0
  Told type e w =
      (v : World E) × (ev : Event) × (w ≡ emit handlers ev v) × (ev.type ≡ type) × (ev.err ≡ e)

  abbrev pub WaitFailed : Err → World E → Type 0
  WaitFailed e w =
      (why : Err) × (last : Err) × Ended why w
      × Attempted last
      × ((s : Sentinel) → is s e ≡ (is s why || is s last))

  abbrev pub DialFailed : Err → World E → Type 0
  DialFailed e w =
      (last : Err) × Attempted last
      × (cause ctx w.now ≡ none)
      × (is_retryable (some last) ≡ false)
      × ((s : Sentinel) → is s e ≡ is s last)

  abbrev pub Reason : Err → World E → Type 0
  Reason e w = IsShut e w ⊎ WaitFailed e w ⊎ DialFailed e w

  abbrev pub Explained : Result Conn × World E → Type 0
  Explained (ok c, w') =
      ((w : World E) × ((rt.dial ctx network address w).0 ≡ ok c)
        × IsHealthy rt.cfg.health rt.backend.dial_context ctx (rt.dial ctx network address w).1)
      × Told event_dial_success none w'
  Explained (failed e, w') = Reason e w' × Told event_dial_error (some e) w'

  abbrev NextExplained : Next handlers ctx rt network address start → Type 0
  NextExplained (return r) = Explained r
  NextExplained (again bo w) = Unit

  fail-Told :
      (e : Err) (w : World E)
      → Told event_dial_error (some e) (fail handlers ctx rt network address start e w).1
  unfolding fail
  fail-Told e w = (w, _, refl, refl, refl)

  fail-result :
      (e : Err) (w : World E) → (fail handlers ctx rt network address start e w).0 ≡ failed e
  unfolding fail
  fail-result e w = refl

  fail-Explained :
      (e : Err) (w : World E)
      → Reason e w
      → Explained (fail handlers ctx rt network address start e w)
  unfolding fail emit
  fail-Explained e w why = (why, fail-Told e w)

  wait-WaitFailed :
      (why last : Err) (w : World E)
      → Ended why w
      → Attempted last
      → WaitFailed (dial_wait_error rt.name why last) w
  unfolding dial_wait_error is
  wait-WaitFailed why last w h a = (why, last, h, a, λ s. refl)

  sleep-Explained :
      (last : Err) (bo : Backoff) (k : Wake) (w : World E)
      → Attempted last
      → ((t : ℕ) (why : Err) → k ≡ ctx_done t why → ends ctx ≡ some (t, why))
      → ((t : ℕ) → k ≡ registry_done t → w.closes_at ≡ some t)
      → NextExplained (sleep handlers ctx rt network address start last bo k w)
  unfolding sleep wait_until
  sleep-Explained last bo (ctx_done t why) w a h g =
      fail-Explained _ (wait_until t w) (
        inr (inl (wait-WaitFailed why last (wait_until t w) (t, h t why refl, later-ge w.now t) a)))
  sleep-Explained last bo (registry_done t) w a h g =
      fail-Explained _ (wait_until t w) (inl (refl, (t, g t refl, later-ge w.now t)))
  sleep-Explained last bo (timer t) w a h g = tt

wake-ctx_done :
    (o : Option (ℕ × Err)) (closes_at : Option ℕ) (due t : ℕ) (why : Err)
    → wake_of o (wake_by due closes_at) ≡ ctx_done t why
    → o ≡ some (t, why)
wake-ctx_done none none due t why e = ground arith
wake-ctx_done none (some c) due t why e = ground arith
wake-ctx_done (some (s, d)) none due t why e = ground arith
wake-ctx_done (some (s, d)) (some c) due t why e = ground arith

wake-registry_done :
    (o : Option (ℕ × Err)) (closes_at : Option ℕ) (due t : ℕ)
    → wake_of o (wake_by due closes_at) ≡ registry_done t
    → closes_at ≡ some t
wake-registry_done none none due t e = ground arith
wake-registry_done none (some c) due t e = ground arith
wake-registry_done (some (s, d)) none due t e = ground arith
wake-registry_done (some (s, d)) (some c) due t e = ground arith

cause_at-ends :
    (now : ℕ) (o : Option (ℕ × Err)) (why : Err)
    → cause_at now o ≡ some why
    → (t : ℕ) × (o ≡ some (t, why)) × (t ≤ now)
cause_at-ends now none why e = cc
cause_at-ends now (some (t, d)) why e = (t, ground arith, ground arith)

module _ {E : Type 0} (handlers : List ℕ) (ctx : Context) (rt : Route E) (network address : Text)
    (start : ℕ) where
  retry-Explained :
      (attempt : ℕ) (bo : Backoff) (last : Err) (w : World E)
      → Attempted handlers ctx rt network address start last
      → NextExplained handlers ctx rt network address start
          (retry handlers ctx rt network address start attempt bo last w)
  unfolding retry select
  retry-Explained attempt bo last w a =
      let w' = report_retry handlers ctx rt network address start attempt last w in
      sleep-Explained handlers ctx rt network address start last _ _ w' a
        (λ t why k. wake-ctx_done (ends ctx) w'.closes_at _ t why k)
        (λ t k. wake-registry_done (ends ctx) w'.closes_at _ t k)

  settle-failed :
      (attempt : ℕ) (bo : Backoff) (e : Err) (w : World E)
      → Attempted handlers ctx rt network address start e
      → NextExplained handlers ctx rt network address start
          (settle handlers ctx rt network address start attempt bo (failed e, w))
  unfolding settle
  settle-failed attempt bo e w a = elim (Option-cases (cause ctx w.now)) [
    | inr (why, ended) ↦
        rw (ended, settle)
          (fail-Explained handlers ctx rt network address start _ w (
            inr (
              inl (
                wait-WaitFailed handlers ctx rt network address start why e w
                  (unfold cause in cause_at-ends w.now (ends ctx) why ended) a))))
    | inl running ↦
        rw (running, settle)
          (elim (Bool-cases (is_retryable_err e)) [
            | inl yes_again ↦ rw yes_again (retry-Explained attempt bo e w a)
            | inr final ↦ rw final (
                fail-Explained handlers ctx rt network address start _ w (
                  inr
                    (inr (e, a, running, (unfold is_retryable in final), λ s. unfold is in refl))))
          ])
  ]

  settle-Explained :
      (attempt : ℕ) (bo : Backoff) (w : World E) (r : Result Conn × World E)
      → try rt ctx network address w ≡ r
      → NextExplained handlers ctx rt network address start
          (settle handlers ctx rt network address start attempt bo r)
  settle-Explained attempt bo w (failed e, w') same =
      settle-failed attempt bo e w' (w, ap (λ r. r.0) same)
  settle-Explained attempt bo w (ok c, w') same =
      let (given, healthy) =
        gate-ok rt.cfg.health rt.backend.dial_context ctx (rt.dial ctx network address w) c
          (unfold try in ap (λ r. r.0) same) in
      unfold settle succeed in ((w, given, healthy), (w', _, refl, refl, refl))

  proceed-Explained :
      (loop : Backoff → World E → Option (Result Conn × World E))
      (n : Next handlers ctx rt network address start) (r : Result Conn × World E)
      → NextExplained handlers ctx rt network address start n
      → ((bo : Backoff) (w : World E)
          → loop bo w ≡ some r
          → Explained handlers ctx rt network address start r)
      → proceed handlers ctx rt network address start loop n ≡ some r
      → Explained handlers ctx rt network address start r
  proceed-Explained loop (return q) r h rest e =
      subst (Explained handlers ctx rt network address start) (some-injective _ _ e) h
  proceed-Explained loop (again bo w) r h rest e = rest bo w e

  dial_loop-Explained :
      (fuel attempt : ℕ) (bo : Backoff) (w : World E) (r : Result Conn × World E)
      → dial_loop handlers ctx rt network address start fuel attempt bo w ≡ some r
      → Explained handlers ctx rt network address start r
  unfolding dial_loop
  dial_loop-Explained zero attempt bo w r e = cc
  dial_loop-Explained (suc fuel) attempt bo w r e =
      proceed-Explained _ _ r (settle-Explained attempt bo w _ refl)
        (λ bo' w' e'. dial_loop-Explained fuel (attempt + 1) bo' w' r e') e

module _ {E : Type 0} where
  -- What a dial of a route returns, under the context capped by the ready timeout. A connection
  -- is one that the route's dial gave and that the health check, if there is one, then passed. An
  -- error is ErrClosed, and by the time of the return the registry has closed; or the context has
  -- ended by then, and the error wraps its cause and an attempt's error, so that errors.Is finds
  -- what either holds and nothing else; or the context has not ended, and the error wraps that of
  -- an attempt that is not retryable. The last event says whether there is a connection, and
  -- carries the error.
  pub dial_route-Explained :
      (fuel : ℕ) (handlers : List ℕ) (ctx : Context) (rt : Route E) (network address : Text)
      (w : World E) (r : Result Conn × World E)
      → dial_route fuel handlers ctx rt network address w ≡ some r
      → Explained handlers (ready_context ctx rt w.now) rt network address w.now r
  unfolding dial_route
  dial_route-Explained fuel handlers ctx rt network address w r e =
      dial_loop-Explained handlers (ready_context ctx rt w.now) rt network address w.now fuel 0 _ _
        r e

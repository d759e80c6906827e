-- ===== src/Readiness/Termination.antt =====
-- The readiness loop ends: every wait takes at least three quarters of the backoff's minimum, and
-- the context of the loop always has a deadline.
use go_portless.Common.{
  ℕ, zero, suc, ◌+◌, ◌-◌, ◌*◌, ◌≤◌, ◌<◌, ◌≡◌, refl, ◌∙◌, inl, inr, Option, none, some, List, arith,
  leb, Bool-cases, Option-cases, Text,
}
use go_portless.Backoff.{Backoff, new, next}
use go_portless.Backoff.Sequence.{IsValid, next-ge, new-IsValid}
use go_portless.Errors.{Err, is_retryable_err}
use go_portless.Dial.{
  DialFunc, HealthCheck, Result, ok, failed, World, Context, Conn, Event, plain_event,
  event_dial_start, emit, close_conn, cause, ends, with_timeout_cause, earlier,
}
use go_portless.Route.{Route}
use go_portless.Readiness.{
  Wake, ctx_done, registry_done, timer, wake_by, wake_of, select, wait_until, ready_context, capped,
  judge, gate, try, report_retry, Next, return, again, sleep, retry, settle, proceed, dial_loop,
  dial_route,
}

-- The shortest wait between two attempts, 18.75 ms.
abbrev pub shortest_wait : ℕ
shortest_wait = 18750000

-- The backoff of the loop.
abbrev IsPaced : Backoff → Type 0
IsPaced b = IsValid b × (b.min ≡ 25000000) × (b.max ≡ 500000000)

next-IsPaced :
    (b : Backoff) (r : ℕ) → IsPaced b → (shortest_wait ≤ (next b r).0) × IsPaced (next b r).1
next-IsPaced b r (v, low, high) =
    let (ge, v', low', high') = next-ge b r v (omega arith) in
    (omega (arith, ge, low), (v', low' ∙ low, high' ∙ high))

module _ {E : Type 0} where
  -- A dial takes time, and does not turn the clock back.
  abbrev pub IsForward : DialFunc E → Type 0
  IsForward d =
      (ctx : Context) (network address : Text) (w : World E)
      → w.now ≤ (d ctx network address w).1.now

  abbrev pub IsForwardCheck : Option (HealthCheck E) → Type 0
  IsForwardCheck none = Unit
  IsForwardCheck (some h) =
      (ctx : Context) (d : DialFunc E) (w : World E) → w.now ≤ (h ctx d w).1.now

  judge-now : (c : Conn) (r : Option Err × World E) → (judge c r).1.now ≡ r.1.now
  unfolding judge close_conn
  judge-now c (none, w) = refl
  judge-now c (some e, w) = refl

  gate-now :
      (health : Option (HealthCheck E)) (d : DialFunc E) (ctx : Context) (r : Result Conn × World E)
      → IsForwardCheck health
      → r.1.now ≤ (gate health d ctx r).1.now
  unfolding gate
  gate-now none d ctx (failed e, w) f = omega arith
  gate-now none d ctx (ok c, w) f = omega arith
  gate-now (some h) d ctx (failed e, w) f = omega arith
  gate-now (some h) d ctx (ok c, w) f = rw (judge-now c (h ctx d w)) (f ctx d w)

  try-now :
      (rt : Route E) (ctx : Context) (network address : Text) (w : World E)
      → IsForward rt.dial
      → IsForwardCheck rt.cfg.health
      → w.now ≤ (try rt ctx network address w).1.now
  unfolding try
  try-now rt ctx network address w f g = omega (
    arith,
    f ctx network address w,
    gate-now rt.cfg.health rt.backend.dial_context ctx (rt.dial ctx network address w) g,
  )

wake-timer :
    (closes_at : Option ℕ) (due t at : ℕ) (why : Err)
    → wake_of (some (at, why)) (wake_by due closes_at) ≡ timer t
    → (t ≡ due) × (due < at)
wake-timer none due t at why s = ground arith
wake-timer (some c) due t at why s = ground arith

-- The select waits for the timer only if it is due before the context ends.
select-timer :
    (ctx : Context) (closes_at : Option ℕ) (due t at : ℕ) (why : Err)
    → ends ctx ≡ some (at, why)
    → select ctx closes_at due ≡ timer t
    → (t ≡ due) × (due < at)
unfolding select
select-timer ctx closes_at due t at why e s =
    wake-timer closes_at due t at why (rw (e, select) at s)

module _ {E : Type 0} (handlers : List ℕ) (ctx : Context) (rt : Route E) (network address : Text)
    (start at : ℕ) (why : Err) (deadline : ends ctx ≡ some (at, why)) (forward : IsForward rt.dial)
    (forward_check : IsForwardCheck rt.cfg.health) where
  -- What a round of the loop leaves if it goes on: a later time, still before the end.
  abbrev Progress : World E → Next handlers ctx rt network address start → Type 0
  Progress w (return r) = Unit
  Progress w (again bo w') = (w.now + shortest_wait ≤ w'.now) × (w'.now < at) × IsPaced bo

  sleep-Progress :
      (w w' : World E) (last : Err) (bo : Backoff) (k : Wake)
      → ((t : ℕ) → k ≡ timer t → (w.now + shortest_wait ≤ t) × (t < at))
      → w'.now ≡ w.now
      → IsPaced bo
      → Progress w (sleep handlers ctx rt network address start last bo k w')
  unfolding sleep wait_until
  sleep-Progress w w' last bo (ctx_done t e) h same p = tt
  sleep-Progress w w' last bo (registry_done t) h same p = tt
  sleep-Progress w w' last bo (timer t) h same p = ground (arith, h t refl)

  report_retry-now :
      (attempt : ℕ) (e : Err) (w : World E)
      → (report_retry handlers ctx rt network address start attempt e w).now ≡ w.now
  unfolding report_retry emit
  report_retry-now attempt e w = refl

  retry-Progress :
      (attempt : ℕ) (bo : Backoff) (e : Err) (w : World E)
      → IsPaced bo
      → Progress w (retry handlers ctx rt network address start attempt bo e w)
  unfolding retry
  retry-Progress attempt bo e w p =
      let w' = report_retry handlers ctx rt network address start attempt e w in
      let (ge, p') = next-IsPaced bo (w'.draw attempt) p in
      sleep-Progress w w' e _ _
        (λ t k.
          let (due, before) = select-timer ctx w'.closes_at _ t at why deadline k in
          omega (arith, due, before, ge, report_retry-now attempt e w))
        (report_retry-now attempt e w) p'

  settle-Progress :
      (attempt : ℕ) (bo : Backoff) (r : Result Conn × World E)
      → IsPaced bo
      → Progress r.1 (settle handlers ctx rt network address start attempt bo r)
  unfolding settle
  settle-Progress attempt bo (ok c, w) p = tt
  settle-Progress attempt bo (failed e, w) p = elim (Option-cases (cause ctx w.now)) [
    | inr (c, ended) ↦ rw (ended, settle) tt
    | inl running ↦
        rw (running, settle)
          (elim (Bool-cases (is_retryable_err e)) [
            | inl yes_again ↦ rw yes_again (retry-Progress attempt bo e w p)
            | inr final ↦ rw final tt
          ])
  ]

  Progress-from :
      (v w : World E) (n : Next handlers ctx rt network address start)
      → v.now ≤ w.now
      → Progress w n
      → Progress v n
  Progress-from v w (return r) h p = tt
  Progress-from v w (again bo w') h p = (omega arith, p.1, p.2)

  round-Progress :
      (attempt : ℕ) (bo : Backoff) (w : World E)
      → IsPaced bo
      → Progress w
          (settle handlers ctx rt network address start attempt bo (try rt ctx network address w))
  round-Progress attempt bo w p =
      Progress-from w (try rt ctx network address w).1 _
        (try-now rt ctx network address w forward forward_check)
        (settle-Progress attempt bo (try rt ctx network address w) p)

  abbrev Returns : Option (Result Conn × World E) → Type 0
  Returns o = (r : Result Conn × World E) × (o ≡ some r)

  proceed-Returns :
      (loop : Backoff → World E → Option (Result Conn × World E)) (fuel : ℕ) (w : World E)
      (n : Next handlers ctx rt network address start)
      → at - w.now < suc fuel * shortest_wait
      → Progress w n
      → ((bo : Backoff) (w' : World E)
          → IsPaced bo
          → at - w'.now < fuel * shortest_wait
          → Returns (loop bo w'))
      → Returns (proceed handlers ctx rt network address start loop n)
  proceed-Returns loop fuel w (return r) h p rest = (r, refl)
  proceed-Returns loop fuel w (again bo w') h (ge, before, paced) rest =
      rest bo w' paced (omega arith)

  dial_loop-Returns :
      (fuel attempt : ℕ) (bo : Backoff) (w : World E)
      → IsPaced bo
      → at - w.now < fuel * shortest_wait
      → Returns (dial_loop handlers ctx rt network address start fuel attempt bo w)
  unfolding dial_loop
  dial_loop-Returns zero attempt bo w p h = absurd (omega arith)
  dial_loop-Returns (suc fuel) attempt bo w p h =
      proceed-Returns _ fuel w _ h (round-Progress attempt bo w p)
        (λ bo' w' p' h'. dial_loop-Returns fuel (attempt + 1) bo' w' p' h')

-- When the readiness wait ends at the latest: at the caller's own deadline, or the route's ready
-- timeout from now if there is none.
abbrev pub latest : Option (ℕ × Err) → ℕ → ℕ → ℕ
latest none timeout now = now + timeout
latest (some (t, e)) timeout now = t

earlier-le :
    (t : ℕ) (e : Err) (o : Option (ℕ × Err))
    → (s : ℕ) × (d : Err) × (earlier (some (t, e)) o ≡ some (s, d)) × (s ≤ t)
earlier-le t e none = (t, e, refl, omega arith)
earlier-le t e (some (s, d)) = elim (Bool-cases (leb t s)) [
  | inl first ↦ (t, e, rw first, omega arith)
  | inr second ↦ (s, d, rw second, ground arith)
]

dial_backoff-IsPaced : IsPaced (new 25000000 500000000)
unfolding new
dial_backoff-IsPaced = (new-IsValid 25000000 500000000 (omega arith) (omega arith), refl, refl)

module _ {E : Type 0} where
  capped-ends :
      (o : Option (ℕ × Err)) (ctx : Context) (rt : Route E) (now : ℕ)
      → ctx.deadline ≡ o
      → (s : ℕ) × (d : Err) × (ends (capped o ctx rt now) ≡ some (s, d))
        × (s ≤ latest o rt.cfg.ready_timeout now)
  unfolding ends with_timeout_cause
  capped-ends (some (t, e)) ctx rt now same = rw same (earlier-le t e ctx.cancel)
  capped-ends none ctx rt now same = rw same (earlier-le (now + rt.cfg.ready_timeout) _ ctx.cancel)

  ready_context-ends :
      (ctx : Context) (rt : Route E) (now : ℕ)
      → (s : ℕ) × (d : Err) × (ends (ready_context ctx rt now) ≡ some (s, d))
        × (s ≤ latest ctx.deadline rt.cfg.ready_timeout now)
  unfolding ready_context
  ready_context-ends ctx rt now = capped-ends ctx.deadline ctx rt now refl

  emit-now : (handlers : List ℕ) (e : Event) (w : World E) → (emit handlers e w).now ≡ w.now
  unfolding emit
  emit-now handlers e w = refl

  -- The dial of a route always returns, with or without a deadline of the caller: one attempt for
  -- each 18.75 ms to the caller's deadline, or to the route's ready timeout where the caller has
  -- none, and one more, are enough. The dials and health checks themselves are taken to return,
  -- and not to turn the clock back.
  pub dial_route_returns :
      (fuel : ℕ) (handlers : List ℕ) (ctx : Context) (rt : Route E) (network address : Text)
      (w : World E)
      → IsForward rt.dial
      → IsForwardCheck rt.cfg.health
      → latest ctx.deadline rt.cfg.ready_timeout w.now - w.now < fuel * shortest_wait
      → (r : Result Conn × World E) × (dial_route fuel handlers ctx rt network address w ≡ some r)
  unfolding dial_route
  dial_route_returns fuel handlers ctx rt network address w f g h =
      let (at, why, deadline, le) = ready_context-ends ctx rt w.now in
      dial_loop-Returns handlers (ready_context ctx rt w.now) rt network address w.now at why
        deadline f g fuel 0 (new 25000000 500000000) _ dial_backoff-IsPaced
        (omega (arith, emit-now handlers (plain_event event_dial_start rt.name address) w))

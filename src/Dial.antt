-- ===== src/Dial.antt =====
-- middleware.go, events.go, backend.go and the configuration records of options.go: dial
-- functions and their middleware over an explicit world, the events, and the backends with their
-- optional capabilities.
-- `E` is the environment, all state outside the program that backends and middleware may read
-- and change. Times are nanoseconds on the monotonic clock.
pub mod Chain
use go_portless.Common.{
  ℕ, ◌+◌, Bool, false, Option, none, some, List, [], ◌∷◌, leb, if◌then◌else◌, Text, codes,
}
use go_portless.Errors.{Err}
use go_portless.Net.{ℤ, host_of}

-- EventType; its zero value is `event_invalid`.
pub data EventType : Type 0 where
  event_invalid event_route_added event_route_removed : EventType
  event_dial_start event_dial_retry event_dial_success event_dial_error : EventType
  event_backend_unhealthy event_backend_recovered : EventType

unfoldable pub event_string : EventType → Text
event_string event_invalid = codes "invalid"
event_string event_route_added = codes "route_added"
event_string event_route_removed = codes "route_removed"
event_string event_dial_start = codes "dial_start"
event_string event_dial_retry = codes "dial_retry"
event_string event_dial_success = codes "dial_success"
event_string event_dial_error = codes "dial_error"
event_string event_backend_unhealthy = codes "backend_unhealthy"
event_string event_backend_recovered = codes "backend_recovered"

-- `time` is `none` for the zero time.
pub record Event : Type 0 where
  pub type : EventType
  pub route : Text
  pub address : Text
  pub attempt : ℕ
  pub err : Option Err
  pub elapsed : ℕ
  pub time : Option ℕ

abbrev pub plain_event : EventType → Text → Text → Event
plain_event t route address = record {
  type = t;
  route = route;
  address = address;
  attempt = 0;
  err = none;
  elapsed = 0;
  time = none;
}

-- A connection, by its number.
abbrev pub Conn : Type 0
Conn = ℕ

-- `deadline` is the context's own deadline, and `cancel` the time at which its owner will cancel
-- it, each with the cause that context.Cause then reports.
pub record Context : Type 0 where
  pub deadline : Option (ℕ × Err)
  pub cancel : Option (ℕ × Err)

abbrev pub background : Context
background = record { deadline = none; cancel = none }

-- Who comes first.
abbrev pub earlier : Option (ℕ × Err) → Option (ℕ × Err) → Option (ℕ × Err)
earlier none b = b
earlier (some a) none = some a
earlier (some (s, a)) (some (t, b)) = if leb s t then some (s, a) else some (t, b)

-- When the context's Done channel closes, and its cause.
unfoldable pub ends : Context → Option (ℕ × Err)
ends c = earlier c.deadline c.cancel

abbrev pub cause_at : ℕ → Option (ℕ × Err) → Option Err
cause_at now none = none
cause_at now (some (t, e)) = if leb t now then some e else none

-- context.Cause(ctx) at the time now
unfoldable pub cause : Context → ℕ → Option Err
cause c now = cause_at now (ends c)

-- context.WithTimeoutCause: an earlier deadline of the parent stays.
unfoldable pub with_timeout_cause : Context → ℕ → ℕ → Err → Context
with_timeout_cause c now timeout e = record c {
  deadline = earlier (some (now + timeout, e)) c.deadline;
}

abbrev pub is_due : ℕ → Option ℕ → Bool
is_due now none = false
is_due now (some t) = leb t now

-- The clock; the events handed to each handler, newest first, with the handler's number; the
-- connections that the program has closed, and what the Close of a connection answers; when a
-- concurrent Close of the registry closes the channel `done`; and what the generator of the backoff
-- draws at each attempt.
pub record World (E : Type 0) : Type 0 where
  pub now : ℕ
  pub log : List (ℕ × Event)
  pub closed_conns : List Conn
  pub close_error : Conn → Option Err
  pub closes_at : Option ℕ
  pub draw : ℕ → ℕ
  pub env : E

pub data Result {ℓ} (A : Type ℓ) : Type ℓ where
  ok : A → Result A
  failed : Err → Result A

abbrev pub map_result {ℓ} : {A : Type ℓ} → (A → A) → Result A → Result A
map_result f (ok a) = ok (f a)
map_result f (failed e) = failed e

-- DialFunc; the arguments after the context are the network and the address.
abbrev pub DialFunc : Type 0 → Type 0
DialFunc E = Context → Text → Text → World E → Result Conn × World E

abbrev pub Middleware : Type 0 → Type 0
Middleware E = DialFunc E → DialFunc E

-- HealthCheck; `none` is nil.
abbrev pub HealthCheck : Type 0 → Type 0
HealthCheck E = Context → DialFunc E → World E → Option Err × World E

-- A call of a capability that may fail.
abbrev pub Action : Type 0 → Type 0
Action E = Context → World E → Option Err × World E

-- A backend, with the optional interfaces Starter, Stopper, Addresser and EventSinkSetter. An
-- address is its text; `number` tells one backend from another.
pub record Backend (E : Type 0) : Type 0 where
  pub number : ℕ
  pub dial_context : DialFunc E
  pub start : Option (Action E)
  pub stop : Option (Action E)
  pub addr : Option (World E → Option Text)
  pub set_event_sink : Option ((Event → World E → World E) → World E → World E)

-- routeConfig
pub record RouteConfig (E : Type 0) : Type 0 where
  pub ready_timeout : ℕ
  pub middleware : List (Middleware E)
  pub health : Option (HealthCheck E)
  pub port_map : List (ℤ × ℤ)
  pub host_rewrite : Text

-- config, the logger left out. Handlers are told apart by their numbers.
pub record Config (E : Type 0) : Type 0 where
  pub fallback : Option (DialFunc E)
  pub force_strict : Bool
  pub ready_timeout : ℕ
  pub middleware : List (Middleware E)
  pub handlers : List ℕ

-- time.Now() if the event has no time yet.
abbrev pub stamp : ℕ → Event → Event
stamp now e = record e { time = elim e.time [ none ↦ some now | some t ↦ some t ] }

unfoldable pub hand : List ℕ → Event → List (ℕ × Event) → List (ℕ × Event)
hand [] e log = log
hand (h ∷ hs) e log = hand hs e ((h, e) ∷ log)

module _ {E : Type 0} where
  -- chain: the first middleware is outermost.
  unfoldable pub chain : DialFunc E → List (Middleware E) → DialFunc E
  chain base [] = base
  chain base (m ∷ ms) = m (chain base ms)

  -- ConnWrapper
  unfoldable pub conn_wrapper : (Text → Conn → Conn) → Middleware E
  conn_wrapper wrap_conn following ctx network address w =
      let (r, w') = following ctx network address w in
      (map_result (wrap_conn (host_of address)) r, w')

  -- emit, given the handlers.
  unfoldable pub emit : List ℕ → Event → World E → World E
  emit handlers e w = record w { log = hand handlers (stamp w.now e) w.log }

  -- A concurrent Close has closed the registry by now.
  abbrev pub has_closed : World E → Bool
  has_closed w = is_due w.now w.closes_at

  unfoldable pub close_conn : Conn → World E → World E
  close_conn c w = record w { closed_conns = c ∷ w.closed_conns }

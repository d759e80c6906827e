-- ===== src/Bridge.antt =====
-- listenlocal.go, what runs behind a local listener: bridgeAccept, which accepts connections, and
-- bridgeConn up to the copying (the copies are in Pipe).
-- When the registry closes is part of the world. The goroutine that closes the client's connection
-- then is taken to have done so by the time the dial returns, if the registry has closed by then.
pub mod Served
pub mod Accepting
mod Tests
use go_portless.Common.{
  ℕ, Bool, true, false, Option, none, some, List, [], ◌∷◌, ◌++◌, if◌then◌else◌, Text, codes,
}
use mathlib.Core.Option
use go_portless.Errors.{Err, wrap, sentinel, route_not_found, canceled, net_closed, is}
use go_portless.Net.{ℤ, itoa, join_host_port}
use go_portless.Dial.{
  Result, ok, failed, World, Context, background, Conn, Event, plain_event, event_dial_error,
  close_conn, has_closed,
}
use go_portless.Route.{Route, bridge_dial_port}
use go_portless.Readiness.{dial_route}
use go_portless.Backoff.{Backoff, new, next, reset}
use go_portless.Registry.{Registry, emit_event, lookup_route}

-- The event of a bridge that does not come to a dial.
abbrev pub bridge_error : Text → Err → Event
bridge_error name e = record (plain_event event_dial_error name []) {
  err = some (wrap "portless: bridge %q: %w" (name ∷ []) e);
}

module _ {E : Type 0} where
  -- The context of a bridge's dial: it is cancelled when the registry closes.
  abbrev pub closing_context : World E → Context
  closing_context w = record background {
    cancel = Option.map (λ (t : ℕ). (t, sentinel canceled)) w.closes_at;
  }

  -- The client's connection is closed, and there is no connection to the backend.
  abbrev pub bridge_failed : Registry E → Text → Conn → Err → World E → Option Conn × World E
  bridge_failed r name conn e w = (none, close_conn conn (emit_event r (bridge_error name e) w))

  -- The goroutine that waits for the closing of the registry while the route is dialed.
  abbrev pub torn_down : Conn → World E → World E
  torn_down conn w = if has_closed w then close_conn conn w else w

  -- After the dial; a failure runs the deferred Close of the client's connection, once more.
  abbrev pub bridge_dialed : Conn → Result Conn × World E → Option Conn × World E
  bridge_dialed conn (ok upstream, w) = (some upstream, torn_down conn w)
  bridge_dialed conn (failed e, w) = (none, close_conn conn (torn_down conn w))

  abbrev pub bridge_address : Route E → ℤ → Text
  bridge_address rt port = join_host_port rt.name (itoa port)

  abbrev pub bridge_to :
      ℕ → Registry E → Text → Conn → Route E → Result ℤ → World E → Option (Option Conn × World E)
  bridge_to fuel r name conn rt (failed e) w = some (bridge_failed r name conn e w)
  bridge_to fuel r name conn rt (ok port) w = Option.map (bridge_dialed conn) (
      dial_route fuel r.cfg.handlers (closing_context w) rt (codes "tcp") (bridge_address rt port)
        w)

  -- bridgeConn up to its copies: the connection to the backend, if there is one. The fuel is that of
  -- the readiness wait.
  unfoldable pub bridge_conn :
      ℕ → Registry E → Text → Conn → World E → Option (Option Conn × World E)
  bridge_conn fuel r name conn w =
      if r.closed then some (none, close_conn conn w) else elim (lookup_route r name) [
        | none ↦ some (bridge_failed r name conn (sentinel route_not_found) w)
        | some rt ↦ bridge_to fuel r name conn rt (bridge_dial_port rt.cfg.port_map) w
      ]

-- What Accept answers: a connection; or an error, with what the generator of the backoff draws and
-- whether the registry closes before the delay is over.
pub data Accepted : Type 0 where
  accepted : Conn → Accepted
  refused : Err → ℕ → Bool → Accepted

-- What the loop does: it hands a connection to bridgeConn, or waits.
pub data Deed : Type 0 where
  serves : Conn → Deed
  waits : ℕ → Deed

-- After an Accept: what is done, and the backoff with which the loop goes on, unless it returns.
unfoldable pub accept_step : Backoff → Accepted → List Deed × Option Backoff
accept_step bo (accepted c) = (serves c ∷ [], some (reset bo))
accept_step bo (refused e draw stopped) =
    if is net_closed e
    then ([], none)
    else let (d, bo') = next bo draw in (waits d ∷ [], if stopped then none else some bo')

abbrev pub then_on :
    List Deed × Option Backoff → (Backoff → List Deed × Option Backoff) → List Deed × Option Backoff
then_on (ds, none) go_on = (ds, none)
then_on (ds, some bo) go_on = let (es, o) = go_on bo in (ds ++ es, o)

-- The loop over the answers of Accept.
unfoldable pub accept_loop : List Accepted → Backoff → List Deed × Option Backoff
accept_loop [] bo = ([], some bo)
accept_loop (a ∷ rest) bo = then_on (accept_step bo a) (accept_loop rest)

-- bridgeAccept: between 5 milliseconds and a second.
unfoldable pub bridge_accept : List Accepted → List Deed × Option Backoff
bridge_accept answers = accept_loop answers (new 5000000 1000000000)

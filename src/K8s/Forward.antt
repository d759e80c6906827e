-- ===== src/K8s/Forward.antt =====
-- k8s/portforward.go: the cached connection of a port forward. Each part of an operation that the
-- source runs under the lock is a function of its own; connections are numbers.
pub mod Interleaved
pub mod Leaks
pub mod Healing
mod Tests
use go_portless.Common.{
  ℕ, ◌+◌, ◌%◌, Bool, true, false, Option, none, some, List, [], ◌∷◌, ◌++◌, ◌==◌, if◌then◌else◌,
}
use go_portless.Errors.{Err, errorf, wrap, retryable}
use go_portless.Dial.{Result, ok, failed}

-- portForward: the cached connection, whether it is stopped, and whether Start has run.
pub record Forward : Type 0 where
  pub conn : Option ℕ
  pub closed : Bool
  pub started : Bool

-- The state after a lock section, what it answers, and the connections that it closes.
abbrev pub Section : Type 0 → Type 0
Section A = Forward × A × List ℕ

abbrev pub new_forward : Forward
new_forward = record { conn = none; closed = false; started = false }

abbrev pub backend_stopped : Err
backend_stopped = errorf "k8s: backend stopped" []

unfoldable pub start : Forward → Forward
start f = record f { started = true }

abbrev pub held_conns : Option ℕ → List ℕ
held_conns none = []
held_conns (some c) = c ∷ []

-- Stop; it returns nil.
unfoldable pub stop : Forward → Forward × List ℕ
stop f = if f.closed then (f, []) else (record f { conn = none; closed = true }, held_conns f.conn)

abbrev pub if_alive : (ℕ → Bool) → Option ℕ → Option ℕ
if_alive alive none = none
if_alive alive (some c) = if alive c then some c else none

-- The first lock section of ensureConn: the cached connection, if it is alive.
unfoldable pub cached : (ℕ → Bool) → Forward → Option ℕ
cached alive f = if_alive alive f.conn

abbrev pub install_over : Option ℕ → Forward → ℕ → Section (Result ℕ × Bool)
install_over (some existing) f c = (f, (ok existing, false), c ∷ [])
install_over none f c = (record f { conn = some c }, (ok c, true), held_conns f.conn)

-- The second: a connection is kept, unless the forward has been stopped or another dial was
-- faster. The answer is the connection to use, and whether EventBackendRecovered is due.
unfoldable pub install : (ℕ → Bool) → Forward → ℕ → Section (Result ℕ × Bool)
install alive f c =
    if f.closed
    then (f, (failed backend_stopped, false), c ∷ [])
    else install_over (if_alive alive f.conn) f c

abbrev pub is_conn : Option ℕ → ℕ → Bool
is_conn none c = false
is_conn (some d) c = d == c

-- dropConn: only the connection that is cached is closed.
unfoldable pub drop_conn : Forward → ℕ → Forward × List ℕ
drop_conn f c = if is_conn f.conn c then (record f { conn = none }, c ∷ []) else (f, [])

-- The events that DialContext emits.
pub data Signal : Type 0 where
  recovered unhealthy : Signal

abbrev pub Dialed : Type 0 → Type 0
Dialed A = Forward × Result A × List ℕ × List Signal

abbrev pub installed : (ℕ → Bool) → Forward → Result ℕ → Section (Result ℕ × Bool)
installed alive f (failed e) = (f, (failed e, false), [])
installed alive f (ok c) = install alive f c

abbrev pub ensured : Option ℕ → (ℕ → Bool) → Forward → Result ℕ → Section (Result ℕ × Bool)
ensured (some c) alive f answer = (f, (ok c, false), [])
ensured none alive f answer = installed alive f answer

-- ensureConn when nothing else runs, given what resolving and dialing the pod answers.
unfoldable pub ensure_conn : (ℕ → Bool) → Forward → Result ℕ → Section (Result ℕ × Bool)
ensure_conn alive f answer = ensured (cached alive f) alive f answer

module _ {C : Type 0} where
  abbrev pub streamed : Forward → ℕ → List ℕ → List Signal → Result C → Dialed C
  streamed f c cs ss (ok stream) = (f, ok stream, cs, ss)
  streamed f c cs ss (failed e) =
      let (f', ds) = drop_conn f c in
      (f', failed (retryable (wrap "k8s: open stream: %w" [] e)), cs ++ ds, ss ++ unhealthy ∷ [])

  abbrev pub connected : (ℕ → Result C) → Section (Result ℕ × Bool) → Dialed C
  connected dial_stream (f, (failed e, b), cs) =
      (f, failed (retryable (wrap "k8s: connect to pod: %w" [] e)), cs, [])
  connected dial_stream (f, (ok c, b), cs) =
      streamed f c cs (if b then recovered ∷ [] else []) (dial_stream c)

  -- DialContext when nothing else runs.
  unfoldable pub dial_context : (ℕ → Bool) → (ℕ → Result C) → Forward → Result ℕ → Dialed C
  dial_context alive dial_stream f answer =
      if f.closed
      then (f, failed backend_stopped, [], [])
      else connected dial_stream (ensure_conn alive f answer)

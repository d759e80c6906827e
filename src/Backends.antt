-- ===== src/Backends.antt =====
-- backend/: the backends of fixed addresses (tcp.go, listener.go), the one whose address is set
-- later (future.go), and ReservePorts (ports.go). The plain dialer and the system's listeners are
-- arguments.
pub mod Serving
pub mod Reserving
pub mod Parse
pub mod Mem
mod Tests
use go_portless.Common.{ℕ, zero, suc, ◌+◌, ◌%◌, not, Option, none, some, List, [], ◌∷◌, ◌++◌, Text}
use go_portless.Errors.{errorf, wrap, retryable}
use go_portless.Net.{ℤ, itoa, pos, negsuc}
use go_portless.Dial.{DialFunc, Backend, RouteConfig, Result, ok, failed, World, Context}
use go_portless.Registry.{Registry, Added, reserve, add}

abbrev pub address_once_set : Text → Option Text
address_once_set [] = none
address_once_set (c ∷ s) = some (c ∷ s)

-- What ListenAndAdd returns, with the listeners that it closes again.
abbrev pub Listened : Type 0 → Type 0
Listened E = Registry E × Result ℕ × List ℕ × World E

module _ {E : Type 0} where
  -- TCP: the dialed address is ignored for the fixed one.
  unfoldable pub tcp_backend : ℕ → DialFunc E → Text → Backend E
  tcp_backend number dialer address = record {
    number = number;
    dial_context = λ ctx network ignored w. dialer ctx network address w;
    start = none;
    stop = none;
    addr = some (λ w. some address);
    set_event_sink = none;
  }

  abbrev pub dial_once_set : DialFunc E → Text → DialFunc E
  dial_once_set dialer [] ctx network ignored w =
      (failed (retryable (errorf "portless: future backend address not set yet" [])), w)
  dial_once_set dialer (c ∷ s) ctx network ignored w = dialer ctx network (c ∷ s) w

  -- Future, whose address is read from the environment at each call; Set is not part of it.
  unfoldable pub future_backend : ℕ → DialFunc E → (E → Text) → Backend E
  future_backend number dialer address = record {
    number = number;
    dial_context =
        λ ctx network ignored w. dial_once_set dialer (address w.env) ctx network ignored w;
    start = none;
    stop = none;
    addr = some (λ w. address_once_set (address w.env));
    set_event_sink = none;
  }

  abbrev pub listen_added : ℕ → Added E → Listened E
  listen_added l (r, failed e, w) = (r, failed e, l ∷ [], w)
  listen_added l (r, ok rt, w) = (r, ok l, [], w)

  -- ListenAndAdd, given what net.Listen answers, a listener and its address.
  unfoldable pub listen_and_add :
      Registry E
      → Context
      → Text
      → ℕ
      → DialFunc E
      → List (RouteConfig E → RouteConfig E)
      → Result (ℕ × Text)
      → World E
      → Listened E
  listen_and_add r ctx name number dialer options (failed e) w =
      (r, failed (wrap "backend: listen for %q: %w" (name ∷ []) e), [], w)
  listen_and_add r ctx name number dialer options (ok (l, address)) w =
      listen_added l (add r ctx name (some (tcp_backend number dialer address)) options w)

-- The system's answers to net.Listen on a port of its choice, for tcp4 and for tcp: a port, given
-- those that are listened on at that time.
pub record Os : Type 0 where
  pub listen_tcp4 : List ℕ → Result ℕ
  pub listen_tcp : List ℕ → Result ℕ

abbrev pub or_tcp : Result ℕ → Result ℕ → Result ℕ
or_tcp (ok p) q = ok p
or_tcp (failed e) q = q

abbrev pub reserve_next :
    List ℕ → Result ℕ → (List ℕ → Result (List ℕ) × List ℕ) → Result (List ℕ) × List ℕ
reserve_next held (failed e) rest = (failed (wrap "backend: reserve ports: %w" [] e), held)
reserve_next held (ok p) rest = rest (held ++ p ∷ [])

-- The loop of ReservePorts: the ports so far are those whose listeners are held. The answer comes
-- with the listeners that the deferred call then closes.
unfoldable pub reserve_loop : Os → ℕ → List ℕ → Result (List ℕ) × List ℕ
reserve_loop os zero held = (ok held, held)
reserve_loop os (suc n) held =
    reserve_next held (or_tcp (os.listen_tcp4 held) (os.listen_tcp held)) (reserve_loop os n)

abbrev pub not_positive : ℤ → Result (List ℕ) × List ℕ
not_positive n =
    (failed (errorf "backend: reserve ports: n must be positive, got %d" (itoa n ∷ [])), [])

-- ReservePorts
unfoldable pub reserve_ports : Os → ℤ → Result (List ℕ) × List ℕ
reserve_ports os (pos zero) = not_positive (pos zero)
reserve_ports os (pos (suc n)) = reserve_loop os (suc n) []
reserve_ports os (negsuc n) = not_positive (negsuc n)

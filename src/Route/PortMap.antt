-- ===== src/Route/PortMap.antt =====
-- The port map of a route's dial.
use go_portless.Common.{
  ◌≡◌, refl, ◌≢◌, ◌⊎◌, inl, inr, true, false, none, some, List, [], ◌∷◌, arith, Option-cases, Text,
}
use go_portless.Errors.{Err, errorf, is_retryable}
use go_portless.Errors.Laws.{is_retryable-errorf}
use go_portless.Net.{ℤ, pos, negsuc, int_eq, itoa, join_host_port}
use go_portless.Net.Numbers.{InRange, atoi-itoa, contains-itoa}
use go_portless.Net.HostPort.{IsBare, IsPort, split_host_port-join_host_port}
use go_portless.Dial.{DialFunc, Middleware, Backend, RouteConfig, ok, failed, World, Context, chain}
use go_portless.Dial.Chain.{chain-append}
use go_portless.Route.{find_port, map_address, base_dial, build, ready_port, bridge_dial_port}

itoa-IsPort : (z : ℤ) → IsPort (itoa z)
itoa-IsPort z = (
  (contains-itoa b'[' z refl (omega arith), contains-itoa b']' z refl (omega arith)),
  contains-itoa b':' z refl (omega arith),
)

map_address_lem :
    (name : Text) (ports : List (ℤ × ℤ)) (host : Text) (p : ℤ)
    → IsBare host
    → InRange p
    → map_address name ports (join_host_port host (itoa p)) ≡ elim (find_port p ports) [
      | none ↦ failed (errorf "portless: route %q: port %d not in port map" (name ∷ itoa p ∷ []))
      | some mapped ↦ ok (join_host_port host (itoa mapped))
    ]
unfolding map_address
map_address_lem name ports host p h r =
    rw (split_host_port-join_host_port host (itoa p) h (itoa-IsPort p), map_address)
      (rw (atoi-itoa p r))

int_eq_refl : (p : ℤ) → int_eq p p ≡ true
unfolding int_eq
int_eq_refl (pos n) = ground arith
int_eq_refl (negsuc n) = ground arith

module _ {E : Type 0} where
  -- A dial of a mapped port reaches the backend under the mapped port, with host, network and
  -- context as they were. A dial of any other port fails with an error that is not retried, and
  -- does nothing. The host is written without brackets and the port is an int.
  pub port_map_dial :
      (name : Text) (m : ℤ × ℤ) (ms : List (ℤ × ℤ)) (backend_dial : DialFunc E) (ctx : Context)
      (network host : Text) (p : ℤ) (w : World E)
      → IsBare host
      → InRange p
      → let result =
          base_dial name (m ∷ ms) backend_dial ctx network (join_host_port host (itoa p)) w in
        ((mapped : ℤ) × (find_port p (m ∷ ms) ≡ some mapped)
          × (result ≡ backend_dial ctx network (join_host_port host (itoa mapped)) w))
        ⊎ ((e : Err) × (find_port p (m ∷ ms) ≡ none)
            × (result ≡ (failed e, w))
            × (is_retryable (some e) ≡ false))
  unfolding base_dial
  port_map_dial name m ms backend_dial ctx network host p w h r =
      elim (Option-cases (find_port p (m ∷ ms))) [
        | inl missing ↦ inr (
          errorf "portless: route %q: port %d not in port map" (name ∷ itoa p ∷ []),
          missing,
          rw (map_address_lem name (m ∷ ms) host p h r) (rw missing),
          is_retryable-errorf _ _,
        )
        | inr (mapped, found) ↦
            inl (mapped, found, rw (map_address_lem name (m ∷ ms) host p h r) (rw found))
      ]

  -- The route's dial is the registry's middleware around the route's own around the port map and
  -- the backend.
  pub build-dial :
      (name : Text) (b : Backend E) (cfg : RouteConfig E)
      (registry_middleware : List (Middleware E))
      → (build name b cfg registry_middleware).dial
        ≡ chain
            (chain (base_dial name cfg.port_map b.dial_context) cfg.middleware)
            registry_middleware
  unfolding build
  build-dial name b cfg registry_middleware = chain-append _ registry_middleware cfg.middleware

find_port-head : (p m : ℤ) (ms : List (ℤ × ℤ)) → find_port p ((p, m) ∷ ms) ≡ some m
unfolding find_port
find_port-head p m ms = rw (int_eq_refl p)

-- The port that Ready dials is one that the map accepts. A bridge has a port exactly if the map
-- has one entry, and then it is that entry's; otherwise it fails with an error that is not
-- retried.
pub probe_ports :
    (m : ℤ × ℤ) (ms : List (ℤ × ℤ))
    → (find_port (ready_port (m ∷ ms)) (m ∷ ms) ≡ some m.1)
      × (((ms ≡ []) × (bridge_dial_port (m ∷ ms) ≡ ok m.0))
          ⊎ ((e : Err) × (ms ≢ [])
              × (bridge_dial_port (m ∷ ms) ≡ failed e)
              × (is_retryable (some e) ≡ false)))
unfolding ready_port bridge_dial_port
probe_ports (q, n) [] = (find_port-head q n [], inl (refl, refl))
probe_ports (q, n) (a ∷ ms) =
    (find_port-head q n (a ∷ ms), inr (_, (λ h. cc), refl, is_retryable-errorf _ _))

-- ===== src/Route.antt =====
-- route.go: a route, its compiled dial chain with the port map, and the port a bridge dials.
pub mod PortMap
use go_portless.Common.{
  ◌+◌, ◌%◌, not, Option, none, some, List, [], ◌∷◌, ◌++◌, map, if◌then◌else◌, length, Text, text_eq,
}
use go_portless.Errors.{errorf, wrap}
use go_portless.Net.{ℤ, pos, int_eq, atoi, itoa, split_host_port, join_host_port}
use go_portless.Dial.{
  DialFunc, Middleware, Backend, RouteConfig, Result, ok, failed, World, Context, Conn, chain,
}

-- The back pointer to the registry is left out; what needs the registry takes it as an argument.
pub record Route (E : Type 0) : Type 0 where
  pub name : Text
  pub backend : Backend E
  pub cfg : RouteConfig E
  pub dial : DialFunc E

-- portMap[port]
unfoldable pub find_port : ℤ → List (ℤ × ℤ) → Option ℤ
find_port p [] = none
find_port p ((q, m) ∷ ms) = if int_eq q p then some m else find_port p ms

-- The address that the port map makes of the address of a dial.
unfoldable pub map_address : Text → List (ℤ × ℤ) → Text → Result Text
map_address name port_map address = elim (split_host_port address) [
  | none ↦ failed (errorf "portless: route %q: address %q has no port to map" (name ∷ address ∷ []))
  | some (host, port_text) ↦ elim (atoi port_text) [
    | none ↦ failed (
        wrap "portless: route %q: bad port in %q: %w" (name ∷ address ∷ [])
          (errorf "strconv.Atoi: %q" (port_text ∷ [])))
    | some port ↦ elim (find_port port port_map) [
      | none ↦ failed (errorf "portless: route %q: port %d not in port map" (name ∷ itoa port ∷ []))
      | some mapped ↦ ok (join_host_port host (itoa mapped))
    ]
  ]
]

-- Ready dials a mapped port if there is a port map: Go's map has no order, so the first entry
-- of the list stands for whichever comes up.
unfoldable pub ready_port : List (ℤ × ℤ) → ℤ
ready_port [] = pos 0
ready_port ((p, m) ∷ ms) = p

-- bridgeDialPort
unfoldable pub bridge_dial_port : List (ℤ × ℤ) → Result ℤ
bridge_dial_port [] = ok (pos 0)
bridge_dial_port ((p, m) ∷ []) = ok p
bridge_dial_port (a ∷ b ∷ ms) = failed (
    errorf "route has %d mapped ports; bridge one route per port"
      (itoa (pos (length (a ∷ b ∷ ms))) ∷ []))

module _ {E : Type 0} where
  abbrev pub dial_mapped :
      DialFunc E → Context → Text → World E → Result Text → Result Conn × World E
  dial_mapped backend_dial ctx network w (failed e) = (failed e, w)
  dial_mapped backend_dial ctx network w (ok address) = backend_dial ctx network address w

  -- The dial function at the bottom of the chain: the backend, behind the port map if there is
  -- one.
  unfoldable pub base_dial : Text → List (ℤ × ℤ) → DialFunc E → DialFunc E
  base_dial name [] backend_dial ctx network address w = backend_dial ctx network address w
  base_dial name (m ∷ ms) backend_dial ctx network address w =
      dial_mapped backend_dial ctx network w (map_address name (m ∷ ms) address)

  -- The route that Add makes, its chain compiled by buildDial.
  unfoldable pub build : Text → Backend E → RouteConfig E → List (Middleware E) → Route E
  build name b cfg registry_middleware = record {
    name = name;
    backend = b;
    cfg = cfg;
    dial =
        chain (base_dial name cfg.port_map b.dial_context) (registry_middleware ++ cfg.middleware);
  }

  -- HostRewrite; `none` is ok = false.
  unfoldable pub host_rewrite : Route E → Option Text
  host_rewrite rt = if text_eq rt.cfg.host_rewrite [] then none else some rt.cfg.host_rewrite

  abbrev pub ask : Option (World E → Option Text) → World E → Option Text
  ask none w = none
  ask (some f) w = f w

  -- Addr: a nil address, typed or not, is `none`.
  unfoldable pub addr : Route E → World E → Option Text
  addr rt w = ask rt.backend.addr w

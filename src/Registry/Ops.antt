-- ===== src/Registry/Ops.antt =====
-- registry.go, the other operations: Remove, Close, DialContext, AddReady, and Ready of route.go;
-- listenlocal.go: the bridge set, ListenLocal up to its accept loop.
use go_portless.Common.{
  ℕ, Bool, true, false, Option, none, some, List, [], ◌∷◌, ◌++◌, ◌==◌, if◌then◌else◌, Text, codes,
  to_lower, lookup, delete,
}
use mathlib.Core.Option
use go_portless.Errors.{Err, wrap, joined, sentinel, closed, route_not_found, deadline_exceeded}
use go_portless.Net.{ℤ, itoa, join_host_port, host_of}
use go_portless.Dial.{
  DialFunc, Backend, RouteConfig, Result, ok, failed, World, Context, background, Conn, plain_event,
  event_route_removed, close_conn, has_closed, with_timeout_cause,
}
use go_portless.Route.{Route, ready_port, bridge_dial_port}
use go_portless.Readiness.{dial_route}
use go_portless.Registry.{
  Registry, BridgeSet, Added, published, lookup_route, published_routes, emit_event, run_action,
  add,
}

-- bridgeSet.add; false once the set is closed.
unfoldable pub bridge_add : BridgeSet → ℕ → BridgeSet × Bool
bridge_add s l = if s.closed then (s, false) else (record s { ls = s.ls ++ l ∷ [] }, true)

-- The first entry that is l goes.
unfoldable pub drop_first : ℕ → List ℕ → List ℕ
drop_first l [] = []
drop_first l (b ∷ bs) = if b == l then bs else b ∷ drop_first l bs

-- bridgeSet.remove
unfoldable pub bridge_remove : BridgeSet → ℕ → BridgeSet
bridge_remove s l = record s { ls = drop_first l s.ls }

-- bridgeSet.closeAll, with the listeners that it closes.
unfoldable pub bridge_close_all : BridgeSet → BridgeSet × List ℕ
bridge_close_all s = (record { ls = []; closed = true }, s.ls)

-- errors.Join; of one error it makes an error that is found to be the same by errors.Is.
unfoldable pub join_errs : List Err → Option Err
join_errs [] = none
join_errs (e ∷ es) = elim (join_errs es) [ none ↦ some e | some d ↦ some (joined e d) ]

-- The context under which AddReady cleans up: bounded by ten seconds and not cancelled.
abbrev pub cleanup_context : ℕ → Context
cleanup_context now = with_timeout_cause background now 10000000000 (sentinel deadline_exceeded)

abbrev pub collect : Text → Option Err → List Err → List Err
collect name none errs = errs
collect name (some e) errs = wrap "stop %q: %w" (name ∷ []) e ∷ errs

module _ {E : Type 0} where
  -- The lock section of Remove: a published route is taken out, a reserved name is left alone.
  abbrev pub take_in : Option (Route E) → Registry E → Text → Registry E × Option (Route E)
  take_in none r key = (r, none)
  take_in (some rt) r key = (record r { routes = delete key r.routes }, some rt)

  unfoldable pub take : Registry E → Text → Registry E × Option (Route E)
  take r key = take_in (published (lookup key r.routes)) r key

  -- Remove; `none` is nil.
  abbrev pub taken :
      Context → Text → World E → Registry E × Option (Route E) → Registry E × Option Err × World E
  taken ctx name w (r, none) =
      (r, some (wrap "portless: remove %q: %w" (name ∷ []) (sentinel route_not_found)), w)
  taken ctx name w (r, some rt) =
      let (e, w') =
        run_action rt.backend.stop ctx
          (emit_event r (plain_event event_route_removed rt.name []) w) in
      (r, e, w')

  unfoldable pub remove : Registry E → Context → Text → World E → Registry E × Option Err × World E
  remove r ctx name w = taken ctx name w (take r (to_lower name))

  -- The Stop of every route, in the order of the map.
  unfoldable pub stop_all : List (Route E) → World E → List Err × World E
  stop_all [] w = ([], w)
  stop_all (rt ∷ rts) w =
      let (e, w') = run_action rt.backend.stop background w in
      let (errs, w'') = stop_all rts w' in (collect rt.name e errs, w'')

  -- The lock section of Close: the routes are taken out and the registry is closed for good.
  unfoldable pub shut : Registry E → Registry E × List (Route E)
  shut r = (record r { closed = true; routes = [] }, published_routes r.routes)

  -- Close, once; with the listeners that it closes.
  unfoldable pub close : Registry E → World E → Registry E × Option Err × List ℕ × World E
  close r w =
      let (r', rts) = shut r in
      let (bridges, ls) = bridge_close_all r'.bridges in
      let (errs, w') = stop_all rts w in
      if r.done
      then (r, none, [], w)
      else (record r' { bridges = bridges; done = true }, join_errs errs, ls, w')

  abbrev pub fall_back :
      Option (DialFunc E) → Context → Text → Text → World E → Option (Result Conn × World E)
  fall_back none ctx network address w =
      some (failed (wrap "portless: dial %q: %w" (address ∷ []) (sentinel route_not_found)), w)
  fall_back (some d) ctx network address w = some (d ctx network address w)

  -- DialContext
  unfoldable pub dial_context :
      ℕ → Registry E → Context → Text → Text → World E → Option (Result Conn × World E)
  dial_context fuel r ctx network address w =
      if r.closed
      then some (failed (sentinel closed), w)
      else elim (lookup_route r (host_of address)) [
        | none ↦ fall_back r.cfg.fallback ctx network address w
        | some rt ↦ dial_route fuel r.cfg.handlers ctx rt network address w
      ]

  -- The connection of a readiness dial is closed at once, and what its Close answers is returned.
  abbrev pub discard : Result Conn × World E → Option Err × World E
  discard (ok c, w) = (w.close_error c, close_conn c w)
  discard (failed e, w) = (some e, w)

  -- Ready of a route.
  unfoldable pub route_ready :
      ℕ → Registry E → Context → Route E → World E → Option (Option Err × World E)
  route_ready fuel r ctx rt w = Option.map discard (
      dial_route fuel r.cfg.handlers ctx rt (codes "tcp")
        (join_host_port rt.name (itoa (ready_port rt.cfg.port_map))) w)

  abbrev pub roll_back : Err → Registry E × Option Err × World E → Added E
  roll_back e (r, ignored, w) = (r, failed e, w)

  -- The registry after a wait: a Close that came meanwhile has taken the routes out.
  abbrev pub after_wait : Registry E → World E → Registry E
  after_wait r w = if has_closed w then (shut r).0 else r

  abbrev pub settled : Registry E → Text → Route E → Option Err × World E → Added E
  settled r name rt (none, w) = (after_wait r w, ok rt, w)
  settled r name rt (some e, w) =
      roll_back e (remove (after_wait r w) (cleanup_context w.now) name w)

  abbrev pub await_ready : ℕ → Context → Text → Added E → Option (Added E)
  await_ready fuel ctx name (r, failed e, w) = some (r, failed e, w)
  await_ready fuel ctx name (r, ok rt, w) =
      Option.map (settled r name rt) (route_ready fuel r ctx rt w)

  -- AddReady, on the fuel of its readiness wait.
  unfoldable pub add_ready :
      ℕ
      → Registry E
      → Context
      → Text
      → Option (Backend E)
      → List (RouteConfig E → RouteConfig E)
      → World E
      → Option (Added E)
  add_ready fuel r ctx name b options w = await_ready fuel ctx name (add r ctx name b options w)

  abbrev pub bridged : Registry E → ℕ → BridgeSet × Bool → Registry E × Result ℕ × List ℕ
  bridged r l (s, true) = (record r { bridges = s }, ok l, [])
  bridged r l (s, false) = (r, failed (sentinel closed), l ∷ [])

  abbrev pub listened : Registry E → Text → Result ℕ → Registry E × Result ℕ × List ℕ
  listened r name (failed e) = (r, failed (wrap "portless: listen local %q: %w" (name ∷ []) e), [])
  listened r name (ok l) = bridged r l (bridge_add r.bridges l)

  abbrev pub bridge_route : Registry E → Text → Result ℕ → Result ℤ → Registry E × Result ℕ × List ℕ
  bridge_route r name l (failed e) =
      (r, failed (wrap "portless: listen local %q: %w" (name ∷ []) e), [])
  bridge_route r name l (ok port) = listened r name l

  -- ListenLocal, given what net.Listen answers; with the listeners that it closes again. The
  -- accept loop that it starts is not part of this.
  unfoldable pub listen_local : Registry E → Text → Result ℕ → Registry E × Result ℕ × List ℕ
  listen_local r name l =
      if r.closed then (r, failed (sentinel closed), []) else elim (lookup_route r name) [
        | none ↦ (
          r,
          failed (wrap "portless: listen local %q: %w" (name ∷ []) (sentinel route_not_found)),
          [],
        )
        | some rt ↦ bridge_route r name l (bridge_dial_port rt.cfg.port_map)
      ]

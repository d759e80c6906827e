-- ===== src/Pipe/Complete.antt =====
-- When a copy of a bridge or a tunnel ends, everything has arrived, unless something broke.
use go_portless.Common.{◌≡◌, refl, Bool, true, false, arith}
use go_portless.Pipe.{
  bridge, tunnel, Pair, pump_up, pump_down, leave, shut, own, shuts, left_peer, right_peer, Reach,
  start, later,
}
use go_portless.Pipe.Fair.{IsDelivered, was_cut}
use go_portless.Pipe.Orderly.{Reach-IsOrderly}

-- What both copies owe, and that a peer sees the end of its stream only after its copy has ended.
abbrev pub IsWhole : Pair → Type 0
IsWhole s =
    IsDelivered s.left s.up s.right (was_cut s)
    × IsDelivered s.right s.down s.left (was_cut s)
    × (s.left.write_closed ≡ true → s.down.finished ≡ true)
    × (s.right.write_closed ≡ true → s.up.finished ≡ true)

-- A bridge does not truncate. If the client's connection has CloseWrite, whether or not the
-- backend's has, then whatever the peers do: once a copy has ended, its source had ended its stream
-- and all that it sent has been received, unless a connection broke or the registry was closed; and
-- neither peer is told the end of the stream by CloseWrite before the copy towards it has ended.
pub bridge-IsWhole : (right_half : Bool) {s : Pair} → Reach (bridge true right_half) s → IsWhole s
unfolding bridge
bridge-IsWhole right_half r =
    let inv = Reach-IsOrderly (ground arith) r in
    (inv.up_delivered, inv.down_delivered, inv.left_half, inv.right_half)

tunnel-was_shut :
    (left_half right_half : Bool) {s : Pair}
    → Reach (tunnel left_half right_half) s
    → s.was_shut ≡ false
unfolding tunnel
tunnel-was_shut lh rh start = refl
tunnel-was_shut lh rh (later r (own (pump_up m))) = tunnel-was_shut lh rh r
tunnel-was_shut lh rh (later r (own (pump_down m))) = tunnel-was_shut lh rh r
tunnel-was_shut lh rh (later r (own (leave u d o))) = tunnel-was_shut lh rh r
tunnel-was_shut lh rh (later r (shuts (shut x))) = absurd (ground arith)
tunnel-was_shut lh rh (later r (left_peer m)) = tunnel-was_shut lh rh r
tunnel-was_shut lh rh (later r (right_peer m)) = tunnel-was_shut lh rh r

-- A CONNECT tunnel whose connections both have CloseWrite does not truncate either, under the same
-- conditions: once a copy has ended, its source had ended its stream and all that it sent has been
-- received, unless a connection broke, since the registry's Close does not touch a tunnel; and no
-- CloseWrite comes before the copy towards that peer has ended.
pub tunnel-IsWhole : {s : Pair} → Reach (tunnel true true) s → IsWhole s × (s.was_shut ≡ false)
unfolding tunnel
tunnel-IsWhole r =
    let inv = Reach-IsOrderly (refl, refl) r in
    (
      (inv.up_delivered, inv.down_delivered, inv.left_half, inv.right_half),
      tunnel-was_shut true true r,
    )

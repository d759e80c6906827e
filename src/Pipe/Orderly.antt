-- ===== src/Pipe/Orderly.antt =====
-- What the copies of a bridge or a tunnel keep as long as nothing but CloseWrite follows them.
use go_portless.Common.{◌≡◌, refl, inr, Bool, true, false, arith}
use go_portless.Pipe.{
  End, Copy, Closing, Policy, Pump, read, write, write_fails, read_fails, read_eof, Peer, sends,
  ends, reads, breaks, Pair, pump_up, pump_down, leave, shut, Step, own, shuts, left_peer,
  right_peer, Reach, start, later,
}
use go_portless.Pipe.Flow.{Flows, Reach-BothFlow}
use go_portless.Pipe.Fair.{
  IsDelivered, was_cut, is_gentle, Fair, Pump-kept, Pump-half, Pump-IsDelivered,
}

abbrev pub IsTame : Policy → Type 0
IsTame p = (is_gentle p.up_closing ≡ true) × (is_gentle p.down_closing ≡ true)

-- What the steps keep as long as the function has not returned, and after.
pub record IsOrderly (s : Pair) : Type 0 where
  pub up_delivered : IsDelivered s.left s.up s.right (was_cut s)
  pub down_delivered : IsDelivered s.right s.down s.left (was_cut s)
  pub left_half : s.left.write_closed ≡ true → s.down.finished ≡ true
  pub right_half : s.right.write_closed ≡ true → s.up.finished ≡ true
  pub left_open : s.over ≡ false → s.left.closed ≡ true → s.was_shut ≡ true
  pub right_open : s.over ≡ false → s.right.closed ≡ false
  pub both_done : s.over ≡ true → (s.up.finished ≡ true) × (s.down.finished ≡ true)

-- A copy that is not finished runs in a function that has not returned.
still_running : (b : Bool) {c : Bool} → (b ≡ true → c ≡ true) → c ≡ false → b ≡ false
still_running true h e = absurd (ground (arith, h refl))
still_running false h e = refl

Pump-unfinished :
    {k : Closing} {src dst : End} {c : Copy} {src' dst' : End} {c' : Copy}
    → Pump k src c dst src' c' dst'
    → c.finished ≡ false
Pump-unfinished (read xs ys f b o i n) = f
Pump-unfinished (write f b w awake) = f
Pump-unfinished (write_fails f b w) = f
Pump-unfinished (read_fails f b o) = f
Pump-unfinished (read_eof f b i e) = f

module _ {s : Pair} (inv : IsOrderly s) (flows : Flows s.left s.up s.right)
    (running : s.over ≡ false) where
  up-Fair : Fair s.left s.up s.right (was_cut s)
  up-Fair = record {
    flows = flows;
    src_closed = λ e. ground (arith, inv.left_open running e);
    src_broken = λ e. ground arith;
    dst_closed = λ e. ground (arith, inv.right_open running);
    dst_broken = λ e. ground arith;
    half = inv.right_half;
  }

module _ {s : Pair} (inv : IsOrderly s) (flows : Flows s.right s.down s.left)
    (running : s.over ≡ false) where
  down-Fair : Fair s.right s.down s.left (was_cut s)
  down-Fair = record {
    flows = flows;
    src_closed = λ e. ground (arith, inv.right_open running);
    src_broken = λ e. ground arith;
    dst_closed = λ e. ground (arith, inv.left_open running e);
    dst_broken = λ e. ground arith;
    half = inv.left_half;
  }

pump_up-IsOrderly :
    {k : Closing} {s : Pair}
    → is_gentle k ≡ true
    → Flows s.left s.up s.right
    → IsOrderly s
    → {l r : End} {c : Copy} → Pump k s.left s.up s.right l c r
    → IsOrderly (record s { left = l; up = c; right = r })
pump_up-IsOrderly {s} g flows inv m =
    let running = still_running s.over (λ h. (inv.both_done h).0) (Pump-unfinished m) in
    let kept = Pump-kept g m in
    record {
      up_delivered = ground (arith, Pump-IsDelivered g (up-Fair inv flows running) m);
      down_delivered = ground (arith, inv.down_delivered);
      left_half = ground (arith, inv.left_half);
      right_half = Pump-half g m inv.right_half;
      left_open = ground (arith, inv.left_open running);
      right_open = ground (arith, inv.right_open running);
      both_done = λ h. absurd (ground arith);
    }

pump_down-IsOrderly :
    {k : Closing} {s : Pair}
    → is_gentle k ≡ true
    → Flows s.right s.down s.left
    → IsOrderly s
    → {l r : End} {c : Copy} → Pump k s.right s.down s.left r c l
    → IsOrderly (record s { left = l; down = c; right = r })
pump_down-IsOrderly {s} g flows inv m =
    let running = still_running s.over (λ h. (inv.both_done h).1) (Pump-unfinished m) in
    let kept = Pump-kept g m in
    record {
      up_delivered = ground (arith, inv.up_delivered);
      down_delivered = ground (arith, Pump-IsDelivered g (down-Fair inv flows running) m);
      left_half = Pump-half g m inv.left_half;
      right_half = ground (arith, inv.right_half);
      left_open = ground (arith, inv.left_open running);
      right_open = ground (arith, inv.right_open running);
      both_done = λ h. absurd (ground arith);
    }

leave-IsOrderly :
    {s : Pair}
    → s.up.finished ≡ true
    → s.down.finished ≡ true
    → IsOrderly s
    → IsOrderly (record s {
      left = record s.left { closed = true };
      right = record s.right { closed = true };
      over = true;
    })
leave-IsOrderly {s} u d inv = record {
  up_delivered = inv.up_delivered;
  down_delivered = inv.down_delivered;
  left_half = inv.left_half;
  right_half = inv.right_half;
  left_open = λ h. absurd (ground arith);
  right_open = λ h. absurd (ground arith);
  both_done = λ h. (u, d);
}

shut-IsOrderly :
    {s : Pair}
    → IsOrderly s
    → IsOrderly (record s { left = record s.left { closed = true }; was_shut = true })
shut-IsOrderly {s} inv = record {
  up_delivered = λ h. inr (ground arith);
  down_delivered = λ h. inr (ground arith);
  left_half = inv.left_half;
  right_half = inv.right_half;
  left_open = λ h e. refl;
  right_open = inv.right_open;
  both_done = inv.both_done;
}

left_peer-IsOrderly :
    {s : Pair} {l : End} → Peer s.left l → IsOrderly s → IsOrderly (record s { left = l })
left_peer-IsOrderly {s} (sends bs e) inv = record {
  up_delivered = λ h. ground (arith, inv.up_delivered h);
  down_delivered = inv.down_delivered;
  left_half = inv.left_half;
  right_half = inv.right_half;
  left_open = inv.left_open;
  right_open = inv.right_open;
  both_done = inv.both_done;
}
left_peer-IsOrderly {s} ends inv = record {
  up_delivered = λ h. ground (arith, inv.up_delivered h);
  down_delivered = inv.down_delivered;
  left_half = inv.left_half;
  right_half = inv.right_half;
  left_open = inv.left_open;
  right_open = inv.right_open;
  both_done = inv.both_done;
}
left_peer-IsOrderly {s} (reads b) inv = record {
  up_delivered = inv.up_delivered;
  down_delivered = inv.down_delivered;
  left_half = inv.left_half;
  right_half = inv.right_half;
  left_open = inv.left_open;
  right_open = inv.right_open;
  both_done = inv.both_done;
}
left_peer-IsOrderly {s} breaks inv = record {
  up_delivered = λ h. inr (ground arith);
  down_delivered = λ h. inr (ground arith);
  left_half = inv.left_half;
  right_half = inv.right_half;
  left_open = inv.left_open;
  right_open = inv.right_open;
  both_done = inv.both_done;
}

right_peer-IsOrderly :
    {s : Pair} {r : End} → Peer s.right r → IsOrderly s → IsOrderly (record s { right = r })
right_peer-IsOrderly {s} (sends bs e) inv = record {
  up_delivered = inv.up_delivered;
  down_delivered = λ h. ground (arith, inv.down_delivered h);
  left_half = inv.left_half;
  right_half = inv.right_half;
  left_open = inv.left_open;
  right_open = inv.right_open;
  both_done = inv.both_done;
}
right_peer-IsOrderly {s} ends inv = record {
  up_delivered = inv.up_delivered;
  down_delivered = λ h. ground (arith, inv.down_delivered h);
  left_half = inv.left_half;
  right_half = inv.right_half;
  left_open = inv.left_open;
  right_open = inv.right_open;
  both_done = inv.both_done;
}
right_peer-IsOrderly {s} (reads b) inv = record {
  up_delivered = inv.up_delivered;
  down_delivered = inv.down_delivered;
  left_half = inv.left_half;
  right_half = inv.right_half;
  left_open = inv.left_open;
  right_open = inv.right_open;
  both_done = inv.both_done;
}
right_peer-IsOrderly {s} breaks inv = record {
  up_delivered = λ h. inr (ground arith);
  down_delivered = λ h. inr (ground arith);
  left_half = inv.left_half;
  right_half = inv.right_half;
  left_open = inv.left_open;
  right_open = inv.right_open;
  both_done = inv.both_done;
}

Step-IsOrderly :
    {p : Policy} {s t : Pair}
    → IsTame p
    → Flows s.left s.up s.right
    → Flows s.right s.down s.left
    → IsOrderly s
    → Step p s t
    → IsOrderly t
Step-IsOrderly g u d inv (own (pump_up m)) = pump_up-IsOrderly g.0 u inv m
Step-IsOrderly g u d inv (own (pump_down m)) = pump_down-IsOrderly g.1 d inv m
Step-IsOrderly g u d inv (own (leave f h o)) = leave-IsOrderly f h inv
Step-IsOrderly g u d inv (shuts (shut x)) = shut-IsOrderly inv
Step-IsOrderly g u d inv (left_peer m) = left_peer-IsOrderly m inv
Step-IsOrderly g u d inv (right_peer m) = right_peer-IsOrderly m inv

pub Reach-IsOrderly : {p : Policy} {s : Pair} → IsTame p → Reach p s → IsOrderly s
Reach-IsOrderly g start = record {
  up_delivered = λ h. absurd (ground arith);
  down_delivered = λ h. absurd (ground arith);
  left_half = λ h. absurd (ground arith);
  right_half = λ h. absurd (ground arith);
  left_open = λ h e. absurd (ground arith);
  right_open = λ h. refl;
  both_done = λ h. absurd (ground arith);
}
Reach-IsOrderly g (later r m) =
    let (u, d) = Reach-BothFlow r in Step-IsOrderly g u d (Reach-IsOrderly g r) m

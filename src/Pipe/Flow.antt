-- ===== src/Pipe/Flow.antt =====
-- What the copies of a bridge or a tunnel do to the bytes: every step keeps them, in order.
use mathlib.Core.List.{append_assoc}
use go_portless.Common.{◌≡◌, refl, sym, ap, ◌∙◌, true, ◌++◌, arith}
use go_portless.Pipe.{
  End, Copy, Closing, leave_open, close_write, close_dst, close_both, ending, Policy, Pump, read,
  write, write_fails, read_fails, read_eof, Peer, sends, ends, reads, breaks, Pair, Own, pump_up,
  pump_down, leave, shut, Step, own, shuts, left_peer, right_peer, Reach, start, later,
}

-- What the source's peer has sent is what the destination's peer has received, what the copy holds,
-- and what is still to be read.
abbrev pub Flows : End → Copy → End → Type 0
Flows src c dst = dst.received ++ (c.buf ++ src.inbound) ≡ src.sent

abbrev pub SameBytes : End → End → Type 0
SameBytes e f =
    (f.sent ≡ e.sent)
    × (f.inbound ≡ e.inbound)
    × (f.received ≡ e.received)
    × (f.ended ≡ e.ended)
    × (f.broken ≡ e.broken)
    × (f.stalled ≡ e.stalled)

pub ending-SameBytes :
    (k : Closing) (src dst : End)
    → SameBytes src (ending k src dst).0 × SameBytes dst (ending k src dst).1
unfolding ending
ending-SameBytes leave_open src dst = ground arith
ending-SameBytes close_write src dst = ground arith
ending-SameBytes close_dst src dst = ground arith
ending-SameBytes close_both src dst = ground arith

ended-Flows :
    (k : Closing) (src dst : End) (c : Copy)
    → Flows src c dst
    → Flows (ending k src dst).0 (record c { finished = true }) (ending k src dst).1
ended-Flows k src dst c h = ground (arith, ending-SameBytes k src dst)

pub Pump-Flows :
    {k : Closing} {src dst : End} {c : Copy} {src' dst' : End} {c' : Copy}
    → Pump k src c dst src' c' dst'
    → Flows src c dst
    → Flows src' c' dst'
Pump-Flows {src} {dst} {c} (read xs ys f b o i n) h = ground arith
Pump-Flows {src} {dst} {c} (write f b w awake) h = append_assoc dst.received c.buf src.inbound ∙ h
Pump-Flows {k} {src} {dst} {c} (write_fails f b w) h = ended-Flows k src dst c h
Pump-Flows {k} {src} {dst} {c} (read_fails f b o) h = ended-Flows k src dst c h
Pump-Flows {k} {src} {dst} {c} (read_eof f b i e) h = ended-Flows k src dst c h

-- The copy in the other direction is not touched.
pub Pump-Flows_back :
    {k : Closing} {src dst : End} {c : Copy} {src' dst' : End} {c' : Copy} (d : Copy)
    → Pump k src c dst src' c' dst'
    → Flows dst d src
    → Flows dst' d src'
Pump-Flows_back d (read xs ys f b o i n) h = h
Pump-Flows_back d (write f b w awake) h = h
Pump-Flows_back {k} {src} {dst} d (write_fails f b w) h = ground (arith, ending-SameBytes k src dst)
Pump-Flows_back {k} {src} {dst} d (read_fails f b o) h = ground (arith, ending-SameBytes k src dst)
Pump-Flows_back {k} {src} {dst} d (read_eof f b i e) h = ground (arith, ending-SameBytes k src dst)

Peer-Flows :
    {src src' : End} (c : Copy) (dst : End) → Peer src src' → Flows src c dst → Flows src' c dst
Peer-Flows {src} c dst (sends bs e) h =
    ap (λ x. dst.received ++ x) (sym (append_assoc c.buf src.inbound bs))
    ∙ sym (append_assoc dst.received (c.buf ++ src.inbound) bs)
    ∙ ap (λ x. x ++ bs) h
Peer-Flows c dst ends h = h
Peer-Flows c dst (reads b) h = h
Peer-Flows c dst breaks h = h

Peer-Flows_back :
    (src : End) (c : Copy) {dst dst' : End} → Peer dst dst' → Flows src c dst → Flows src c dst'
Peer-Flows_back src c (sends bs e) h = h
Peer-Flows_back src c ends h = h
Peer-Flows_back src c (reads b) h = h
Peer-Flows_back src c breaks h = h

abbrev pub BothFlow : Pair → Type 0
BothFlow s = Flows s.left s.up s.right × Flows s.right s.down s.left

Own-BothFlow : {p : Policy} {s t : Pair} → Own p s t → BothFlow s → BothFlow t
Own-BothFlow {s} (pump_up m) h = (Pump-Flows m h.0, Pump-Flows_back s.down m h.1)
Own-BothFlow {s} (pump_down m) h = (Pump-Flows_back s.up m h.0, Pump-Flows m h.1)
Own-BothFlow (leave u d o) h = h

Step-BothFlow : {p : Policy} {s t : Pair} → Step p s t → BothFlow s → BothFlow t
Step-BothFlow (own m) h = Own-BothFlow m h
Step-BothFlow (shuts (shut x)) h = h
Step-BothFlow {s} (left_peer m) h =
    (Peer-Flows s.up s.right m h.0, Peer-Flows_back s.right s.down m h.1)
Step-BothFlow {s} (right_peer m) h =
    (Peer-Flows_back s.left s.up m h.0, Peer-Flows s.down s.left m h.1)

-- Whatever the peers do, and in whatever order the two copies of a bridge or a tunnel run: what a
-- peer has sent is, in this order, what the other peer has received, what the copy holds, and what
-- is not yet read. No byte is lost, repeated or moved.
pub Reach-BothFlow : {p : Policy} {s : Pair} → Reach p s → BothFlow s
Reach-BothFlow start = (refl, refl)
Reach-BothFlow (later r m) = Step-BothFlow m (Reach-BothFlow r)

-- ===== src/Pipe/Ending.antt =====
-- A bridge or a tunnel returns, and closes both connections, once both streams end.
use go_portless.Common.{
  ℕ, ◌+◌, ◌<◌, ◌≡◌, refl, ◌∙◌, ◌≢◌, ◌⊎◌, inl, inr, Bool, true, false, not, ◌||◌, List, [], ◌∷◌,
  arith, if◌then◌else◌, Bool-cases, length, length-append, Inevitable, inevitable,
}
use go_portless.Pipe.{
  End, Copy, Closing, leave_open, close_write, close_dst, close_both, ending, read_over, writable,
  Policy, Pump, read, write, write_fails, read_fails, read_eof, Peer, sends, ends, reads, breaks,
  Pair, Own, pump_up, pump_down, leave, shut, own, shuts, left_peer, right_peer, Reach, start,
  later,
}
use go_portless.Pipe.Flow.{ending-SameBytes}

-- Reads of the connection come to an end without any further move of its peer.
abbrev pub runs_out : End → Bool
runs_out e = e.ended || e.broken || e.closed

-- Writes to the connection come to an end without any further move of its peer: it reads, or they
-- fail.
abbrev pub drains : End → Bool
drains e = not e.stalled || not (writable e)

abbrev pub IsReleased : Pair → Type 0
IsReleased s = (s.over ≡ true) × (s.left.closed ≡ true) × (s.right.closed ≡ true)

abbrev work_of : End → Copy → ℕ
work_of src c =
    length src.inbound + length src.inbound + length c.buf + (if c.finished then 0 else 1)

-- What the program has left to do.
abbrev work : Pair → ℕ
work s = work_of s.left s.up + work_of s.right s.down + (if s.over then 0 else 1)

length_pos : {xs : List ℕ} → xs ≢ [] → 0 < length xs
length_pos {xs = []} h = absurd (h refl)
length_pos {xs = x ∷ xs} h = omega arith

Pump-work :
    {k : Closing} {src dst : End} {c : Copy} {src' dst' : End} {c' : Copy}
    → Pump k src c dst src' c' dst'
    → (work_of src' c' < work_of src c) × (length dst'.inbound ≡ length dst.inbound)
Pump-work (read xs ys f b o i n) = ground (arith, length-append xs ys, length_pos n)
Pump-work (write f b w awake) = ground (arith, length_pos b)
Pump-work {k} {src} {dst} (write_fails f b w) = ground (arith, ending-SameBytes k src dst)
Pump-work {k} {src} {dst} (read_fails f b o) = ground (arith, ending-SameBytes k src dst)
Pump-work {k} {src} {dst} (read_eof f b i e) = ground (arith, ending-SameBytes k src dst)

Own-work : {p : Policy} {s t : Pair} → Own p s t → work t < work s
Own-work (pump_up m) = let (less, same) = Pump-work m in ground arith
Own-work (pump_down m) = let (less, same) = Pump-work m in ground arith
Own-work (leave u d o) = ground arith

ending-runs_out :
    (k : Closing) (src dst : End)
    → ((runs_out src ≡ true) → runs_out (ending k src dst).0 ≡ true)
      × ((runs_out dst ≡ true) → runs_out (ending k src dst).1 ≡ true)
unfolding ending
ending-runs_out leave_open src dst = ((λ h. h), (λ h. h))
ending-runs_out close_write src dst = ((λ h. h), (λ h. h))
ending-runs_out close_dst src dst = ((λ h. h), (λ h. ground arith))
ending-runs_out close_both src dst = ((λ h. ground arith), (λ h. ground arith))

ending-closed :
    (k : Closing) (src dst : End)
    → (src.closed ≡ true) × (dst.closed ≡ true)
    → ((ending k src dst).0.closed ≡ true) × ((ending k src dst).1.closed ≡ true)
unfolding ending
ending-closed leave_open src dst h = h
ending-closed close_write src dst h = h
ending-closed close_dst src dst h = (h.0, refl)
ending-closed close_both src dst h = (refl, refl)

Pump-runs_out :
    {k : Closing} {src dst : End} {c : Copy} {src' dst' : End} {c' : Copy}
    → Pump k src c dst src' c' dst'
    → runs_out src ≡ true
    → runs_out dst ≡ true
    → (runs_out src' ≡ true) × (runs_out dst' ≡ true)
Pump-runs_out (read xs ys f b o i n) h g = (h, g)
Pump-runs_out (write f b w awake) h g = (h, g)
Pump-runs_out {k} {src} {dst} (write_fails f b w) h g =
    let r = ending-runs_out k src dst in (r.0 h, r.1 g)
Pump-runs_out {k} {src} {dst} (read_fails f b o) h g =
    let r = ending-runs_out k src dst in (r.0 h, r.1 g)
Pump-runs_out {k} {src} {dst} (read_eof f b i e) h g =
    let r = ending-runs_out k src dst in (r.0 h, r.1 g)

Own-runs_out :
    {p : Policy} {s t : Pair}
    → Own p s t
    → runs_out s.left ≡ true
    → runs_out s.right ≡ true
    → (runs_out t.left ≡ true) × (runs_out t.right ≡ true)
Own-runs_out (pump_up m) h g = Pump-runs_out m h g
Own-runs_out (pump_down m) h g = let (a, b) = Pump-runs_out m g h in (b, a)
Own-runs_out (leave u d o) h g = (ground arith, ground arith)

ending-drains :
    (k : Closing) (src dst : End)
    → (drains src ≡ true → drains (ending k src dst).0 ≡ true)
      × (drains dst ≡ true → drains (ending k src dst).1 ≡ true)
unfolding ending
ending-drains leave_open src dst = ((λ h. h), (λ h. h))
ending-drains close_write src dst = ((λ h. h), (λ h. ground arith))
ending-drains close_dst src dst = ((λ h. h), (λ h. ground arith))
ending-drains close_both src dst = ((λ h. ground arith), (λ h. ground arith))

Pump-drains :
    {k : Closing} {src dst : End} {c : Copy} {src' dst' : End} {c' : Copy}
    → Pump k src c dst src' c' dst'
    → drains src ≡ true
    → drains dst ≡ true
    → (drains src' ≡ true) × (drains dst' ≡ true)
Pump-drains (read xs ys f b o i n) h g = (h, g)
Pump-drains (write f b w awake) h g = (h, g)
Pump-drains {k} {src} {dst} (write_fails f b w) h g =
    let r = ending-drains k src dst in (r.0 h, r.1 g)
Pump-drains {k} {src} {dst} (read_fails f b o) h g =
    let r = ending-drains k src dst in (r.0 h, r.1 g)
Pump-drains {k} {src} {dst} (read_eof f b i e) h g =
    let r = ending-drains k src dst in (r.0 h, r.1 g)

Own-drains :
    {p : Policy} {s t : Pair}
    → Own p s t
    → drains s.left ≡ true
    → drains s.right ≡ true
    → (drains t.left ≡ true) × (drains t.right ≡ true)
Own-drains (pump_up m) h g = Pump-drains m h g
Own-drains (pump_down m) h g = let (a, b) = Pump-drains m g h in (b, a)
Own-drains (leave u d o) h g = (ground arith, ground arith)

-- Once the function has returned, both connections are closed, and stay closed.
abbrev Closed : Pair → Type 0
Closed s = s.over ≡ true → (s.left.closed ≡ true) × (s.right.closed ≡ true)

Pump-closed :
    {k : Closing} {src dst : End} {c : Copy} {src' dst' : End} {c' : Copy}
    → Pump k src c dst src' c' dst'
    → (src.closed ≡ true) × (dst.closed ≡ true)
    → (src'.closed ≡ true) × (dst'.closed ≡ true)
Pump-closed (read xs ys f b o i n) h = h
Pump-closed (write f b w awake) h = h
Pump-closed {k} {src} {dst} (write_fails f b w) h = ending-closed k src dst h
Pump-closed {k} {src} {dst} (read_fails f b o) h = ending-closed k src dst h
Pump-closed {k} {src} {dst} (read_eof f b i e) h = ending-closed k src dst h

Own-Closed : {p : Policy} {s t : Pair} → Own p s t → Closed s → Closed t
Own-Closed (pump_up m) h o = Pump-closed m (h o)
Own-Closed (pump_down m) h o = let (a, b) = h o in let (c, d) = Pump-closed m (b, a) in (d, c)
Own-Closed (leave u d o) h e = (refl, refl)

Peer-closed : {e f : End} → Peer e f → f.closed ≡ e.closed
Peer-closed (sends bs h) = refl
Peer-closed ends = refl
Peer-closed (reads b) = refl
Peer-closed breaks = refl

Reach-Closed : {p : Policy} {s : Pair} → Reach p s → Closed s
Reach-Closed start o = absurd (ground arith)
Reach-Closed (later r (own m)) o = Own-Closed m (Reach-Closed r) o
Reach-Closed (later r (shuts (shut x))) o = (refl, (Reach-Closed r o).1)
Reach-Closed (later r (left_peer m)) o = let (a, b) = Reach-Closed r o in (Peer-closed m ∙ a, b)
Reach-Closed (later r (right_peer m)) o = let (a, b) = Reach-Closed r o in (a, Peer-closed m ∙ b)

abbrev Pumps : Closing → End → Copy → End → Type 0
Pumps k src c dst = (src' : End) × (c' : Copy) × (dst' : End) × Pump k src c dst src' c' dst'

reads_on :
    (k : Closing) (src : End) (c : Copy) (dst : End) (inbound : List ℕ)
    → src.inbound ≡ inbound
    → c.finished ≡ false
    → c.buf ≡ []
    → read_over src ≡ false
    → runs_out src ≡ true
    → Pumps k src c dst
reads_on k src c dst [] i f b o h = (_, _, _, read_eof f b i (ground arith))
reads_on k src c dst (x ∷ xs) i f b o h =
    (_, _, _, read (x ∷ []) xs f b o i (λ e. absurd (ground arith)))

-- A copy whose source runs out and whose destination drains is never stuck.
pumps :
    (k : Closing) (src : End) (c : Copy) (dst : End) (buf : List ℕ)
    → c.buf ≡ buf
    → c.finished ≡ false
    → runs_out src ≡ true
    → drains dst ≡ true
    → Pumps k src c dst
pumps k src c dst [] b f h d = elim (Bool-cases (read_over src)) [
  | inl o ↦ (_, _, _, read_fails f b o)
  | inr o ↦ reads_on k src c dst src.inbound refl f b o h
]
pumps k src c dst (x ∷ xs) b f h d = elim (Bool-cases (writable dst)) [
  | inl w ↦ (_, _, _, write f (λ e. absurd (ground arith)) w (ground arith))
  | inr w ↦ (_, _, _, write_fails f (λ e. absurd (ground arith)) w)
]

progress :
    (p : Policy) (s : Pair)
    → runs_out s.left ≡ true
    → runs_out s.right ≡ true
    → drains s.left ≡ true
    → drains s.right ≡ true
    → s.over ≡ false
    → (t : Pair) × Own p s t
progress p s h g dl dr o = elim (Bool-cases s.up.finished) [
  | inr f ↦
      let (l, c, r, m) = pumps p.up_closing s.left s.up s.right s.up.buf refl f h dr in
      (_, pump_up m)
  | inl u ↦ elim (Bool-cases s.down.finished) [
    | inr f ↦
        let (r, c, l, m) = pumps p.down_closing s.right s.down s.left s.down.buf refl f g dl in
        (_, pump_down m)
    | inl d ↦ (_, leave u d o)
  ]
]

-- What the steps keep: both sources run out, both destinations drain, and connections are closed
-- after the return.
abbrev RunsOut : Pair → Type 0
RunsOut s =
    (runs_out s.left ≡ true)
    × (runs_out s.right ≡ true)
    × (drains s.left ≡ true)
    × (drains s.right ≡ true)
    × Closed s

over_or_progress : (p : Policy) (s : Pair) → RunsOut s → IsReleased s ⊎ ((t : Pair) × Own p s t)
over_or_progress p s (h, g, dl, dr, c) = elim (Bool-cases s.over) [
  | inl o ↦ let (l, r) = c o in inl (o, l, r)
  | inr o ↦ inr (progress p s h g dl dr o)
]

Own-RunsOut : (p : Policy) (s t : Pair) → RunsOut s → Own p s t → RunsOut t × (work t < work s)
Own-RunsOut p s t (h, g, dl, dr, c) m =
    let (h', g') = Own-runs_out m h g in
    let (dl', dr') = Own-drains m dl dr in ((h', g', dl', dr', Own-Closed m c), Own-work m)

-- A bridge or a tunnel returns. From any state that it can reach, once reads of both connections run
-- out (each peer has ended its stream, or the connection is broken or closed), and neither peer
-- leaves the program waiting in a write (it reads what it is sent, or writes to it fail): whatever
-- order the two copies run in, one of the program's steps is possible until the function has
-- returned and both connections are closed, and this is reached.
pub Reach-Inevitable :
    (p : Policy) (s : Pair)
    → Reach p s
    → runs_out s.left ≡ true
    → runs_out s.right ≡ true
    → drains s.left ≡ true
    → drains s.right ≡ true
    → Inevitable (Own p) IsReleased s
Reach-Inevitable p s r h g dl dr =
    inevitable (Own p) IsReleased RunsOut work (over_or_progress p) (Own-RunsOut p) s
      (h, g, dl, dr, Reach-Closed r)

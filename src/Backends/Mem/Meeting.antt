-- ===== src/Backends/Mem/Meeting.antt =====
-- No pipe of the in-memory backend is lost, and no call waits on a closed listener.
use go_portless.Common.{
  occurs-remove_first, length-remove_first, occurs_head, ℕ, zero, suc, ◌+◌, ◌<◌, ◌≡◌, refl, ◌⊎◌,
  inl, inr, true, List, [], ◌∷◌, arith, ltb, if◌then◌else◌, occurs, length, ==_iff, Inevitable,
  inevitable,
}
use go_portless.Backends.Mem.{
  Mem, Own, meet, refuse, accept_fails, Step, own, dials, accepts, closes, cancelled, Reach, start,
  later,
}

-- Each pipe that was made waits in a dial, was handed over, or was closed, in one way and once.
abbrev pub IsTracked : Mem → Type 0
IsTracked s =
    (n : ℕ)
    → occurs n s.dialing + (occurs n s.met + occurs n s.closed_pipes)
      ≡ (if ltb n s.opened then 1 else 0)

Own-IsTracked : {s t : Mem} → Own s t → IsTracked s → IsTracked t
unfolding occurs
Own-IsTracked {s} (meet m i a) h n =
    ground (arith, h n, occurs-remove_first n m s.dialing, ==_iff m n)
Own-IsTracked {s} (refuse m i d) h n =
    ground (arith, h n, occurs-remove_first n m s.dialing, ==_iff m n)
Own-IsTracked (accept_fails a d) h n = h n

Step-IsTracked : {s t : Mem} → Step s t → IsTracked s → IsTracked t
unfolding occurs
Step-IsTracked (own m) h n = Own-IsTracked m h n
Step-IsTracked dials h n = ground (arith, h n)
Step-IsTracked accepts h n = h n
Step-IsTracked closes h n = h n
Step-IsTracked {s} (cancelled m i) h n =
    ground (arith, h n, occurs-remove_first n m s.dialing, ==_iff m n)

-- However the calls of DialContext, Accept and Close and the ends of contexts interleave: every pipe
-- that a dial has made waits in that dial, or has been handed over to an Accept, or has had both of
-- its halves closed; one of these, and once. No other pipe is in any of these places.
pub Reach-IsTracked : {s : Mem} → Reach s → IsTracked s
unfolding occurs
Reach-IsTracked start n = ground arith
Reach-IsTracked (later r m) n = Step-IsTracked m (Reach-IsTracked r) n

-- No call waits.
abbrev pub IsIdle : Mem → Type 0
IsIdle s = (s.dialing ≡ []) × (s.accepting ≡ 0)

abbrev waiting : Mem → ℕ
waiting s = length s.dialing + s.accepting

IsIdle-or_progress :
    (dialing : List ℕ) (accepting : ℕ) (s : Mem)
    → s.done ≡ true
    → s.dialing ≡ dialing
    → s.accepting ≡ accepting
    → IsIdle s ⊎ ((t : Mem) × Own s t)
IsIdle-or_progress (n ∷ ns) a s d e f = inr (_, refuse n (λ z. occurs_head n ns (rw (← e) z)) d)
IsIdle-or_progress [] (suc a) s d e f = inr (_, accept_fails (omega arith) d)
IsIdle-or_progress [] zero s d e f = inl (e, f)

progress : (s : Mem) → s.done ≡ true → IsIdle s ⊎ ((t : Mem) × Own s t)
progress s d = IsIdle-or_progress s.dialing s.accepting s d refl refl

Own-waiting : (s t : Mem) → s.done ≡ true → Own s t → (t.done ≡ true) × (waiting t < waiting s)
Own-waiting s t d (meet n i a) = (d, omega (arith, length-remove_first n s.dialing i))
Own-waiting s t d (refuse n i e) = (d, omega (arith, length-remove_first n s.dialing i))
Own-waiting s t d (accept_fails a e) = (d, omega arith)

-- After Close no call hangs: of the dials and Accepts that wait then, whichever way out of its select
-- each takes, one of them can return as long as one waits, and all of them return.
pub closed-Inevitable : (s : Mem) → s.done ≡ true → Inevitable Own IsIdle s
closed-Inevitable = inevitable Own IsIdle (λ s. s.done ≡ true) waiting progress Own-waiting

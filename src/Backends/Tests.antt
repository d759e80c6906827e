-- ===== src/Backends/Tests.antt =====
-- The backends at concrete inputs.
use go_portless.Common.{
  ℕ, suc, ◌+◌, true, remove_first, ◌≤◌, ◌<◌, ◌≡◌, refl, List, [], ◌∷◌, arith, ltb, if◌then◌else◌,
  length, occurs,
}
use go_portless.Dial.{ok}
use go_portless.Net.{pos}
use go_portless.Backends.Mem.{
  Mem, mem, meet, refuse, own, dials, accepts, closes, Reach, start, later,
}
use go_portless.Backends.Mem.Meeting.{Reach-IsTracked}
use go_portless.Backends.{Os, reserve_ports, reserve_loop}
use go_portless.Backends.Reserving.{IsDistinct, reserve_ports-IsDistinct}

-- The system counts upwards; the greatest port of the list, and one more.
abbrev above : List ℕ → ℕ
above [] = 40000
above (p ∷ ps) = let q = above ps in if ltb p q then q else suc p

below-above : (p : ℕ) (held : List ℕ) → above held ≤ p → occurs p held ≡ 0
unfolding occurs
below-above p [] h = refl
below-above p (q ∷ held) h = ground (arith, below-above p held)

abbrev counting : Os
counting = record { listen_tcp4 = λ held. ok (above held); listen_tcp = λ held. ok (above held) }

ok_same : {a b : ℕ} → ok a ≡ ok b → a ≡ b
ok_same e = cc

counting-free : (held : List ℕ) (p : ℕ) → ok (above held) ≡ ok p → occurs p held ≡ 0
counting-free held p e = below-above p held (omega (arith, ok_same e))

abbrev two_ports : List ℕ
two_ports = 40000 ∷ 40001 ∷ []

reserve_ports-IsDistinct_example :
    (pos 2 ≡ pos (length two_ports))
    × (0 < length two_ports)
    × (two_ports ≡ two_ports)
    × IsDistinct two_ports
unfolding reserve_ports reserve_loop
reserve_ports-IsDistinct_example =
    reserve_ports-IsDistinct counting (pos 2) two_ports two_ports counting-free counting-free refl

-- Two dials and an Accept: the second pipe is handed over, Close refuses the first.
abbrev refused : Mem
refused = record {
  done = true;
  dialing = [];
  accepting = 0;
  opened = 2;
  met = 1 ∷ [];
  closed_pipes = 0 ∷ [];
}

two_dials : Reach (record mem { dialing = 1 ∷ 0 ∷ []; accepting = 1; opened = 2 })
two_dials = later (later (later start dials) dials) accepts

one_refused : Reach refused
unfolding occurs remove_first
one_refused =
    later (later (later two_dials (own (meet 1 (λ e. absurd (ground arith)) (omega arith)))) closes)
      (own (refuse 0 (λ e. absurd (ground arith)) refl))

Reach-IsTracked_example :
    occurs 0 refused.dialing + (occurs 0 refused.met + occurs 0 refused.closed_pipes)
    ≡ (if ltb 0 refused.opened then 1 else 0)
Reach-IsTracked_example = Reach-IsTracked one_refused 0

-- ===== src/Backoff/Tests.antt =====
-- Runs and instances of the backoff.
use go_portless.Common.{◌+◌, ◌-◌, ◌/◌, ◌≤◌, ◌<◌, ◌≡◌, refl, [], ◌∷◌, arith}
use go_portless.Backoff.{out_of_range, Backoff, new, next, advance}
use go_portless.Backoff.Sequence.{after, ideal, nth_delay}

-- The dial loop's range, 25 ms to 500 ms.
abbrev dial_backoff : Backoff
dial_backoff = record { min = 25000000; max = 500000000; attempt = 0 }

nth_delay_example :
    let b = new 25000000 500000000 in
    let d = ideal b.min b.max 2 in
    (0 < b.min)
    × (b.min ≤ b.max)
    × (d - d / 4 ≤ (next (after (7 ∷ 9 ∷ []) b) 11).0)
    × ((next (after (7 ∷ 9 ∷ []) b) 11).0 ≤ d + d / 4 + 1)
unfolding new
nth_delay_example =
    nth_delay 25000000 500000000 (7 ∷ 9 ∷ []) 11 (omega arith) (omega arith) (omega arith)

fifth_delay : (advance (after (0 ∷ 0 ∷ 0 ∷ 0 ∷ 0 ∷ []) dial_backoff)).0 ≡ 500000000
unfolding advance after next out_of_range
fifth_delay = refl

-- ===== src/K8s/Stream/Deadlines.antt =====
-- A deadline of a stream, once it is set, stays.
use go_portless.Common.{ℕ, ◌≡◌, ◌≢◌, ◌⊎◌, true, occurs}
use go_portless.K8s.Stream.{Live}
use go_portless.K8s.Stream.Life.{Sys, Step}

-- The stream is closed, or the timer for the time t is set.
abbrev IsArmed : ℕ → Live → Type 0
IsArmed t s = (s.stream.is_closed ≡ true) ⊎ (occurs t s.stream.timers ≢ 0)

-- The stream is closed, or a timer may close it now.
abbrev pub Expires : Sys → Type 0
Expires s =
    (s.live.stream.is_closed ≡ true) ⊎ ((t : Sys) × Step s t × (t.live.stream.is_closed ≡ true))

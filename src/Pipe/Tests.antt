-- ===== src/Pipe/Tests.antt =====
-- Bridges and tunnels at concrete runs.
use go_portless.Common.{Inevitable, refl, Bool, true, false, [], arith, codes}
use go_portless.Pipe.{
  End, Policy, bridge, tunnel, ending, read, write, read_eof, Closing, leave_open, close_write,
  read_fails, breaks, sends, ends, Pair, Own, pump_up, pump_down, shut, own, left_peer, right_peer,
  fresh, opened, Reach, start, later,
}
use go_portless.Pipe.Flow.{BothFlow, Reach-BothFlow}
use go_portless.Pipe.Complete.{IsWhole, bridge-IsWhole}
use go_portless.Pipe.Ending.{IsReleased, Reach-Inevitable}
use go_portless.Pipe.Waiting.{IsSilent, Runs, here, by_own, by_shut, bridge-IsSilent}

abbrev hello : End
hello = record fresh { sent = codes "hi"; ended = true }

-- The backend has said "hi" and ended its stream, and the client has all of it.
abbrev answered : Pair
answered = record opened {
  left = record fresh { received = codes "hi"; write_closed = true };
  right = hello;
  down = record { buf = []; finished = true };
}

abbrev half_closing : Closing → Bool → Policy
half_closing k b = record { up_closing = k; down_closing = close_write; shuts = b }

answered_run : (k : Closing) (b : Bool) → Reach (half_closing k b) answered
unfolding ending
answered_run k b =
    later
      (later
        (later (later (later start (right_peer (sends (codes "hi") refl))) (right_peer ends))
          (own (pump_down (read (codes "hi") [] refl refl refl refl (λ e. absurd (ground arith))))))
        (own (pump_down (write refl (λ e. absurd (ground arith)) refl refl))))
      (own (pump_down (read_eof refl refl refl refl)))

-- The same run under either policy.
answered-Reach : Reach (bridge true false) answered × Reach (tunnel true true) answered
unfolding bridge tunnel ending
answered-Reach = (answered_run leave_open true, answered_run close_write false)

-- The peers have both gone, and the request has been cut.
abbrev gone : Pair
gone = record answered { left = record answered.left { broken = true } }

-- The registry has closed while the backend is silent.
abbrev abandoned : Pair
abandoned = record opened {
  left = record fresh { closed = true };
  up = record { buf = []; finished = true };
  was_shut = true;
}

abandoned_run : Runs (bridge true false) opened abandoned
unfolding bridge ending
abandoned_run = by_own (by_shut here (shut refl)) (pump_up (read_fails refl refl refl))

Reach-BothFlow_example : BothFlow answered
Reach-BothFlow_example = Reach-BothFlow answered-Reach.0

bridge-IsWhole_example : IsWhole answered
bridge-IsWhole_example = bridge-IsWhole false answered-Reach.0

Reach-Inevitable_example : Inevitable (Own (bridge true false)) IsReleased gone
Reach-Inevitable_example =
    Reach-Inevitable (bridge true false) gone (later answered-Reach.0 (left_peer breaks)) refl refl
      refl refl

bridge-IsSilent_example : IsSilent abandoned
bridge-IsSilent_example =
    bridge-IsSilent true false (refl, refl, refl, refl, refl, refl, refl) abandoned_run

-- ===== src/Registry/Lifecycle.antt =====
-- registry.go under concurrency: Add, Remove and Close as the steps that their lock sections and
-- calls of Start make, in any order, and an account of the backends.
pub mod Counts
pub mod Invariant
pub mod Runs
mod Tests
use go_portless.Common.{
  ℕ, zero, suc, ◌+◌, Bool, true, false, Option, none, some, List, [], ◌∷◌, ◌++◌, map, Text,
  to_lower,
}
use go_portless.Dial.{Config, Result, ok, failed}
use go_portless.Route.{Route}
use go_portless.Registry.{Registry, new_registry, reserve, release_name, publish}
use go_portless.Registry.Ops.{take, shut}

-- An Add between its reservation and its publication.
pub record Task (E : Type 0) : Type 0 where
  pub key : Text
  pub route : Route E

-- The registry; the Adds whose Start runs, and those whose Start has returned nil; the numbers of
-- the backends whose Start has succeeded, once for each time; of those that some goroutine has to
-- stop, since its lock section has taken them out or found the registry closed; and of those whose
-- Stop has been called, once for each call.
pub record Sys (E : Type 0) : Type 0 where
  pub reg : Registry E
  pub starting : List (Task E)
  pub waiting : List (Task E)
  pub acquired : List ℕ
  pub doomed : List ℕ
  pub stopped : List ℕ

-- One step of some goroutine: an Add reserves its name; the Start of the i-th Add under way fails,
-- or succeeds; the i-th Add that waits publishes its route or finds the registry closed; a Remove
-- takes its route; a Close shuts the registry; the goroutine that has to stop the i-th backend of
-- those that are to be stopped calls its Stop, as an overtaken Add, Remove and Close do once they
-- have left the lock; a backend that has no Stop has nothing to be called there.
pub data Act (E : Type 0) : Type 0 where
  begin : Text → Route E → Act E
  start_fails start_succeeds finish stops : ℕ → Act E
  removes : Text → Act E
  closes : Act E

abbrev pub behind_number : ℕ → Option (ℕ × List ℕ) → Option (ℕ × List ℕ)
behind_number n none = none
behind_number n (some (m, ms)) = some (m, n ∷ ms)

-- The i-th number, and the others.
unfoldable pub pick_number : ℕ → List ℕ → Option (ℕ × List ℕ)
pick_number i [] = none
pick_number zero (n ∷ ns) = some (n, ns)
pick_number (suc i) (n ∷ ns) = behind_number n (pick_number i ns)

module _ {E : Type 0} where
  -- The i-th task, and the others.
  abbrev pub behind : Task E → Option (Task E × List (Task E)) → Option (Task E × List (Task E))
  behind t none = none
  behind t (some (u, us)) = some (u, t ∷ us)

  unfoldable pub pick : ℕ → List (Task E) → Option (Task E × List (Task E))
  pick i [] = none
  pick zero (t ∷ ts) = some (t, ts)
  pick (suc i) (t ∷ ts) = behind t (pick i ts)

  abbrev pub number_of : Route E → ℕ
  number_of rt = rt.backend.number

  abbrev pub begun : Sys E → Text → Route E → Result (Registry E) → Sys E
  begun s key rt (failed e) = s
  begun s key rt (ok r) = record s {
    reg = r;
    starting = record { key = key; route = rt } ∷ s.starting;
  }

  abbrev pub start_failed : Sys E → Option (Task E × List (Task E)) → Sys E
  start_failed s none = s
  start_failed s (some (t, ts)) = record s { reg = release_name s.reg t.key; starting = ts }

  abbrev pub start_succeeded : Sys E → Option (Task E × List (Task E)) → Sys E
  start_succeeded s none = s
  start_succeeded s (some (t, ts)) = record s {
    starting = ts;
    waiting = t ∷ s.waiting;
    acquired = number_of t.route ∷ s.acquired;
  }

  abbrev pub concluded : Sys E → Task E → List (Task E) → Registry E × Bool → Sys E
  concluded s t ts (r, true) = record s { reg = r; waiting = ts }
  concluded s t ts (r, false) = record s {
    reg = r;
    waiting = ts;
    doomed = number_of t.route ∷ s.doomed;
  }

  abbrev pub finished : Sys E → Option (Task E × List (Task E)) → Sys E
  finished s none = s
  finished s (some (t, ts)) = concluded s t ts (publish s.reg t.key t.route)

  abbrev pub removed : Sys E → Registry E × Option (Route E) → Sys E
  removed s (r, none) = s
  removed s (r, some rt) = record s { reg = r; doomed = number_of rt ∷ s.doomed }

  abbrev pub closed_down : Sys E → Registry E × List (Route E) → Sys E
  closed_down s (r, rts) = record s { reg = r; doomed = map number_of rts ++ s.doomed }

  abbrev pub stop_called : Sys E → Option (ℕ × List ℕ) → Sys E
  stop_called s none = s
  stop_called s (some (n, ns)) = record s { doomed = ns; stopped = n ∷ s.stopped }

  -- An act that does not apply changes nothing.
  unfoldable pub step : Sys E → Act E → Sys E
  step s (begin name rt) = begun s (to_lower name) rt (reserve s.reg (to_lower name) name)
  step s (start_fails i) = start_failed s (pick i s.starting)
  step s (start_succeeds i) = start_succeeded s (pick i s.starting)
  step s (finish i) = finished s (pick i s.waiting)
  step s (removes name) = removed s (take s.reg (to_lower name))
  step s closes = closed_down s (shut s.reg)
  step s (stops i) = stop_called s (pick_number i s.doomed)

  unfoldable pub run : Sys E → List (Act E) → Sys E
  run s [] = s
  run s (a ∷ acts) = run (step s a) acts

  unfoldable pub initial : List (Config E → Config E) → Sys E
  initial options = record {
    reg = new_registry options;
    starting = [];
    waiting = [];
    acquired = [];
    doomed = [];
    stopped = [];
  }

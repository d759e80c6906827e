-- ===== src/Cli/Main/Child.antt =====
-- What `portless run` leaves behind, and its exit status.
use go_portless.Common.{
  ◌≡◌, refl, ap, ◌∙◌, ◌⊎◌, inl, inr, Option, none, some, List, [], ◌∷◌, Text, codes, text_eq,
}
use go_portless.Errors.{Err}
use go_portless.Net.{ℤ, pos}
use go_portless.Dial.{Result, ok, failed}
use mathlib.Core.Option
use go_portless.Cli.{cut}
use go_portless.Cli.Daemon.{parse_flags}
use go_portless.Cli.Daemon.Returning.{IsShorter, parse_flags_returns}
use go_portless.Cli.Main.{
  Failure, exit_status, Commands, command_of, main_run, RunEnv, ApiCall, adds, asks_status, removes,
  tcp_route, child_ran, route_added, port_given, daemon_up, named_child, separated, cmd_run,
  failure_of,
}

-- The child has run with its status, or could not be started.
abbrev pub IsChildStatus : RunEnv → ℤ → Type 0
IsChildStatus x code =
    ((x.child_start ≡ none) × (code ≡ exit_status x.child_wait))
    ⊎ ((e : Err) × (x.child_start ≡ some e) × (code ≡ pos 1))

-- The calls of the control API, and the status.
abbrev pub RunOutcome : RunEnv → Option Failure × List ApiCall → Type 0
RunOutcome x (o, calls) =
    ((calls ≡ []) × (exit_status o ≡ pos 1))
    ⊎ ((name : Text) × (port : ℤ) × (x.free_port ≡ ok port)
        × (((e : Err) × (x.add_route (tcp_route x name port) ≡ some e)
              × (calls ≡ adds (tcp_route x name port) ∷ [])
              × (exit_status o ≡ pos 1))
            ⊎ ((x.add_route (tcp_route x name port) ≡ none)
                × (calls
                    ≡ adds (tcp_route x name port)
                      ∷ asks_status
                      ∷ removes name (x.remove_route name)
                      ∷ [])
                × IsChildStatus x (exit_status o))))

child-IsChildStatus :
    (x : RunEnv) (cmd : Text) (start : Option Err)
    → x.child_start ≡ start
    → IsChildStatus x (exit_status (child_ran x cmd start))
unfolding exit_status
child-IsChildStatus x cmd (some e) h = inr (e, h, refl)
child-IsChildStatus x cmd none h = inl (h, refl)

route_added-RunOutcome :
    (x : RunEnv) (cmd name : Text) (port : ℤ) (o : Option Err)
    → x.free_port ≡ ok port
    → x.add_route (tcp_route x name port) ≡ o
    → RunOutcome x (route_added x cmd name (tcp_route x name port) o)
unfolding exit_status
route_added-RunOutcome x cmd name port (some e) p h = inr (name, port, p, inl (e, h, refl, refl))
route_added-RunOutcome x cmd name port none p h =
    inr (name, port, p, inr (h, refl, child-IsChildStatus x cmd x.child_start refl))

port_given-RunOutcome :
    (x : RunEnv) (cmd name : Text) (r : Result ℤ)
    → x.free_port ≡ r
    → RunOutcome x (port_given x cmd name r)
unfolding exit_status
port_given-RunOutcome x cmd name (failed e) p = inl (refl, refl)
port_given-RunOutcome x cmd name (ok port) p =
    route_added-RunOutcome x cmd name port (x.add_route (tcp_route x name port)) p refl

daemon_up-RunOutcome :
    (x : RunEnv) (cmd name : Text) (o : Option Err) → RunOutcome x (daemon_up x cmd name o)
unfolding exit_status
daemon_up-RunOutcome x cmd name (some e) = inl (refl, refl)
daemon_up-RunOutcome x cmd name none = port_given-RunOutcome x cmd name x.free_port refl

named_child-RunOutcome :
    (x : RunEnv) (cmd : Text) (r : Result (List Text)) → RunOutcome x (named_child x cmd r)
unfolding exit_status
named_child-RunOutcome x cmd (failed e) = inl (refl, refl)
named_child-RunOutcome x cmd (ok []) = inl (refl, refl)
named_child-RunOutcome x cmd (ok (name ∷ [])) = daemon_up-RunOutcome x cmd name x.daemon
named_child-RunOutcome x cmd (ok (name ∷ other ∷ names)) = inl (refl, refl)

abbrev Ends : RunEnv → Option (Option Failure × List ApiCall) → Type 0
Ends x o = (r : Option Failure × List ApiCall) × (o ≡ some r) × RunOutcome x r

parsed-Ends :
    (x : RunEnv) (cmd : Text) (o : Option (Result (List Text))) (r : Result (List Text))
    → o ≡ some r
    → Ends x (Option.map (named_child x cmd) o)
parsed-Ends x cmd o r e =
    (named_child x cmd r, ap (Option.map (named_child x cmd)) e, named_child-RunOutcome x cmd r)

separated-Ends :
    (x : RunEnv) (o : Option (List Text × List Text)) → IsShorter x.flags → Ends x (separated x o)
unfolding exit_status
separated-Ends x none h = (_, refl, inl (refl, refl))
separated-Ends x (some (before, [])) h = (_, refl, inl (refl, refl))
separated-Ends x (some (before, cmd ∷ args)) h =
    let (r, e) = parse_flags_returns x.flags before h in
    parsed-Ends x cmd (parse_flags x.flags before) r e

main_run_child :
    (c : Commands) (args : List Text) (o : Option Failure)
    → c.run args ≡ o
    → main_run c (codes "run" ∷ args) ≡ exit_status o
unfolding main_run command_of text_eq
main_run_child c args o h = ap exit_status h

-- `portless run` ends, asks for the removal of the route that it has added, and its status is that of
-- the child. Where cmdRun is the command of "run", and the flag library leaves no more arguments than
-- it gets: cmdRun ends, and either no route was asked for and the status is 1; or one route was, of
-- the type tcp on 127.0.0.1 and the port that the system gave; if AddRoute failed, nothing more was
-- asked for and the status is 1; if it succeeded, the status of the daemon was asked for, and last the
-- removal of the route of that name, whatever the child did; the exit status is that of the child, or
-- 1 if it could not be started, whatever RemoveRoute answered.
pub main_run-RunOutcome :
    (x : RunEnv) (c : Commands) (args : List Text)
    → IsShorter x.flags
    → c.run args ≡ failure_of (cmd_run x args)
    → (r : Option Failure × List ApiCall) × (cmd_run x args ≡ some r)
      × RunOutcome x r
      × (main_run c (codes "run" ∷ args) ≡ exit_status r.0)
unfolding cmd_run
main_run-RunOutcome x c args short h =
    let (r, e, out) = separated-Ends x (cut args (codes "--")) short in
    (r, e, out, main_run_child c args r.0 (h ∙ ap failure_of e))

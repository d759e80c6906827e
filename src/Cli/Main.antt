-- ===== src/Cli/Main.antt =====
-- cmd/portless/main.go: the dispatch and the exit status; run.go: cmdRun, which gives a child process
-- a port and a route; doctor.go. What the flag library, the daemon, the system and the child answer
-- are arguments.
pub mod Child
use go_portless.Common.{
  ℕ, ◌+◌, Bool, true, false, not, ◌&&◌, ◌||◌, Option, none, some, List, [], ◌∷◌, ◌++◌, ◌==◌,
  if◌then◌else◌, Text, codes, text_eq,
}
use go_portless.Errors.{Err, errorf, wrap}
use go_portless.Net.{ℤ, pos, itoa, join_host_port}
use go_portless.Dial.{Result, ok, failed}
use go_portless.Control.{RouteSpec}
use mathlib.Core.Option
use go_portless.Cli.{cut}
use go_portless.Cli.Daemon.{parse_flags}

-- The error of a command: exitCodeError, or any other.
pub data Failure : Type 0 where
  exit_code : ℤ → Failure
  plain : Err → Failure

-- main.run, once the command has returned.
unfoldable pub exit_status : Option Failure → ℤ
exit_status none = pos 0
exit_status (some (exit_code code)) = code
exit_status (some (plain e)) = pos 1

abbrev pub Command : Type 0
Command = List Text → Option Failure

-- The commands of main.run.
pub record Commands : Type 0 where
  pub run : Command
  pub alias : Command
  pub serve : Command
  pub route : Command
  pub env : Command
  pub status : Command
  pub doctor : Command
  pub ca : Command

unfoldable pub command_of : Commands → Text → Option Command
command_of c name =
    if text_eq name (codes "run")
    then some c.run
    else if text_eq name (codes "alias")
    then some c.alias
    else if text_eq name (codes "serve")
    then some c.serve
    else if text_eq name (codes "route")
    then some c.route
    else if text_eq name (codes "env")
    then some c.env
    else if text_eq name (codes "status")
    then some c.status
    else if text_eq name (codes "doctor")
    then some c.doctor
    else if text_eq name (codes "ca")
    then some c.ca
    else none

-- The version and the usage, which are printed.
unfoldable pub is_information : Text → Bool
is_information name =
    text_eq name (codes "version")
    || text_eq name (codes "--version")
    || text_eq name (codes "help")
    || text_eq name (codes "-h")
    || text_eq name (codes "--help")

abbrev pub dispatched : Text → List Text → Option Command → ℤ
dispatched name rest none = if is_information name then pos 0 else pos 2
dispatched name rest (some command) = exit_status (command rest)

-- run of main.go
unfoldable pub main_run : Commands → List Text → ℤ
main_run c [] = pos 2
main_run c (name ∷ rest) = dispatched name rest (command_of c name)

-- What cmdRun is answered: by the flag library (fs.Parse and fs.Args), ensureDaemon, freePort, the
-- JSON encoder, AddRoute, and by the start of the child and the waiting for it, where an ExitError
-- stands as its exit code; and RemoveRoute.
pub record RunEnv : Type 0 where
  pub flags : List Text → Result (List Text)
  pub daemon : Option Err
  pub free_port : Result ℤ
  pub json : Text → Text
  pub add_route : RouteSpec → Option Err
  pub child_start : Option Err
  pub child_wait : Option Failure
  pub remove_route : Text → Option Err

-- The calls of the control API, in order; `removes` has the answer too. What Status answers is only
-- printed.
pub data ApiCall : Type 0 where
  adds : RouteSpec → ApiCall
  asks_status : ApiCall
  removes : Text → Option Err → ApiCall

abbrev pub usage_run : Err
usage_run = errorf "usage: portless run NAME [flags] -- CMD [args...]" []

abbrev pub tcp_route : RunEnv → Text → ℤ → RouteSpec
tcp_route x name port = record {
  name = name;
  kind = codes "tcp";
  config = x.json (join_host_port (codes "127.0.0.1") (itoa port));
}

-- The child, and then the deferred RemoveRoute, whose error is ignored.
abbrev pub child_ran : RunEnv → Text → Option Err → Option Failure
child_ran x cmd (some e) = some (plain (wrap "start %q: %w" (cmd ∷ []) e))
child_ran x cmd none = x.child_wait

abbrev pub route_added :
    RunEnv → Text → Text → RouteSpec → Option Err → Option Failure × List ApiCall
route_added x cmd name spec (some e) = (some (plain e), adds spec ∷ [])
route_added x cmd name spec none = (
  child_ran x cmd x.child_start,
  adds spec ∷ asks_status ∷ removes name (x.remove_route name) ∷ [],
)

abbrev pub port_given : RunEnv → Text → Text → Result ℤ → Option Failure × List ApiCall
port_given x cmd name (failed e) = (some (plain (wrap "assign port: %w" [] e)), [])
port_given x cmd name (ok port) =
    route_added x cmd name (tcp_route x name port) (x.add_route (tcp_route x name port))

abbrev pub daemon_up : RunEnv → Text → Text → Option Err → Option Failure × List ApiCall
daemon_up x cmd name (some e) = (some (plain e), [])
daemon_up x cmd name none = port_given x cmd name x.free_port

abbrev pub named_child : RunEnv → Text → Result (List Text) → Option Failure × List ApiCall
named_child x cmd (failed e) = (some (plain e), [])
named_child x cmd (ok (name ∷ [])) = daemon_up x cmd name x.daemon
named_child x cmd (ok names) = (some (plain usage_run), [])

abbrev pub separated :
    RunEnv → Option (List Text × List Text) → Option (Option Failure × List ApiCall)
separated x none = some (some (plain usage_run), [])
separated x (some (before, [])) = some (some (plain usage_run), [])
separated x (some (before, cmd ∷ args)) =
    Option.map (named_child x cmd) (parse_flags x.flags before)

-- cmdRun, with its calls of AddRoute, Status and RemoveRoute; `none` is the fuel of parseFlags.
unfoldable pub cmd_run : RunEnv → List Text → Option (Option Failure × List ApiCall)
cmd_run x args = separated x (cut args (codes "--"))

abbrev pub failure_of : Option (Option Failure × List ApiCall) → Option Failure
failure_of none = none
failure_of (some (o, calls)) = o

-- cmdDoctor, once the names are known: the routes that are not ready, given what WaitReady answers.
unfoldable pub not_ready : (Text → Option Err) → List Text → ℕ
not_ready wait [] = 0
not_ready wait (name ∷ names) = elim (wait name) [
  | none ↦ not_ready wait names
  | some e ↦ 1 + not_ready wait names
]

abbrev pub doctor_failed : ℕ → Option Failure
doctor_failed n =
    if n == 0
    then none
    else some (plain (errorf "doctor: %d route(s) not ready" (itoa (pos n) ∷ [])))

abbrev pub doctor_names : List Text → Result (List Text) → Result (List Text)
doctor_names [] routes = routes
doctor_names (name ∷ names) routes = ok (name ∷ names)

abbrev pub doctor_on : (Text → Option Err) → Result (List Text) → Option Failure
doctor_on wait (failed e) = some (plain e)
doctor_on wait (ok names) = doctor_failed (not_ready wait names)

-- cmdDoctor, given what the flag library leaves and what Routes answers.
unfoldable pub cmd_doctor :
    (Text → Option Err) → Result (List Text) → Result (List Text) → Option Failure
cmd_doctor wait (failed e) routes = some (plain e)
cmd_doctor wait (ok names) routes = doctor_on wait (doctor_names names routes)

-- ===== src/Cli/Routing.antt =====
-- cmd/portless/route.go: cmdRoute with routeAdd and routeRm, and cmd/portless/alias.go. The flag
-- library, ParseTCP, JSON, the daemon and the control API are arguments; what `route list` prints is
-- not modelled, only its error.
pub mod Shorthand
mod Tests
use go_portless.Common.{
  Bool, true, false, Option, none, some, List, [], ◌∷◌, if◌then◌else◌, Text, codes, text_eq,
}
use mathlib.Core.Option
use go_portless.Errors.{Err, errorf}
use go_portless.Dial.{Result, ok, failed}
use go_portless.Control.{RouteSpec}
use go_portless.Cli.{RouteFlags, K8sConfig, split_name, route_spec}
use go_portless.Cli.Daemon.{parse_flags}
use go_portless.Cli.Main.{ApiCall, adds, removes}

-- What the commands are answered: by the flag library, for alias (fs.Parse and fs.Args), for
-- `route add`, `route rm` and `route list`; by ParseTCP, ensureDaemon and the JSON encoder; and by the
-- calls of the control API.
pub record RoutingEnv : Type 0 where
  pub flags : List Text → Result (List Text)
  pub add_flags : List Text → Result RouteFlags
  pub rm_flags : List Text → Option Err
  pub list : List Text → Option Err
  pub parse : Text → Option Err
  pub daemon : Option Err
  pub tcp_json : Text → Text
  pub k8s_json : K8sConfig → Text
  pub add_route : RouteSpec → Option Err
  pub remove_route : Text → Option Err

-- The error of a command, and the calls that change routes.
abbrev pub Called : Type 0
Called = Option Err × List ApiCall

abbrev pub spec_added : RoutingEnv → Result RouteSpec → Called
spec_added x (failed e) = (some e, [])
spec_added x (ok spec) = (x.add_route spec, adds spec ∷ [])

abbrev pub flags_added : RoutingEnv → Text → Result RouteFlags → Called
flags_added x name (failed e) = (some e, [])
flags_added x name (ok fs) = spec_added x (route_spec x.parse x.tcp_json x.k8s_json name fs)

abbrev pub name_added : RoutingEnv → Result (Text × List Text) → Called
name_added x (failed e) = (some e, [])
name_added x (ok (name, flags)) = flags_added x name (x.add_flags flags)

-- routeAdd
unfoldable pub route_add : RoutingEnv → List Text → Called
route_add x args = name_added x (split_name args)

abbrev pub flags_removed : RoutingEnv → Text → Option Err → Called
flags_removed x name (some e) = (some e, [])
flags_removed x name none = (x.remove_route name, removes name (x.remove_route name) ∷ [])

abbrev pub name_removed : RoutingEnv → Result (Text × List Text) → Called
name_removed x (failed e) = (some e, [])
name_removed x (ok (name, flags)) = flags_removed x name (x.rm_flags flags)

-- routeRm
unfoldable pub route_rm : RoutingEnv → List Text → Called
route_rm x args = name_removed x (split_name args)

-- cmdRoute
unfoldable pub cmd_route : RoutingEnv → List Text → Called
cmd_route x [] = (some (errorf "route: expected subcommand add|list|rm" []), [])
cmd_route x (sub ∷ rest) =
    if text_eq sub (codes "add")
    then route_add x rest
    else if text_eq sub (codes "list")
    then (x.list rest, [])
    else if text_eq sub (codes "rm")
    then route_rm x rest
    else (some (errorf "route: unknown subcommand %q" (sub ∷ [])), [])

abbrev pub alias_daemon : RoutingEnv → Text → Text → Option Err → Called
alias_daemon x name address (some e) = (some e, [])
alias_daemon x name address none =
    let spec : RouteSpec = record {
      name = name;
      kind = codes "tcp";
      config = x.tcp_json address;
    } in
    (x.add_route spec, adds spec ∷ [])

abbrev pub alias_parsed : RoutingEnv → Text → Text → Option Err → Called
alias_parsed x name address (some e) = (some e, [])
alias_parsed x name address none = alias_daemon x name address x.daemon

abbrev pub alias_given : RoutingEnv → Result (List Text) → Called
alias_given x (failed e) = (some e, [])
alias_given x (ok (name ∷ address ∷ [])) = alias_parsed x name address (x.parse address)
alias_given x (ok args) = (some (errorf "usage: portless alias NAME HOST:PORT" []), [])

-- cmdAlias; `none` is the fuel of parseFlags.
unfoldable pub cmd_alias : RoutingEnv → List Text → Option Called
cmd_alias x args = Option.map (alias_given x) (parse_flags x.flags args)

-- ===== src/Cli/Routing/Tests.antt =====
-- alias and `route add` on one command line.
use go_portless.Common.{◌≡◌, refl, none, some, List, [], ◌∷◌, Text, codes, text_eq}
use go_portless.Errors.{errorf}
use go_portless.Dial.{Result, ok, failed}
use go_portless.Cli.{RouteFlags, starts_dash}
use go_portless.Cli.Routing.{RoutingEnv, cmd_route, cmd_alias}
use go_portless.Cli.Routing.Shorthand.{tcp_flag, cmd_alias-cmd_route}

abbrev read_tcp : List Text → Result RouteFlags
read_tcp (flag ∷ address ∷ []) = ok (tcp_flag address)
read_tcp args = failed (errorf "flag provided but not defined" [])

abbrev up : RoutingEnv
up = record {
  flags = λ args. ok args;
  add_flags = read_tcp;
  rm_flags = λ args. none;
  list = λ args. none;
  parse = λ address. none;
  daemon = none;
  tcp_json = λ address. address;
  k8s_json = λ config. config.service;
  add_route = λ spec. none;
  remove_route = λ name. none;
}

cmd_alias-cmd_route_example :
    cmd_alias up (codes "db" ∷ codes "127.0.0.1:5432" ∷ [])
    ≡ some (cmd_route up (codes "add" ∷ codes "db" ∷ codes "--tcp" ∷ codes "127.0.0.1:5432" ∷ []))
unfolding text_eq starts_dash
cmd_alias-cmd_route_example =
    cmd_alias-cmd_route up (codes "db") (codes "127.0.0.1:5432") refl refl refl
      (refl, refl, refl, refl)

-- ===== src/Cli/Serve/Tests.antt =====
-- A daemon that cannot set the mode of its control socket.
use go_portless.Common.{false, true, not, none, some, [], codes}
use go_portless.Errors.{errorf}
use go_portless.Dial.{ok}
use go_portless.Cli.Serve.{ServeEnv, cancelled, run_serve}
use go_portless.Cli.Serve.Released.{
  is_none, listens_and, is_served, IsReleased, run_serve-IsReleased,
}

abbrev unmoded : ServeEnv
unmoded = record {
  proxy_addr = codes "127.0.0.1:0";
  tls = false;
  load_authority = none;
  start_proxy = ok (codes "127.0.0.1:4000");
  socket = codes "/tmp/s";
  socket_dir = record { make_dir = none; remove = none };
  socket_file = some true;
  listen = none;
  chmod = some (errorf "operation not permitted" []);
  ending = cancelled;
}

run_serve-IsReleased_example :
    IsReleased
      (is_served unmoded)
      (listens_and unmoded (not (is_none unmoded.chmod)))
      (run_serve unmoded)
run_serve-IsReleased_example = run_serve-IsReleased unmoded

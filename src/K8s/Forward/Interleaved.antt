-- ===== src/K8s/Forward/Interleaved.antt =====
-- k8s/portforward.go under concurrency: the dials and Stop as steps, one for each lock section that
-- changes the cached connection, and an account of the connections.
use go_portless.Common.{
  remove_first, occurs, ℕ, suc, Bool, List, [], ◌∷◌, ◌++◌, ◌==◌, if◌then◌else◌,
}
use go_portless.K8s.Forward.{Forward, new_forward, stop, install, drop_conn}

-- The port forward, the connections that a dial has opened and not yet brought to `install`, those
-- that have been closed, once for each time, and the number of those opened so far.
pub record Sys : Type 0 where
  pub forward : Forward
  pub held : List ℕ
  pub closed_conns : List ℕ
  pub opened : ℕ

-- The steps of the dials and of Stop: a dial opens a connection; it brings it to ensureConn's
-- second lock section; it drops the connection that it used; Stop.
pub data Act : Type 0 where
  act_open : Act
  act_install : ℕ → (ℕ → Bool) → Act
  act_drop : ℕ → Act
  act_stop : Act

abbrev pub after_install : Sys → ℕ → Forward × List ℕ → Sys
after_install s c (f, cs) = record s {
  forward = f;
  held = remove_first c s.held;
  closed_conns = cs ++ s.closed_conns;
}

abbrev pub after_section : Sys → Forward × List ℕ → Sys
after_section s (f, cs) = record s { forward = f; closed_conns = cs ++ s.closed_conns }

-- Only a connection that is held is brought to install.
unfoldable pub step : Act → Sys → Sys
step act_open s = record s { held = s.opened ∷ s.held; opened = suc s.opened }
step (act_install c alive) s =
    if occurs c s.held == 0
    then s
    else let (f, answer, cs) = install alive s.forward c in after_install s c (f, cs)
step (act_drop c) s = after_section s (drop_conn s.forward c)
step act_stop s = after_section s (stop s.forward)

unfoldable pub run : List Act → Sys → Sys
run [] s = s
run (a ∷ acts) s = run acts (step a s)

abbrev pub initial : Sys
initial = record { forward = new_forward; held = []; closed_conns = []; opened = 0 }

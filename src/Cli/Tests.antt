-- ===== src/Cli/Tests.antt =====
-- Command lines.
use go_portless.Common.{
  ◌≤◌, ◌≡◌, refl, subst, ◌⊎◌, true, false, Option, none, some, List, [], ◌∷◌, arith, length, Text,
  codes, text_eq, to_lower, lower_byte, trim_space, trim_left, trim_right,
}
use go_portless.Net.{pos}
use go_portless.Dial.{Result, ok}
use go_portless.Cli.{cut}
use go_portless.Cli.Daemon.{flags_loop, parse_flags}
use go_portless.Cli.Daemon.Returning.{IsShorter}
use go_portless.Cli.Main.{
  Failure, ApiCall, failure_of, exit_code, exit_status, Command, Commands, command_of, main_run,
  RunEnv, cmd_run,
}
use go_portless.Cli.Main.Child.{RunOutcome, main_run-RunOutcome}
use go_portless.Cli.Trust.{TrustEnv, confirm, exec_all, trust_install, ca_install, cmd_ca}
use go_portless.Cli.Trust.Confirmed.{IsConfirmed, cmd_ca-IsConfirmed}

cut_runs :
    cut (codes "web" ∷ codes "--" ∷ codes "go" ∷ codes "--" ∷ []) (codes "--")
    ≡ some (codes "web" ∷ [], codes "go" ∷ codes "--" ∷ [])
unfolding cut text_eq
cut_runs = refl

same_list : {a b : List Text} → ok a ≡ ok b → a ≡ b
same_list e = cc

-- Every argument is positional.
abbrev positional : List Text → Result (List Text)
positional args = ok args

positional-IsShorter : IsShorter positional
positional-IsShorter args rest h = subst (λ l. length l ≤ length args) (same_list h) (omega arith)

abbrev web_run : RunEnv
web_run = record {
  flags = positional;
  daemon = none;
  free_port = ok (pos 40000);
  json = λ address. address;
  add_route = λ spec. none;
  child_start = none;
  child_wait = some (exit_code (pos 3));
  remove_route = λ name. none;
}

abbrev idle_command : Command
idle_command args = none

abbrev commands : Commands
commands = record {
  run = λ args. failure_of (cmd_run web_run args);
  alias = idle_command;
  serve = idle_command;
  route = idle_command;
  env = idle_command;
  status = idle_command;
  doctor = idle_command;
  ca = idle_command;
}

abbrev web_args : List Text
web_args = codes "web" ∷ codes "--" ∷ codes "go" ∷ []

main_run-RunOutcome_example :
    (r : Option Failure × List ApiCall) × (cmd_run web_run web_args ≡ some r)
    × RunOutcome web_run r
    × (main_run commands (codes "run" ∷ web_args) ≡ exit_status r.0)
main_run-RunOutcome_example =
    main_run-RunOutcome web_run commands web_args positional-IsShorter refl

web_status : main_run commands (codes "run" ∷ web_args) ≡ pos 3
unfolding main_run command_of text_eq cmd_run cut exit_status parse_flags flags_loop
web_status = refl

-- Someone types "Yes".
abbrev asked : TrustEnv
asked = record {
  parse_error = none;
  load_error = none;
  state_dir = codes "/s";
  assume_yes = false;
  is_terminal = true;
  line = codes "Yes ";
  goos = codes "linux";
  exec = λ c. none;
}

cmd_ca-IsConfirmed_example :
    IsConfirmed asked
    × (asked.parse_error ≡ none)
    × (((codes "install" ≡ codes "install") × (asked.load_error ≡ none))
        ⊎ (codes "install" ≡ codes "uninstall"))
unfolding cmd_ca ca_install confirm text_eq to_lower lower_byte trim_space trim_left trim_right
    trust_install exec_all
cmd_ca-IsConfirmed_example =
    cmd_ca-IsConfirmed asked (codes "install") [] (λ e. absurd (ground arith))

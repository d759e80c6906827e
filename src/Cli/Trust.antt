-- ===== src/Cli/Trust.antt =====
-- cmd/portless/ca.go: the commands that put the authority into the system's trust store and take it
-- out. The flag library, ca.Load, the terminal, the input and the programs that are run are
-- arguments; the system is that of runtime.GOOS.
pub mod Confirmed
use go_portless.Common.{
  Bool, true, false, not, ◌||◌, Option, none, some, List, [], ◌∷◌, ◌++◌, if◌then◌else◌, Text, codes,
  text_eq, to_lower, trim_space,
}
use go_portless.Errors.{Err, errorf, wrap}
use go_portless.Dial.{Result, ok, failed}

-- A command line, as exec.Command takes it.
abbrev pub CommandLine : Type 0
CommandLine = List Text

-- What the commands are answered.
pub record TrustEnv : Type 0 where
  pub parse_error : Option Err
  pub load_error : Option Err
  pub state_dir : Text
  pub assume_yes : Bool
  pub is_terminal : Bool
  pub line : Text
  pub goos : Text
  pub exec : CommandLine → Option Err

-- confirm, with the line that is read; it is read only from a terminal.
unfoldable pub confirm : TrustEnv → Result Bool
confirm x =
    if x.assume_yes
    then ok true
    else if not x.is_terminal
    then failed (errorf "not a terminal; re-run with --yes to confirm" [])
    else let line = to_lower (trim_space x.line) in
      ok (text_eq line (codes "y") || text_eq line (codes "yes"))

-- What is run, and the error of the last program.
abbrev pub Ran : Type 0
Ran = List CommandLine × Option Err

-- One program after another, as long as they succeed.
unfoldable pub exec_all : TrustEnv → List CommandLine → Ran
exec_all x [] = ([], none)
exec_all x (c ∷ cs) = elim (x.exec c) [
  | some e ↦ (c ∷ [], some e)
  | none ↦ let (ran, e) = exec_all x cs in (c ∷ ran, e)
]

abbrev pub portless_crt : Text
portless_crt = codes "/usr/local/share/ca-certificates/portless.crt"

-- trustInstall
unfoldable pub trust_install : TrustEnv → Text → Ran
trust_install x crt =
    if text_eq x.goos (codes "darwin")
    then exec_all x (
        (codes "security"
          ∷ codes "add-trusted-cert"
          ∷ codes "-d"
          ∷ codes "-r"
          ∷ codes "trustRoot"
          ∷ codes "-k"
          ∷ codes "/Library/Keychains/System.keychain"
          ∷ crt
          ∷ [])
        ∷ [])
    else if text_eq x.goos (codes "linux")
    then exec_all x (
        (codes "sudo" ∷ codes "cp" ∷ crt ∷ portless_crt ∷ [])
        ∷ (codes "sudo" ∷ codes "update-ca-certificates" ∷ [])
        ∷ [])
    else ([], some (errorf "automatic install not supported on %s" (x.goos ∷ [])))

-- trustUninstall
unfoldable pub trust_uninstall : TrustEnv → Text → Ran
trust_uninstall x crt =
    if text_eq x.goos (codes "darwin")
    then exec_all x ((codes "security" ∷ codes "remove-trusted-cert" ∷ codes "-d" ∷ crt ∷ []) ∷ [])
    else if text_eq x.goos (codes "linux")
    then exec_all x (
        (codes "sudo" ∷ codes "rm" ∷ codes "-f" ∷ portless_crt ∷ [])
        ∷ (codes "sudo" ∷ codes "update-ca-certificates" ∷ codes "--fresh" ∷ [])
        ∷ [])
    else ([], some (errorf "automatic uninstall not supported on %s" (x.goos ∷ [])))

abbrev pub crt_path : TrustEnv → Text
crt_path x = x.state_dir ++ codes "/ca.crt"

abbrev pub installed : Ran → Ran
installed (ran, none) = (ran, none)
installed (ran, some e) =
    (ran, some (errorf "ca install: could not update the trust store automatically" []))

abbrev pub uninstalled : Ran → Ran
uninstalled (ran, none) = (ran, none)
uninstalled (ran, some e) = (ran, some (wrap "ca uninstall: %w" [] e))

-- After the confirmation: what is run if it was given.
abbrev pub if_confirmed : Result Bool → Ran → Ran
if_confirmed (failed e) act = ([], some e)
if_confirmed (ok false) act = ([], none)
if_confirmed (ok true) act = act

abbrev pub unless_error : Option Err → Ran → Ran
unless_error (some e) act = ([], some e)
unless_error none act = act

-- caInstall
unfoldable pub ca_install : TrustEnv → Ran
ca_install x = unless_error x.parse_error (
    unless_error x.load_error (if_confirmed (confirm x) (installed (trust_install x (crt_path x)))))

-- caUninstall
unfoldable pub ca_uninstall : TrustEnv → Ran
ca_uninstall x =
    unless_error x.parse_error
      (if_confirmed (confirm x) (uninstalled (trust_uninstall x (crt_path x))))

-- caPath; the path that it prints is that of the certificate.
unfoldable pub ca_path : TrustEnv → Result Text
ca_path x = elim x.parse_error [
  | some e ↦ failed e
  | none ↦ elim x.load_error [ some e ↦ failed e | none ↦ ok (crt_path x) ]
]

-- cmdCA: for `path` nothing is run.
abbrev pub path_ran : Result Text → Ran
path_ran (failed e) = ([], some e)
path_ran (ok path) = ([], none)

unfoldable pub cmd_ca : TrustEnv → List Text → Ran
cmd_ca x [] = ([], some (errorf "ca: expected subcommand: path | install | uninstall" []))
cmd_ca x (sub ∷ rest) =
    if text_eq sub (codes "path")
    then path_ran (ca_path x)
    else if text_eq sub (codes "install")
    then ca_install x
    else if text_eq sub (codes "uninstall")
    then ca_uninstall x
    else ([], some (errorf "ca: unknown subcommand %q" (sub ∷ [])))

-- ===== src/Cli/Trust/Confirmed.antt =====
-- The trust store of the system is not touched without a confirmation.
use go_portless.Common.{
  ◌≡◌, refl, ◌≢◌, ◌⊎◌, inl, inr, Bool, true, false, Option, none, some, List, [], ◌∷◌, arith, Text,
  codes, text_eq, text_eq_iff, to_lower, trim_space, Bool-cases,
}
use go_portless.Errors.{Err}
use go_portless.Dial.{Result, ok, failed}
use go_portless.Cli.Trust.{
  TrustEnv, confirm, Ran, if_confirmed, unless_error, ca_install, ca_uninstall, ca_path, path_ran,
  cmd_ca, installed, uninstalled, trust_install, trust_uninstall, crt_path,
}

-- --yes was given, or someone at a terminal has typed y or yes, in any case of letters.
abbrev pub IsConfirmed : TrustEnv → Type 0
IsConfirmed x =
    (x.assume_yes ≡ true)
    ⊎ ((x.is_terminal ≡ true)
        × ((to_lower (trim_space x.line) ≡ codes "y")
            ⊎ (to_lower (trim_space x.line) ≡ codes "yes")))

confirm_yes : (x : TrustEnv) → confirm x ≡ ok true → IsConfirmed x
unfolding confirm
confirm_yes x h = elim (Bool-cases x.assume_yes) [
  | inl y ↦ inl y
  | inr n ↦ inr (
      ground (
        arith,
        text_eq_iff (to_lower (trim_space x.line)) (codes "y"),
        text_eq_iff (to_lower (trim_space x.line)) (codes "yes"),
      ))
]

if_confirmed-IsConfirmed :
    (x : TrustEnv) (r : Result Bool) (act : Ran)
    → confirm x ≡ r
    → (if_confirmed r act).0 ≢ []
    → IsConfirmed x
if_confirmed-IsConfirmed x (failed e) act c h = absurd (h refl)
if_confirmed-IsConfirmed x (ok false) act c h = absurd (h refl)
if_confirmed-IsConfirmed x (ok true) act c h = confirm_yes x c

unless_runs : (o : Option Err) (act : Ran) → (unless_error o act).0 ≢ [] → (o ≡ none) × (act.0 ≢ [])
unless_runs (some e) act h = absurd (h refl)
unless_runs none act h = (refl, h)

install-IsConfirmed :
    (x : TrustEnv)
    → (ca_install x).0 ≢ []
    → IsConfirmed x × (x.parse_error ≡ none) × (x.load_error ≡ none)
unfolding ca_install
install-IsConfirmed x h =
    let (p, h') = unless_runs x.parse_error _ h in
    let (l, h'') = unless_runs x.load_error _ h' in
    (
      if_confirmed-IsConfirmed x (confirm x) (installed (trust_install x (crt_path x))) refl h'',
      p,
      l,
    )

uninstall-IsConfirmed :
    (x : TrustEnv) → (ca_uninstall x).0 ≢ [] → IsConfirmed x × (x.parse_error ≡ none)
unfolding ca_uninstall
uninstall-IsConfirmed x h =
    let (p, h') = unless_runs x.parse_error _ h in
    (
      if_confirmed-IsConfirmed x (confirm x) (uninstalled (trust_uninstall x (crt_path x))) refl h',
      p,
    )

path_ran_none : (r : Result Text) → (path_ran r).0 ≡ []
path_ran_none (failed e) = refl
path_ran_none (ok path) = refl

-- No program is run, and so the system's trust store is not touched, without a confirmation. If any
-- subcommand of `portless ca` runs a program, the flags have been parsed, and --yes was among them or
-- someone at a terminal has answered y or yes; and the subcommand is `install`, and the authority has
-- been loaded, or `uninstall`.
pub cmd_ca-IsConfirmed :
    (x : TrustEnv) (sub : Text) (rest : List Text)
    → (cmd_ca x (sub ∷ rest)).0 ≢ []
    → IsConfirmed x
      × (x.parse_error ≡ none)
      × (((sub ≡ codes "install") × (x.load_error ≡ none)) ⊎ (sub ≡ codes "uninstall"))
unfolding cmd_ca
cmd_ca-IsConfirmed x sub rest h = elim (Bool-cases (text_eq sub (codes "path"))) [
  | inl path ↦ absurd (h (rw path (path_ran_none (ca_path x))))
  | inr other ↦ elim (Bool-cases (text_eq sub (codes "install"))) [
    | inl install ↦
        let (c, p, l) = install-IsConfirmed x (λ e. h (rw (other, install) e)) in
        (c, p, inl ((text_eq_iff sub (codes "install")).0 install, l))
    | inr third ↦ elim (Bool-cases (text_eq sub (codes "uninstall"))) [
      | inl uninstall ↦
          let (c, p) = uninstall-IsConfirmed x (λ e. h (rw (other, third, uninstall) e)) in
          (c, p, inr ((text_eq_iff sub (codes "uninstall")).0 uninstall))
      | inr unknown ↦ absurd (h (rw (other, third, unknown) refl))
    ]
  ]
]

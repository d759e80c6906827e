-- ===== src/Cli/Routing/Shorthand.antt =====
-- alias is short for `route add --tcp`.
use go_portless.Common.{
  inl, inr, Bool-cases, ◌≡◌, refl, sym, ◌∙◌, ap, true, false, Option, none, some, [], ◌∷◌, arith,
  Text, codes, text_eq, contains, ◌==◌,
}
use mathlib.Core.Option
use go_portless.Errors.{Err}
use go_portless.Dial.{ok}
use go_portless.Cli.{
  RouteFlags, starts_dash, is_bare, last_of, takes_value, is_flag_value, take_arg, split_loop,
  split_name, tcp_spec, route_spec,
}
use go_portless.Cli.Daemon.{flags_loop, parse_flags}
use go_portless.Cli.Routing.{
  RoutingEnv, spec_added, route_add, cmd_route, alias_parsed, alias_given, cmd_alias,
}

-- The flag --tcp alone.
abbrev pub tcp_flag : Text → RouteFlags
tcp_flag address = record { tcp = address; k8s_service = []; k8s_selector = []; k8s_namespace = [] }

-- How the flag library reads these arguments.
abbrev pub ReadsFlags : RoutingEnv → Text → Text → Type 0
ReadsFlags x name address =
    (x.flags (name ∷ address ∷ []) ≡ ok (name ∷ address ∷ []))
    × (x.flags (address ∷ []) ≡ ok (address ∷ []))
    × (x.flags [] ≡ ok [])
    × (x.add_flags (codes "--tcp" ∷ address ∷ []) ≡ ok (tcp_flag address))

split_tcp :
    (name address : Text)
    → is_bare name ≡ true
    → split_name (name ∷ codes "--tcp" ∷ address ∷ []) ≡ ok (name, codes "--tcp" ∷ address ∷ [])
unfolding split_name split_loop take_arg is_flag_value takes_value starts_dash last_of text_eq
    contains
split_tcp [] address h = absurd (ground arith)
split_tcp (c ∷ name) address h =
    let first : (c == b'-') ≡ false = ground arith in
    rw first (elim (Bool-cases (is_bare address)) [ inl b ↦ rw b refl | inr b ↦ rw b refl ])

alias_flags :
    (x : RoutingEnv) (name address : Text)
    → ReadsFlags x name address
    → parse_flags x.flags (name ∷ address ∷ []) ≡ some (ok (name ∷ address ∷ []))
unfolding parse_flags flags_loop
alias_flags x name address (two, one, zero, add) = rw (two, one, zero) refl

tcp_added :
    (x : RoutingEnv) (name address : Text) (o : Option Err)
    → x.daemon ≡ none
    → alias_parsed x name address o ≡ spec_added x (tcp_spec name (x.tcp_json address) o)
tcp_added x name address (some e) up = refl
tcp_added x name address none up = rw up refl

tcp_route_spec :
    (x : RoutingEnv) (name address : Text)
    → text_eq address [] ≡ false
    → route_spec x.parse x.tcp_json x.k8s_json name (tcp_flag address)
      ≡ tcp_spec name (x.tcp_json address) (x.parse address)
unfolding route_spec
tcp_route_spec x name address h = rw h refl

-- `portless alias NAME HOST:PORT` does what `portless route add NAME --tcp HOST:PORT` does, once the
-- daemon is up: the two make the same call of the control API, if any, and end with the same error.
-- The name is not empty and does not start with a dash, the address is not empty, and the flag
-- library takes the positional arguments as they are and reads --tcp.
pub cmd_alias-cmd_route :
    (x : RoutingEnv) (name address : Text)
    → is_bare name ≡ true
    → text_eq address [] ≡ false
    → x.daemon ≡ none
    → ReadsFlags x name address
    → cmd_alias x (name ∷ address ∷ [])
      ≡ some (cmd_route x (codes "add" ∷ name ∷ codes "--tcp" ∷ address ∷ []))
unfolding cmd_alias cmd_route route_add text_eq
cmd_alias-cmd_route x name address bare given up (two, one, zero, add) =
    ap (Option.map (alias_given x)) (alias_flags x name address (two, one, zero, add))
    ∙ ap some (
        tcp_added x name address (x.parse address) up
        ∙ sym (
            rw (split_tcp name address bare)
              (rw add (rw (tcp_route_spec x name address given) refl))))

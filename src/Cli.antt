-- ===== src/Cli.antt =====
-- cmd/portless/: how the command line is taken apart (cut of run.go, splitName of route.go), and the
-- spec that `route add` sends. The values of the flags, the JSON of a configuration and the answer
-- of ParseTCP are arguments.
pub mod Serve
pub mod Routing
pub mod Args
pub mod Daemon
pub mod Main
pub mod Trust
mod Tests
use go_portless.Common.{
  ◌+◌, ◌-◌, ◌/◌, Bool, false, not, ◌&&◌, ◌||◌, Option, none, some, List, [], ◌∷◌, ◌++◌, ◌==◌,
  if◌then◌else◌, Text, codes, text_eq, contains, cut_at,
}
use go_portless.Errors.{Err, errorf}
use go_portless.Dial.{Result, ok, failed}
use go_portless.Control.{RouteSpec}

-- cut: `none` is found = false.
abbrev pub onto_before : Text → Option (List Text × List Text) → Option (List Text × List Text)
onto_before a none = none
onto_before a (some (before, after)) = some (a ∷ before, after)

unfoldable pub cut : List Text → Text → Option (List Text × List Text)
cut [] sep = none
cut (a ∷ args) sep = if text_eq a sep then some ([], args) else onto_before a (cut args sep)

unfoldable pub starts_dash : Text → Bool
starts_dash [] = false
starts_dash (c ∷ s) = c == b'-'

unfoldable pub last_of : List Text → Option Text
last_of [] = none
last_of (a ∷ []) = some a
last_of (a ∷ b ∷ rest) = last_of (b ∷ rest)

-- A flag that a value follows.
unfoldable pub takes_value : Text → Bool
takes_value flag =
    starts_dash flag
    && not (contains b'=' flag)
    && not (text_eq flag (codes "--json") || text_eq flag (codes "-json"))

abbrev pub last_takes_value : Option Text → Bool
last_takes_value none = false
last_takes_value (some flag) = takes_value flag

-- isFlagValue
unfoldable pub is_flag_value : List Text → Bool
is_flag_value flags = last_takes_value (last_of flags)

-- One round of the loop of splitName: the name so far, and the flags.
abbrev pub is_bare : Text → Bool
is_bare a = not (text_eq a []) && not (starts_dash a)

unfoldable pub take_arg : Text → List Text → Text → Text × List Text
take_arg name flags a =
    if is_bare a && text_eq name [] && not (is_flag_value flags)
    then (a, flags)
    else (name, flags ++ a ∷ [])

unfoldable pub split_loop : List Text → Text × List Text → Text × List Text
split_loop [] s = s
split_loop (a ∷ args) (name, flags) = split_loop args (take_arg name flags a)

abbrev pub named : Text × List Text → Result (Text × List Text)
named ([], flags) = failed (errorf "route: NAME argument required" [])
named (c ∷ name, flags) = ok (c ∷ name, flags)

-- splitName
unfoldable pub split_name : List Text → Result (Text × List Text)
split_name args = named (split_loop args ([], []))

-- The flags of `route add`, those that are not given empty.
pub record RouteFlags : Type 0 where
  pub tcp : Text
  pub k8s_service : Text
  pub k8s_selector : Text
  pub k8s_namespace : Text

-- The configuration of a k8s route, as far as `route add` chooses it.
pub record K8sConfig : Type 0 where
  pub namespace : Text
  pub service : Text
  pub selector : Text

abbrev pub tcp_spec : Text → Text → Option Err → Result RouteSpec
tcp_spec name config (some e) = failed e
tcp_spec name config none = ok (record { name = name; kind = codes "tcp"; config = config })

abbrev pub k8s_spec : Text → Text → Result RouteSpec
k8s_spec name config = ok (record { name = name; kind = codes "k8s"; config = config })

abbrev pub service_spec : Text → (K8sConfig → Text) → Option (Text × Text) → Result RouteSpec
service_spec name json none = failed (errorf "route add: --k8s-service must be NS/NAME" [])
service_spec name json (some (namespace, service)) =
    k8s_spec name (json (record { namespace = namespace; service = service; selector = [] }))

-- The spec of routeAdd, where `parse` is the error of ParseTCP and the two functions make JSON.
unfoldable pub route_spec :
    (Text → Option Err) → (Text → Text) → (K8sConfig → Text) → Text → RouteFlags → Result RouteSpec
route_spec parse tcp_json k8s_json name fs =
    if not (text_eq fs.tcp [])
    then tcp_spec name (tcp_json fs.tcp) (parse fs.tcp)
    else if not (text_eq fs.k8s_service [])
    then service_spec name k8s_json (cut_at b'/' fs.k8s_service)
    else if not (text_eq fs.k8s_selector [])
    then if text_eq fs.k8s_namespace []
      then failed (errorf "route add: --k8s-selector requires --k8s-namespace" [])
      else k8s_spec name (
          k8s_json
            (record { namespace = fs.k8s_namespace; service = []; selector = fs.k8s_selector }))
    else failed (
        errorf "route add: a backend flag is required (--tcp, --k8s-service, or --k8s-selector)" [])

-- ===== src/K8s/Resolve.antt =====
-- k8s/resolve.go: from the options of a port forward to a pod and a port of it. The cluster's API
-- is a parameter: what it answers for a pod, a service and a label selector.
pub mod Targets
mod Tests
use go_portless.Common.{
  ◌/◌, ◌%◌, Bool, true, false, not, ◌&&◌, Option, none, some, List, [], ◌∷◌, if◌then◌else◌, length,
  Text, text_eq, Dict,
}
use Prim.Native.String.{String}
use go_portless.Errors.{Err, errorf, wrap, wrap_two, sentinel, target_not_found}
use go_portless.Net.{ℤ, pos, itoa}
use go_portless.Dial.{Result, ok, failed}
use go_portless.K8s.Cluster.{
  IntOrString, Pod, ServicePort, Service, Api, pod_ready, is_unset, container_port, int_port,
}

pub record Options : Type 0 where
  pub namespace : Text
  pub service : Text
  pub selector : Text
  pub pod : Text
  pub target_port : IntOrString
  pub has_target : Bool

pub record Target : Type 0 where
  pub namespace : Text
  pub pod : Text
  pub container_port : ℤ

abbrev pub Apply : Type 0
Apply = Options → Options

abbrev pub no_options : Options
no_options = record {
  namespace = [];
  service = [];
  selector = [];
  pod = [];
  target_port = int_port (pos 0);
  has_target = false;
}

-- The options Service, LabelSelector, Pod and TargetPort, and what PortForward makes of them.
unfoldable pub with_service : Text → Text → Apply
with_service namespace name o = record o { namespace = namespace; service = name }

unfoldable pub with_selector : Text → Text → Apply
with_selector namespace selector o = record o { namespace = namespace; selector = selector }

unfoldable pub with_pod : Text → Text → Apply
with_pod namespace name o = record o { namespace = namespace; pod = name }

unfoldable pub with_target_port : IntOrString → Apply
with_target_port p o = record o { target_port = p; has_target = true }

unfoldable pub apply_options : List Apply → Options → Options
apply_options [] o = o
apply_options (f ∷ fs) o = apply_options fs (f o)

unfoldable pub port_forward_options : List Apply → Result Options
port_forward_options fs =
    let o = apply_options fs no_options in
    if text_eq o.namespace []
    then failed (errorf "k8s: namespace is required" [])
    else if text_eq o.service [] && text_eq o.selector [] && text_eq o.pod []
    then failed (errorf "k8s: one of Service, LabelSelector, or Pod is required" [])
    else ok o

abbrev pub on_port : Pod → Result ℤ → Result Target
on_port pod (failed e) = failed e
on_port pod (ok port) =
    ok (record { namespace = pod.namespace; pod = pod.name; container_port = port })

-- The loop of resolveSelector: the first ready pod is taken.
unfoldable pub first_ready : IntOrString → Bool → List Pod → Option (Result Target)
first_ready tp infer [] = none
first_ready tp infer (pod ∷ pods) =
    if pod_ready pod
    then some (on_port pod (container_port pod tp infer))
    else first_ready tp infer pods

abbrev pub unless_found : Text → Text → List Pod → Option (Result Target) → Result Target
unless_found namespace selector pods (some r) = r
unless_found namespace selector [] none = failed (
    wrap "%w: no pod matches selector %q in %q" (selector ∷ namespace ∷ [])
      (sentinel target_not_found))
unless_found namespace selector (p ∷ pods) none =
    failed (errorf "no ready pod for selector %q in %q" (selector ∷ namespace ∷ []))

abbrev pub among : Text → Text → IntOrString → Bool → Result (List Pod) → Result Target
among namespace selector tp infer (failed e) = failed e
among namespace selector tp infer (ok pods) =
    unless_found namespace selector pods (first_ready tp infer pods)

-- Kubernetes defaults a target port that is unset to the service's port.
unfoldable pub service_port : ServicePort → IntOrString
service_port p = if is_unset p.target_port then int_port p.port else p.target_port

abbrev pub only_port : Service → List ServicePort → Result IntOrString
only_port svc (p ∷ []) = ok (service_port p)
only_port svc ps =
    failed (
      errorf "service %q has %d ports; specify TargetPort" (svc.name ∷ itoa (pos (length ps)) ∷ []))

module _ (api : Api) where
  unfoldable pub resolve_selector : Options → Text → IntOrString → Bool → Result Target
  resolve_selector o [] tp infer = failed (errorf "empty label selector" [])
  resolve_selector o (c ∷ s) tp infer =
      among o.namespace (c ∷ s) tp infer (api.list_pods o.namespace (c ∷ s))

  -- An error of the API that says that the object does not exist is marked as such.
  unfoldable pub not_found : String → Options → Text → Err → Err
  not_found format o name e =
      if api.is_not_found e
      then wrap_two format (o.namespace ∷ name ∷ []) (sentinel target_not_found) e
      else e

  abbrev pub pod_found : Options → Result Pod → Result Target
  pod_found o (failed e) = failed (not_found "%w: pod %s/%s: %w" o o.pod e)
  pod_found o (ok pod) =
      if pod_ready pod
      then on_port pod (container_port pod o.target_port (not o.has_target))
      else failed (errorf "pod %q not ready" (pod.name ∷ []))

  unfoldable pub resolve_pod : Options → Result Target
  resolve_pod o = pod_found o (api.get_pod o.namespace o.pod)

  abbrev pub port_found : Options → Service → Result IntOrString → Result Target
  port_found o svc (failed e) = failed e
  port_found o svc (ok tp) = resolve_selector o (api.format_selector svc.selector) tp false

  abbrev pub selected : Options → Service → Dict Text → Result Target
  selected o svc [] = failed (errorf "service %q has no selector" (svc.name ∷ []))
  selected o svc (l ∷ ls) =
      port_found o svc (if o.has_target then ok o.target_port else only_port svc svc.ports)

  abbrev pub service_found : Options → Result Service → Result Target
  service_found o (failed e) = failed (not_found "%w: service %s/%s: %w" o o.service e)
  service_found o (ok svc) = selected o svc svc.selector

  unfoldable pub resolve_service : Options → Result Target
  resolve_service o = service_found o (api.get_service o.namespace o.service)

  unfoldable pub resolve : Options → Result Target
  resolve o =
      if not (text_eq o.pod [])
      then resolve_pod o
      else if not (text_eq o.service [])
      then resolve_service o
      else resolve_selector o o.selector o.target_port (not o.has_target)

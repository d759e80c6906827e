-- ===== src/K8s/Cluster.antt =====
-- The objects of a cluster as k8s/resolve.go reads them, the API as a record of functions, and what
-- a pod tells of itself: whether it is ready, and its ports.
use go_portless.Common.{
  Bool, false, ◌&&◌, Option, none, some, List, [], ◌∷◌, ◌++◌, if◌then◌else◌, length, Text, codes,
  text_eq, Dict,
}
use go_portless.Errors.{Err, errorf}
use go_portless.Net.{ℤ, pos, int_eq, itoa}
use go_portless.Dial.{Result, ok, failed}

-- intstr.IntOrString
pub data IntOrString : Type 0 where
  int_port : ℤ → IntOrString
  string_port : Text → IntOrString

pub record ContainerPort : Type 0 where
  pub name : Text
  pub container_port : ℤ

pub record Container : Type 0 where
  pub ports : List ContainerPort
  pub restart_policy : Option Text

-- A condition is its type and its status.
pub record Pod : Type 0 where
  pub namespace : Text
  pub name : Text
  pub phase : Text
  pub conditions : List (Text × Text)
  pub init_containers : List Container
  pub containers : List Container

pub record ServicePort : Type 0 where
  pub port : ℤ
  pub target_port : IntOrString

pub record Service : Type 0 where
  pub name : Text
  pub selector : Dict Text
  pub ports : List ServicePort

-- The API client, with apierrors.IsNotFound and metav1.FormatLabelSelector.
pub record Api : Type 0 where
  pub get_pod : Text → Text → Result Pod
  pub get_service : Text → Text → Result Service
  pub list_pods : Text → Text → Result (List Pod)
  pub is_not_found : Err → Bool
  pub format_selector : Dict Text → Text

-- podReady: the first Ready condition decides.
unfoldable pub ready_condition : List (Text × Text) → Bool
ready_condition [] = false
ready_condition ((kind, status) ∷ cs) =
    if text_eq kind (codes "Ready") then text_eq status (codes "True") else ready_condition cs

unfoldable pub pod_ready : Pod → Bool
pod_ready pod = text_eq pod.phase (codes "Running") && ready_condition pod.conditions

-- servingContainers
abbrev pub restarts_always : Option Text → Bool
restarts_always none = false
restarts_always (some policy) = text_eq policy (codes "Always")

unfoldable pub sidecars : List Container → List Container
sidecars [] = []
sidecars (c ∷ cs) = if restarts_always c.restart_policy then c ∷ sidecars cs else sidecars cs

unfoldable pub serving_containers : Pod → List Container
serving_containers pod = sidecars pod.init_containers ++ pod.containers

-- The ports of containers, in the order of their loops.
unfoldable pub ports_of : List Container → List ContainerPort
ports_of [] = []
ports_of (c ∷ cs) = c.ports ++ ports_of cs

unfoldable pub inferred_port : Pod → List ContainerPort → Result ℤ
inferred_port pod (p ∷ []) = ok p.container_port
inferred_port pod ps = failed (
    errorf "pod %q declares %d container ports; specify TargetPort"
      (pod.name ∷ itoa (pos (length ps)) ∷ []))

unfoldable pub inferred_container_port : Pod → Result ℤ
inferred_container_port pod = inferred_port pod (ports_of (serving_containers pod))

unfoldable pub is_unset : IntOrString → Bool
is_unset (int_port n) = int_eq n (pos 0)
is_unset (string_port s) = text_eq s []

unfoldable pub named_port : Pod → Text → List ContainerPort → Result ℤ
named_port pod name [] = failed (errorf "named port %q not found in pod %q" (name ∷ pod.name ∷ []))
named_port pod name (p ∷ ps) =
    if text_eq p.name name then ok p.container_port else named_port pod name ps

abbrev pub set_port : Pod → IntOrString → Result ℤ
set_port pod (int_port n) = ok n
set_port pod (string_port name) = named_port pod name (ports_of (serving_containers pod))

-- containerPort
unfoldable pub container_port : Pod → IntOrString → Bool → Result ℤ
container_port pod tp infer =
    if is_unset tp
    then if infer
      then inferred_container_port pod
      else failed (errorf "target port is unset for pod %q" (pod.name ∷ []))
    else set_port pod tp

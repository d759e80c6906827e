-- ===== src/K8s/Resolve/Tests.antt =====
-- Resolving at concrete clusters.
use go_portless.Common.{◌≡◌, refl, ◌↔◌, true, false, none, List, [], ◌∷◌, arith, Text, codes}
use go_portless.Errors.{errorf}
use go_portless.Net.{pos}
use go_portless.Dial.{ok, failed}
use go_portless.K8s.Cluster.{Api, Pod, string_port}
use go_portless.K8s.Resolve.{Target, no_options, resolve_selector}
use go_portless.K8s.Resolve.Targets.{IsTarget, resolve_selector_iff}

abbrev pod : Text → Text → Pod
pod name ready = record {
  namespace = codes "test";
  name = name;
  phase = codes "Running";
  conditions = (codes "Ready", ready) ∷ [];
  init_containers = [];
  containers =
      record {
        ports = record { name = codes "http"; container_port = pos 8080 } ∷ [];
        restart_policy = none;
      }
      ∷ [];
}

-- A pod that warms up, then a ready one.
abbrev pods : List Pod
pods = pod (codes "old") (codes "False") ∷ pod (codes "new") (codes "True") ∷ []

abbrev cluster : List Pod → Api
cluster ps = record {
  get_pod = λ namespace name. failed (errorf "no pod" []);
  get_service = λ namespace name. failed (errorf "no service" []);
  list_pods = λ namespace selector. ok ps;
  is_not_found = λ e. true;
  format_selector = λ labels. codes "app=web";
}

abbrev fresh : Target
fresh = record { namespace = codes "test"; pod = codes "new"; container_port = pos 8080 }

resolve_selector_iff_example :
    (resolve_selector (cluster pods) no_options (codes "app=web") (string_port (codes "http")) false
      ≡ ok fresh)
    ↔ IsTarget (string_port (codes "http")) false pods fresh
resolve_selector_iff_example =
    resolve_selector_iff (cluster pods) no_options (codes "app=web") (string_port (codes "http"))
      false pods fresh (λ e. ground arith) refl

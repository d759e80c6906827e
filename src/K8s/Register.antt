-- ===== src/K8s/Register.antt =====
-- k8s/register.go: the "k8s" backend type, from the JSON configuration of a route to the options of
-- its port forward. What the JSON decoder, the kubeconfig loader and intstr.Parse answer are
-- arguments.
use go_portless.Common.{
  ◌≡◌, refl, inl, inr, Bool-cases, Bool, true, false, not, ◌&&◌, Option, none, some, List, [], ◌∷◌,
  ◌++◌, arith, if◌then◌else◌, Text, text_eq,
}
use go_portless.Errors.{Err, errorf, wrap}
use go_portless.Dial.{Result, ok, failed}
use go_portless.K8s.Cluster.{IntOrString}
use go_portless.K8s.Resolve.{
  Options, Apply, with_service, with_selector, with_pod, with_target_port, apply_options,
  no_options, port_forward_options,
}

-- Config
pub record Config : Type 0 where
  pub kubeconfig : Text
  pub namespace : Text
  pub service : Text
  pub selector : Text
  pub pod : Text
  pub target_port : Text

unfoldable pub target_options : Config → Result (List Apply)
target_options c =
    if not (text_eq c.service [])
    then ok (with_service c.namespace c.service ∷ [])
    else if not (text_eq c.selector [])
    then ok (with_selector c.namespace c.selector ∷ [])
    else if not (text_eq c.pod [])
    then ok (with_pod c.namespace c.pod ∷ [])
    else failed (errorf "k8s config: one of service, selector, or pod is required" [])

unfoldable pub port_options : (Text → IntOrString) → Text → List Apply
port_options parse [] = []
port_options parse (b ∷ s) = with_target_port (parse (b ∷ s)) ∷ []

abbrev pub forwarded : (Text → IntOrString) → Config → Result (List Apply) → Result Options
forwarded parse c (failed e) = failed e
forwarded parse c (ok fs) = port_forward_options (fs ++ port_options parse c.target_port)

abbrev pub cluster_loaded : (Text → IntOrString) → Config → Option Err → Result Options
cluster_loaded parse c (some e) = failed (wrap "k8s: load kubeconfig: %w" [] e)
cluster_loaded parse c none = forwarded parse c (target_options c)

abbrev pub decoded : (Text → Option Err) → (Text → IntOrString) → Result Config → Result Options
decoded load parse (failed e) = failed (wrap "k8s config: %w" [] e)
decoded load parse (ok c) = cluster_loaded parse c (load c.kubeconfig)

-- The factory that Register registers, up to the options that PortForward checks.
unfoldable pub k8s_factory :
    (Text → Result Config) → (Text → Option Err) → (Text → IntOrString) → Text → Result Options
k8s_factory decode load parse raw = decoded load parse (decode raw)

-- What the port of the configuration asks for.
abbrev pub asked : (Text → IntOrString) → Options → Text → Options
asked parse o [] = o
asked parse o (b ∷ s) = record o { target_port = parse (b ∷ s); has_target = true }

-- The options of a configuration, by the first of service, selector and pod that is set.
abbrev pub options_of : Config → Options
options_of c =
    if not (text_eq c.service [])
    then record no_options { namespace = c.namespace; service = c.service }
    else if not (text_eq c.selector [])
    then record no_options { namespace = c.namespace; selector = c.selector }
    else record no_options { namespace = c.namespace; pod = c.pod }

-- A configuration names a target if one of service, selector and pod is set.
abbrev pub names_target : Config → Bool
names_target c = not (text_eq c.service [] && text_eq c.selector [] && text_eq c.pod [])

forwarded_port :
    (parse : Text → IntOrString) (c : Config) (f : Apply) (o : Options) (port : Text)
    → f no_options ≡ o
    → apply_options (f ∷ [] ++ port_options parse port) no_options ≡ asked parse o port
unfolding apply_options port_options with_target_port
forwarded_port parse c f o [] e = e
forwarded_port parse c f o (b ∷ s) e = rw e refl

accepts :
    (parse : Text → IntOrString) (o : Options) (port : Text)
    → text_eq o.namespace [] ≡ false
    → (text_eq o.service [] && text_eq o.selector [] && text_eq o.pod []) ≡ false
    → (fs : List Apply) → apply_options fs no_options ≡ asked parse o port
    → port_forward_options fs ≡ ok (asked parse o port)
unfolding port_forward_options
accepts parse o [] n t fs e = ground arith
accepts parse o (b ∷ s) n t fs e = ground arith

target_forwarded :
    (parse : Text → IntOrString) (c : Config) (f : Apply) (o : Options)
    → f no_options ≡ o
    → text_eq o.namespace [] ≡ false
    → (text_eq o.service [] && text_eq o.selector [] && text_eq o.pod []) ≡ false
    → forwarded parse c (ok (f ∷ [])) ≡ ok (asked parse o c.target_port)
target_forwarded parse c f o e n t =
    accepts parse o c.target_port n t (f ∷ [] ++ port_options parse c.target_port)
      (forwarded_port parse c f o c.target_port e)

forwarded-options_of :
    (parse : Text → IntOrString) (c : Config)
    → text_eq c.namespace [] ≡ false
    → names_target c ≡ true
    → forwarded parse c (target_options c) ≡ ok (asked parse (options_of c) c.target_port)
unfolding target_options with_service with_selector with_pod text_eq
forwarded-options_of parse c n t = elim (Bool-cases (text_eq c.service [])) [
  | inr s ↦ rw s (target_forwarded parse c _ _ refl n (ground arith))
  | inl s ↦ elim (Bool-cases (text_eq c.selector [])) [
    | inr l ↦ rw (s, l) (target_forwarded parse c _ _ refl n (ground arith))
    | inl l ↦ elim (Bool-cases (text_eq c.pod [])) [
      | inr p ↦ rw (s, l, p) (target_forwarded parse c _ _ refl n (ground arith))
      | inl p ↦ absurd (ground arith)
    ]
  ]
]

-- A configuration that is decoded, whose cluster's configuration loads, and that has a namespace and
-- names a target, is accepted, and the port forward then has that namespace, the first of service,
-- selector and pod that is set, no other, and the target port if one is given.
pub k8s_factory-options_of :
    (decode : Text → Result Config) (load : Text → Option Err) (parse : Text → IntOrString)
    (raw : Text) (c : Config)
    → decode raw ≡ ok c
    → load c.kubeconfig ≡ none
    → text_eq c.namespace [] ≡ false
    → names_target c ≡ true
    → k8s_factory decode load parse raw ≡ ok (asked parse (options_of c) c.target_port)
unfolding k8s_factory
k8s_factory-options_of decode load parse raw c d l n t =
    rw d (rw l (forwarded-options_of parse c n t))

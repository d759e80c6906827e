-- ===== src/K8s/Resolve/Targets.antt =====
-- What resolve promises of a target, and of its errors.
use go_portless.Common.{
  ◌≡◌, refl, sym, ap, ◌∙◌, subst, ◌≢◌, ◌↔◌, ◌⊎◌, inl, inr, Bool, true, false, Option, none, some,
  List, [], ◌∷◌, if◌then◌else◌, Bool-cases, Text, text_eq,
}
use mathlib.Core.Option.{some-injective}
use go_portless.Errors.{Sentinel, is, same, tag, errorf, target_not_found}
use go_portless.Net.{ℤ}
use go_portless.Dial.{Result, ok, failed}
use go_portless.K8s.Cluster.{
  IntOrString, int_port, string_port, ContainerPort, Pod, Api, pod_ready, inferred_port,
  inferred_container_port, is_unset, named_port, set_port, container_port,
}
use go_portless.K8s.Resolve.{
  Options, Target, on_port, first_ready, unless_found, among, resolve_selector,
}

abbrev pub failed_with : {A : Type 0} → Sentinel → Result A → Bool
failed_with s (ok a) = false
failed_with s (failed e) = is s e

-- The pods before this one are not ready, and this one is.
abbrev pub IsFirstReady : List Pod → Pod → Type 0
IsFirstReady [] pod = ⊥
IsFirstReady (p ∷ ps) pod =
    ((pod_ready p ≡ true) × (p ≡ pod)) ⊎ ((pod_ready p ≡ false) × IsFirstReady ps pod)

-- What a resolved target is: the first ready pod of the list, by its namespace and its name, and
-- the port that containerPort finds for it.
abbrev pub IsTarget : IntOrString → Bool → List Pod → Target → Type 0
IsTarget tp infer pods t =
    (pod : Pod) × IsFirstReady pods pod
    × ((t.namespace ≡ pod.namespace)
        × (t.pod ≡ pod.name)
        × (container_port pod tp infer ≡ ok t.container_port))

inferred_port-not_found :
    (pod : Pod) (ps : List ContainerPort)
    → failed_with target_not_found (inferred_port pod ps) ≡ false
unfolding inferred_port is
inferred_port-not_found pod [] = refl
inferred_port-not_found pod (p ∷ []) = refl
inferred_port-not_found pod (p ∷ q ∷ ps) = refl

named_port-not_found :
    (pod : Pod) (name : Text) (ps : List ContainerPort)
    → failed_with target_not_found (named_port pod name ps) ≡ false
unfolding named_port is
named_port-not_found pod name [] = refl
named_port-not_found pod name (p ∷ ps) = elim (Bool-cases (text_eq p.name name)) [
  | inl e ↦ rw e refl
  | inr e ↦ rw e (named_port-not_found pod name ps)
]

set_port-not_found :
    (pod : Pod) (tp : IntOrString) → failed_with target_not_found (set_port pod tp) ≡ false
set_port-not_found pod (int_port n) = refl
set_port-not_found pod (string_port s) = named_port-not_found pod s _

unset-not_found :
    (pod : Pod) (infer : Bool)
    → failed_with target_not_found (
        if◌then◌else◌ {A = Result ℤ} infer
          (inferred_container_port pod)
          (failed (errorf "target port is unset for pod %q" (pod.name ∷ []))))
      ≡ false
unfolding inferred_container_port is
unset-not_found pod true = inferred_port-not_found pod _
unset-not_found pod false = refl

container_port-not_found :
    (pod : Pod) (tp : IntOrString) (infer : Bool)
    → failed_with target_not_found (container_port pod tp infer) ≡ false
unfolding container_port
container_port-not_found pod tp infer = elim (Bool-cases (is_unset tp)) [
  | inl e ↦ rw e (unset-not_found pod infer)
  | inr e ↦ rw e (set_port-not_found pod tp)
]

on_port-not_found :
    (pod : Pod) (r : Result ℤ)
    → failed_with target_not_found (on_port pod r) ≡ failed_with target_not_found r
on_port-not_found pod (ok p) = refl
on_port-not_found pod (failed e) = refl

on_port-ok :
    (pod : Pod) (r : Result ℤ) (t : Target)
    → on_port pod r ≡ ok t
    → (t.namespace ≡ pod.namespace) × (t.pod ≡ pod.name) × (r ≡ ok t.container_port)
on_port-ok pod (failed e) t h = absurd (cc)
on_port-ok pod (ok port) t h =
    let same_target : record { namespace = pod.namespace; pod = pod.name; container_port = port }
        ≡ t =
      cc in
    (
      ap Target.namespace (sym same_target),
      ap Target.pod (sym same_target),
      ap ok (ap Target.container_port same_target),
    )

on_port-made :
    (pod : Pod) (r : Result ℤ) (t : Target)
    → (t.namespace ≡ pod.namespace) × (t.pod ≡ pod.name) × (r ≡ ok t.container_port)
    → on_port pod r ≡ ok t
on_port-made pod r t (n, p, c) = rw (c, sym n, sym p) refl

ready_made :
    (tp : IntOrString) (infer : Bool) (p : Pod) (ps : List Pod) (t : Target)
    → pod_ready p ≡ true
    → IsTarget tp infer (p ∷ ps) t
    → some (on_port p (container_port p tp infer)) ≡ some (ok t)
ready_made tp infer p ps t ready (pod, inl (r, e), h) = ap some (
    on_port-made p _ t (
      subst
        (λ q.
          (t.namespace ≡ q.namespace)
          × (t.pod ≡ q.name)
          × (container_port q tp infer ≡ ok t.container_port))
        (sym e) h))
ready_made tp infer p ps t ready (pod, inr (r, e), h) = absurd (cc)

warming_next :
    (tp : IntOrString) (infer : Bool) (p : Pod) (ps : List Pod) (t : Target)
    → pod_ready p ≡ false
    → IsTarget tp infer (p ∷ ps) t
    → IsTarget tp infer ps t
warming_next tp infer p ps t warming (pod, inl (r, e), h) = absurd (cc)
warming_next tp infer p ps t warming (pod, inr (r, first), h) = (pod, first, h)

no_target :
    (tp : IntOrString) (infer : Bool) (t : Target) → IsTarget tp infer [] t → none ≡ some (ok t)
no_target tp infer t (pod, impossible, h) = absurd impossible

first_ready_in :
    (b : Bool) (tp : IntOrString) (infer : Bool) (p : Pod) (ps : List Pod) (t : Target)
    → pod_ready p ≡ b
    → ((first_ready tp infer ps ≡ some (ok t)) ↔ IsTarget tp infer ps t)
    → ((if b then some (on_port p (container_port p tp infer)) else first_ready tp infer ps)
        ≡ some (ok t))
      ↔ IsTarget tp infer (p ∷ ps) t
first_ready_in true tp infer p ps t ready (f, g) = (
  (λ h. (p, inl (ready, refl), on_port-ok p _ t (some-injective _ _ h))),
  ready_made tp infer p ps t ready,
)
first_ready_in false tp infer p ps t ready (f, g) = (
  (λ h. let (pod, first, rest) = f h in (pod, inr (ready, first), rest)),
  (λ h. g (warming_next tp infer p ps t ready h)),
)

first_ready-IsTarget :
    (tp : IntOrString) (infer : Bool) (pods : List Pod) (t : Target)
    → (first_ready tp infer pods ≡ some (ok t)) ↔ IsTarget tp infer pods t
unfolding first_ready
first_ready-IsTarget tp infer [] t = ((λ e. absurd (cc)), no_target tp infer t)
first_ready-IsTarget tp infer (p ∷ ps) t =
    first_ready_in (pod_ready p) tp infer p ps t refl (first_ready-IsTarget tp infer ps t)

unless_found-ok :
    (namespace selector : Text) (pods : List Pod) (found : Option (Result Target)) (t : Target)
    → (unless_found namespace selector pods found ≡ ok t) ↔ (found ≡ some (ok t))
unless_found-ok namespace selector pods (some r) t = ((λ e. ap some e), (λ e. some-injective _ _ e))
unless_found-ok namespace selector [] none t = ((λ e. absurd (cc)), (λ e. absurd (cc)))
unless_found-ok namespace selector (p ∷ ps) none t = ((λ e. absurd (cc)), (λ e. absurd (cc)))

-- Whether what is found is the error of an absent target; nothing found is not.
abbrev found_absent : Option (Result Target) → Bool
found_absent none = false
found_absent (some r) = failed_with target_not_found r

first_ready-not_found :
    (tp : IntOrString) (infer : Bool) (pods : List Pod)
    → found_absent (first_ready tp infer pods) ≡ false
unfolding first_ready
first_ready-not_found tp infer [] = refl
first_ready-not_found tp infer (p ∷ ps) = elim (Bool-cases (pod_ready p)) [
  | inl e ↦
      rw e (on_port-not_found p (container_port p tp infer) ∙ container_port-not_found p tp infer)
  | inr e ↦ rw e (first_ready-not_found tp infer ps)
]

unless_found-not_found :
    (namespace selector : Text) (p : Pod) (ps : List Pod) (found : Option (Result Target))
    → failed_with target_not_found (unless_found namespace selector (p ∷ ps) found)
      ≡ found_absent found
unfolding is
unless_found-not_found namespace selector p ps none = refl
unless_found-not_found namespace selector p ps (some r) = refl

among-not_found :
    (namespace selector : Text) (tp : IntOrString) (infer : Bool) (pods : List Pod)
    → (failed_with target_not_found (among namespace selector tp infer (ok pods)) ≡ true)
      ↔ (pods ≡ [])
unfolding is first_ready same tag
among-not_found namespace selector tp infer [] = ((λ e. refl), (λ e. refl))
among-not_found namespace selector tp infer (p ∷ ps) =
    let never =
      unless_found-not_found namespace selector p ps (first_ready tp infer (p ∷ ps))
      ∙ first_ready-not_found tp infer (p ∷ ps) in
    ((λ e. absurd (cc)), (λ e. absurd (cc)))

↔-trans : {A B C : Type 0} → A ↔ B → B ↔ C → A ↔ C
↔-trans (f, f') (g, g') = ((λ a. g (f a)), (λ c. f' (g' c)))

module _ (api : Api) where
  -- For a selector that is not empty and for which the API lists these pods, resolveSelector
  -- answers a target exactly if it is the first pod of the list that is ready, by namespace and
  -- name, with the port that containerPort finds for it.
  pub resolve_selector_iff :
      (o : Options) (selector : Text) (tp : IntOrString) (infer : Bool) (pods : List Pod)
      (t : Target)
      → selector ≢ []
      → api.list_pods o.namespace selector ≡ ok pods
      → (resolve_selector api o selector tp infer ≡ ok t) ↔ IsTarget tp infer pods t
  unfolding resolve_selector
  resolve_selector_iff o [] tp infer pods t some_selector listed = absurd (some_selector refl)
  resolve_selector_iff o (c ∷ s) tp infer pods t some_selector listed = rw listed (
      ↔-trans (unless_found-ok o.namespace (c ∷ s) pods (first_ready tp infer pods) t)
        (first_ready-IsTarget tp infer pods t))

  -- For such a selector, the error is ErrTargetNotFound exactly if no pod is listed: a pod that
  -- exists and is not ready, or has no such port, is not reported as absent.
  pub target_not_found_iff :
      (o : Options) (selector : Text) (tp : IntOrString) (infer : Bool) (pods : List Pod)
      → selector ≢ []
      → api.list_pods o.namespace selector ≡ ok pods
      → (failed_with target_not_found (resolve_selector api o selector tp infer) ≡ true)
        ↔ (pods ≡ [])
  unfolding resolve_selector
  target_not_found_iff o [] tp infer pods some_selector listed = absurd (some_selector refl)
  target_not_found_iff o (c ∷ s) tp infer pods some_selector listed =
      rw listed (among-not_found o.namespace (c ∷ s) tp infer pods)

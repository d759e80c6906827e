-- ===== src/Registry/Lifecycle/Invariant.antt =====
-- What every step keeps: one Add at a time under a name, and every backend
-- accounted for.
use go_portless.Common.{
  ℕ, ◌+◌, ◌≤◌, ◌<◌, ◌≡◌, refl, inl, inr, Bool, true, false, Option, none, some, List, [], ◌∷◌, map,
  arith, ◌==◌, if◌then◌else◌, Bool-cases, Text, text_eq_iff, text_eq_refl, Dict, lookup, delete,
  lookup-delete, lookup-insert,
}
use go_portless.Dial.{Config}
use go_portless.Route.{Route}
use go_portless.Registry.{
  new_registry, published, published_routes, reserve_in, release_name, publish_in,
}
use go_portless.Registry.Ops.{take_in, shut}
use go_portless.Registry.Lifecycle.{
  Task, Sys, number_of, begun, start_failed, start_succeeded, concluded, removed, closed_down,
  stop_called, initial,
}
use go_portless.Registry.Lifecycle.Counts.{
  count, count-append, IsUnique, delete-IsUnique, insert-IsUnique, weight, reserved_weight,
  count_published, count_published-delete, count_published-insert, count_key, count_task,
  SameCounts,
}

module _ {E : Type 0} where
  -- While the registry is open, the Adds under way for a name are as many as its reservations,
  -- none or one; a closed registry holds no name; and each successful Start of a backend is
  -- matched by an Add that waits, a published route, an operation that must stop it, or a call of Stop.
  pub record Inv (s : Sys E) : Type 0 where
    pub unique : IsUnique s.reg.routes
    pub single :
        s.reg.closed ≡ false
        → (k : Text)
        → count_key k s.starting + count_key k s.waiting ≡ reserved_weight (lookup k s.reg.routes)
    pub empty : s.reg.closed ≡ true → s.reg.routes ≡ []
    pub balanced :
        (n : ℕ)
        → count n s.acquired
          ≡ count_task n s.waiting
            + count_published n s.reg.routes
            + count n s.doomed
            + count n s.stopped

  pub initial-Inv : (options : List (Config E → Config E)) → Inv (initial options)
  unfolding initial new_registry lookup published_routes
  initial-Inv options = record {
    unique = tt;
    single = λ h k. refl;
    empty = λ h. refl;
    balanced = λ n. refl;
  }

  pub begun-Inv :
      (b : Bool) (o : Option (Option (Route E))) (s : Sys E) (key name : Text) (rt : Route E)
      → s.reg.closed ≡ b
      → lookup key s.reg.routes ≡ o
      → Inv s
      → Inv (begun s key rt (reserve_in b o s.reg key name))
  begun-Inv true o s key name rt c f v = v
  begun-Inv false (some entry) s key name rt c f v = v
  begun-Inv false none s key name rt c f v = record {
    unique = insert-IsUnique key none s.reg.routes v.unique;
    single = λ h k.
        ground (arith, v.single c k, lookup-insert key k none s.reg.routes, text_eq_iff key k);
    empty = λ h. cc;
    balanced = λ n.
        let w : weight n (lookup key s.reg.routes) ≡ 0 = rw f in
        omega (arith, v.balanced n, count_published-insert n key none s.reg.routes v.unique, w);
  }

  pub reserved_weight-le : (o : Option (Option (Route E))) → reserved_weight o ≤ 1
  reserved_weight-le none = omega arith
  reserved_weight-le (some none) = omega arith
  reserved_weight-le (some (some rt)) = omega arith

  weight_of_reserved :
      (n : ℕ) (o : Option (Option (Route E))) → 0 < reserved_weight o → weight n o ≡ 0
  weight_of_reserved n none h = refl
  weight_of_reserved n (some none) h = refl
  weight_of_reserved n (some (some rt)) h = absurd (omega arith)

  -- A name with an Add under way has no published route.
  task_weight :
      (s : Sys E) (k : Text) (n : ℕ)
      → Inv s
      → 0 < count_key k s.starting + count_key k s.waiting
      → weight n (lookup k s.reg.routes) ≡ 0
  task_weight s k n v h = elim (Bool-cases s.reg.closed) [
    | inl shut_ ↦ rw (v.empty shut_) (unfold lookup in refl)
    | inr up ↦ weight_of_reserved n (lookup k s.reg.routes) (omega (arith, v.single up k, h))
  ]

  delete-empty : (k : Text) (m : Dict (Option (Route E))) → m ≡ [] → delete k m ≡ []
  delete-empty k m e = rw e (unfold delete in refl)

  pub start_failed-Inv :
      (s : Sys E) (t : Task E) (ts : List (Task E))
      → SameCounts s.starting (t ∷ ts)
      → Inv s
      → Inv (start_failed s (some (t, ts)))
  unfolding release_name
  start_failed-Inv s t ts (keys, tasks) v = record {
    unique = delete-IsUnique t.key s.reg.routes v.unique;
    single = λ h k. ground (
      arith,
      keys k,
      v.single h k,
      reserved_weight-le (lookup k s.reg.routes),
      lookup-delete t.key k s.reg.routes,
      text_eq_iff t.key k,
    );
    empty = λ h. delete-empty t.key s.reg.routes (v.empty h);
    balanced = λ n. omega (
      arith,
      v.balanced n,
      count_published-delete n t.key s.reg.routes v.unique,
      task_weight s t.key n v (ground (arith, keys t.key, text_eq_refl t.key)),
    );
  }

  pub start_succeeded-Inv :
      (s : Sys E) (t : Task E) (ts : List (Task E))
      → SameCounts s.starting (t ∷ ts)
      → Inv s
      → Inv (start_succeeded s (some (t, ts)))
  start_succeeded-Inv s t ts (keys, tasks) v = record {
    unique = v.unique;
    single = λ h k. omega (arith, keys k, v.single h k);
    empty = v.empty;
    balanced = λ n. omega (arith, v.balanced n);
  }

  pub concluded-Inv :
      (b : Bool) (s : Sys E) (t : Task E) (ts : List (Task E))
      → s.reg.closed ≡ b
      → SameCounts s.waiting (t ∷ ts)
      → Inv s
      → Inv (concluded s t ts (publish_in b s.reg t.key t.route))
  concluded-Inv true s t ts c (keys, tasks) v = record {
    unique = delete-IsUnique t.key s.reg.routes v.unique;
    single = λ h k. cc;
    empty = λ h. delete-empty t.key s.reg.routes (v.empty h);
    balanced = λ n. omega (
      arith,
      v.balanced n,
      tasks n,
      count_published-delete n t.key s.reg.routes v.unique,
      task_weight s t.key n v (ground (arith, keys t.key, text_eq_refl t.key)),
    );
  }
  concluded-Inv false s t ts c (keys, tasks) v = record {
    unique = insert-IsUnique t.key (some t.route) s.reg.routes v.unique;
    single = λ h k. ground (
      arith,
      keys k,
      v.single h k,
      reserved_weight-le (lookup k s.reg.routes),
      lookup-insert t.key k (some t.route) s.reg.routes,
      text_eq_iff t.key k,
    );
    empty = λ h. cc;
    balanced = λ n. omega (
      arith,
      v.balanced n,
      tasks n,
      count_published-insert n t.key (some t.route) s.reg.routes v.unique,
      task_weight s t.key n v (ground (arith, keys t.key, text_eq_refl t.key)),
    );
  }

  pub removed-Inv :
      (o : Option (Option (Route E))) (s : Sys E) (key : Text)
      → lookup key s.reg.routes ≡ o
      → Inv s
      → Inv (removed s (take_in (published o) s.reg key))
  removed-Inv none s key f v = v
  removed-Inv (some none) s key f v = v
  removed-Inv (some (some rt)) s key f v = record {
    unique = delete-IsUnique key s.reg.routes v.unique;
    single =
        λ h k. ground (arith, v.single h k, lookup-delete key k s.reg.routes, text_eq_iff key k);
    empty = λ h. delete-empty key s.reg.routes (v.empty h);
    balanced = λ n.
        let w : weight n (lookup key s.reg.routes) ≡ (if number_of rt == n then 1 else 0) = rw f in
        omega (arith, v.balanced n, count_published-delete n key s.reg.routes v.unique, w);
  }

  pub closed_down-Inv : (s : Sys E) → Inv s → Inv (closed_down s (shut s.reg))
  unfolding shut published_routes
  closed_down-Inv s v = record {
    unique = tt;
    single = λ h k. cc;
    empty = λ h. refl;
    balanced = λ n. omega (
      arith,
      v.balanced n,
      count-append n (map number_of (published_routes s.reg.routes)) s.doomed,
    );
  }

  pub stop_called-Inv :
      (o : Option (ℕ × List ℕ)) (s : Sys E)
      → ((m : ℕ) (ms : List ℕ) → o ≡ some (m, ms) → (n : ℕ) → count n s.doomed ≡ count n (m ∷ ms))
      → Inv s
      → Inv (stop_called s o)
  stop_called-Inv none s p v = v
  stop_called-Inv (some (m, ms)) s p v = record {
    unique = v.unique;
    single = v.single;
    empty = v.empty;
    balanced = λ n. omega (arith, v.balanced n, p m ms refl n);
  }

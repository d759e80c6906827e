-- ===== src/Registry/Lifecycle/Counts.antt =====
-- Counting backends and names in the map of routes and in the lists of tasks.
use go_portless.Common.{
  ℕ, zero, suc, ◌+◌, ◌≡◌, refl, ◌∙◌, subst, inl, inr, Option, none, some, List, [], ◌∷◌, ◌++◌, map,
  arith, ◌==◌, if◌then◌else◌, Bool-cases, Text, text_eq, text_eq_iff, text_eq_refl, Dict, lookup,
  delete, insert, lookup-delete,
}
use go_portless.Route.{Route}
use go_portless.Registry.{published_routes}
use mathlib.Core.Option.{some-injective}
use go_portless.Registry.Lifecycle.{Task, behind_number, pick_number, behind, pick, number_of}

abbrev pub count : ℕ → List ℕ → ℕ
count n [] = 0
count n (x ∷ xs) = (if x == n then 1 else 0) + count n xs

pub count-append : (n : ℕ) (xs ys : List ℕ) → count n (xs ++ ys) ≡ count n xs + count n ys
count-append n [] ys = omega arith
count-append n (x ∷ xs) ys = omega (arith, count-append n xs ys)

behind_number-count :
    (o : Option (ℕ × List ℕ)) (k : ℕ) (ns : List ℕ) (m : ℕ) (ms : List ℕ) (n : ℕ)
    → ((l : ℕ) (ls : List ℕ) → o ≡ some (l, ls) → count n ns ≡ count n (l ∷ ls))
    → behind_number k o ≡ some (m, ms)
    → count n (k ∷ ns) ≡ count n (m ∷ ms)
behind_number-count none k ns m ms n h e = cc
behind_number-count (some (l, ls)) k ns m ms n h e =
    subst (λ (q : ℕ × List ℕ). count n (k ∷ ns) ≡ count n (q.0 ∷ q.1)) (some-injective _ _ e)
      (omega (arith, h l ls refl))

-- Picking a number leaves the others.
pub pick_number-count :
    (i : ℕ) (ns : List ℕ) (m : ℕ) (ms : List ℕ)
    → pick_number i ns ≡ some (m, ms)
    → (n : ℕ) → count n ns ≡ count n (m ∷ ms)
unfolding pick_number
pick_number-count i [] m ms e n = cc
pick_number-count zero (k ∷ ns) m ms e n =
    subst (λ (q : ℕ × List ℕ). count n (k ∷ ns) ≡ count n (q.0 ∷ q.1)) (some-injective _ _ e) refl
pick_number-count (suc i) (k ∷ ns) m ms e n =
    behind_number-count (pick_number i ns) k ns m ms n (λ l ls q. pick_number-count i ns l ls q n) e

-- Every key once.
abbrev pub IsUnique {ℓ} : {V : Type ℓ} → Dict V → Type ℓ
IsUnique [] = Unit
IsUnique ((k, v) ∷ m) = (lookup k m ≡ none) × IsUnique m

module _ {ℓ} {V : Type ℓ} where
  pub delete-IsUnique : (k : Text) (m : Dict V) → IsUnique m → IsUnique (delete k m)
  unfolding delete
  delete-IsUnique k [] u = tt
  delete-IsUnique k ((j, v) ∷ m) (free, u) = elim (Bool-cases (text_eq j k)) [
    | inl hit ↦ rw hit (delete-IsUnique k m u)
    | inr miss ↦ rw miss (ground (arith, lookup-delete k j m), delete-IsUnique k m u)
  ]

  pub insert-IsUnique : (k : Text) (v : V) (m : Dict V) → IsUnique m → IsUnique (insert k v m)
  unfolding insert
  insert-IsUnique k v m u = (lookup-delete k k m ∙ rw (text_eq_refl k), delete-IsUnique k m u)

module _ {E : Type 0} where
  -- 1 if the entry is a published route of the backend n.
  abbrev pub weight : ℕ → Option (Option (Route E)) → ℕ
  weight n (some (some rt)) = if number_of rt == n then 1 else 0
  weight n _ = 0

  -- 1 if the name is reserved.
  abbrev pub reserved_weight : Option (Option (Route E)) → ℕ
  reserved_weight (some none) = 1
  reserved_weight _ = 0

  abbrev pub count_published : ℕ → Dict (Option (Route E)) → ℕ
  count_published n m = count n (map number_of (published_routes m))

  count_published-cons :
      (n : ℕ) (k : Text) (v : Option (Route E)) (m : Dict (Option (Route E)))
      → count_published n ((k, v) ∷ m) ≡ weight n (some v) + count_published n m
  unfolding published_routes
  count_published-cons n k none m = omega arith
  count_published-cons n k (some rt) m = omega arith

  pub count_published-delete :
      (n : ℕ) (k : Text) (m : Dict (Option (Route E)))
      → IsUnique m
      → count_published n m ≡ weight n (lookup k m) + count_published n (delete k m)
  unfolding lookup delete
  count_published-delete n k [] u = omega arith
  count_published-delete n k ((j, v) ∷ m) (free, u) = elim (Bool-cases (text_eq j k)) [
    | inl hit ↦
        let gone : lookup k m ≡ none =
          subst (λ i. lookup i m ≡ none) ((text_eq_iff j k).0 hit) free in
        let zero_weight : weight n (lookup k m) ≡ 0 = rw gone in
        rw hit
          (omega (arith, count_published-cons n j v m, count_published-delete n k m u, zero_weight))
    | inr miss ↦ rw miss (
        omega (
          arith,
          count_published-cons n j v m,
          count_published-cons n j v (delete k m),
          count_published-delete n k m u,
        ))
  ]

  pub count_published-insert :
      (n : ℕ) (k : Text) (v : Option (Route E)) (m : Dict (Option (Route E)))
      → IsUnique m
      → count_published n (insert k v m) + weight n (lookup k m)
        ≡ weight n (some v) + count_published n m
  unfolding insert
  count_published-insert n k v m u =
      omega (arith, count_published-cons n k v (delete k m), count_published-delete n k m u)

  -- How many of the tasks are for this name, and for this backend.
  abbrev pub count_key : Text → List (Task E) → ℕ
  count_key k [] = 0
  count_key k (t ∷ ts) = (if text_eq t.key k then 1 else 0) + count_key k ts

  abbrev pub count_task : ℕ → List (Task E) → ℕ
  count_task n [] = 0
  count_task n (t ∷ ts) = (if number_of t.route == n then 1 else 0) + count_task n ts

  -- The same tasks, as far as counting goes.
  abbrev pub SameCounts : List (Task E) → List (Task E) → Type 0
  SameCounts ts us =
      ((k : Text) → count_key k ts ≡ count_key k us) × ((n : ℕ) → count_task n ts ≡ count_task n us)

  behind_counts :
      (o : Option (Task E × List (Task E))) (u : Task E) (ts : List (Task E)) (t : Task E)
      (rest : List (Task E))
      → ((v : Task E) (us : List (Task E)) → o ≡ some (v, us) → SameCounts ts (v ∷ us))
      → behind u o ≡ some (t, rest)
      → SameCounts (u ∷ ts) (t ∷ rest)
  behind_counts none u ts t rest h e = cc
  behind_counts (some (v, us)) u ts t rest h e =
      let (keys, tasks) = h v us refl in
      subst (λ q. SameCounts (u ∷ ts) (q.0 ∷ q.1)) (some-injective _ _ e)
        ((λ k. omega (arith, keys k)), (λ n. omega (arith, tasks n)))

  pub pick_counts :
      (i : ℕ) (ts : List (Task E)) (t : Task E) (rest : List (Task E))
      → pick i ts ≡ some (t, rest)
      → SameCounts ts (t ∷ rest)
  unfolding pick
  pick_counts i [] t rest e = cc
  pick_counts zero (u ∷ ts) t rest e =
      subst (λ q. SameCounts (u ∷ ts) (q.0 ∷ q.1)) (some-injective _ _ e) ((λ k. refl), (λ n. refl))
  pick_counts (suc i) (u ∷ ts) t rest e =
      behind_counts (pick i ts) u ts t rest (λ v us. pick_counts i ts v us) e

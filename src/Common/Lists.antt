-- ===== src/Common/Lists.antt =====
-- Lengths, and predicates on every entry, over the native numbers.
use Prim.Native.Nat.{ℕ, suc, ◌+◌, ◌-◌}
use mathlib.Core.Logic.{◌≢◌}
use mathlib.Core.Path.{◌≡◌, refl}
use mathlib.Core.List.{List, [], ◌∷◌, ◌++◌}
use native.Mathlib.Omega.{arith}
use go_portless.Common.Tests.{◌==◌, if◌then◌else◌, ==_iff}

module _ {ℓ} {A : Type ℓ} where
  abbrev pub length : List A → ℕ
  length [] = 0
  length (x ∷ xs) = suc (length xs)

  pub length-append : (xs ys : List A) → length (xs ++ ys) ≡ length xs + length ys
  length-append [] ys = omega arith
  length-append (x ∷ xs) ys = omega (arith, length-append xs ys)

module _ {ℓ κ} {A : Type ℓ} (P : A → Type κ) where
  abbrev pub All : List A → Type κ
  All [] = Unit
  All (x ∷ xs) = P x × All xs

  pub All-append : (xs ys : List A) → All xs → All ys → All (xs ++ ys)
  All-append [] ys h k = k
  All-append (x ∷ xs) ys (p, h) k = (p, All-append xs ys h k)

-- How often the number stands in the list.
unfoldable pub occurs : ℕ → List ℕ → ℕ
occurs n [] = 0
occurs n (m ∷ ms) = if m == n then suc (occurs n ms) else occurs n ms

pub occurs-append : (n : ℕ) (xs ys : List ℕ) → occurs n (xs ++ ys) ≡ occurs n xs + occurs n ys
unfolding occurs
occurs-append n [] ys = ground arith
occurs-append n (x ∷ xs) ys = ground (arith, occurs-append n xs ys)

-- The first entry that is n goes.
unfoldable pub remove_first : ℕ → List ℕ → List ℕ
remove_first n [] = []
remove_first n (m ∷ ms) = if m == n then ms else m ∷ remove_first n ms

pub occurs-remove_first :
    (n m : ℕ) (ms : List ℕ) → occurs n (remove_first m ms) ≡ occurs n ms - (if m == n then 1 else 0)
unfolding occurs remove_first
occurs-remove_first n m [] = ground arith
occurs-remove_first n m (x ∷ xs) = ground (arith, occurs-remove_first n m xs)

pub length-remove_first :
    (m : ℕ) (ms : List ℕ) → occurs m ms ≢ 0 → length ms ≡ suc (length (remove_first m ms))
unfolding occurs remove_first
length-remove_first m [] h = absurd (h refl)
length-remove_first m (x ∷ xs) h = ground (arith, length-remove_first m xs)

pub remove_first_head : (n : ℕ) (ms : List ℕ) → remove_first n (n ∷ ms) ≡ ms
unfolding remove_first
remove_first_head n ms = ground (arith, ==_iff n n)

pub occurs_head : (n : ℕ) (ms : List ℕ) → occurs n (n ∷ ms) ≢ 0
unfolding occurs
occurs_head n ms h = ground (arith, ==_iff n n)

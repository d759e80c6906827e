-- ===== src/Common/Liveness.antt =====
-- Liveness of a step relation: what is reached whatever the program does first.
use Prim.Native.Nat.{ℕ, zero, suc, ◌<◌}
use mathlib.Core.Logic.{◌⊎◌, inl, inr}
use native.Mathlib.Omega.{arith}

-- Until the goal holds, some step is possible, and whichever is taken, the goal is reached.
pub data Inevitable {S : Type 0} (own : S → S → Type 0) (goal : S → Type 0) : S → Type 0 where
  reached : {s : S} → goal s → Inevitable own goal s
  follows :
      {s : S} (t : S)
      → own s t
      → ((u : S) → own s u → Inevitable own goal u)
      → Inevitable own goal s

-- The rule for it: an invariant under which a step is possible until the goal holds, and a measure
-- that every step lowers.
module _ {S : Type 0} (own : S → S → Type 0) (goal keep : S → Type 0) (measure : S → ℕ)
    (progress : (s : S) → keep s → goal s ⊎ ((t : S) × own s t))
    (keeps : (s t : S) → keep s → own s t → keep t × (measure t < measure s)) where
  Inevitable-within : (fuel : ℕ) (s : S) → measure s < fuel → keep s → Inevitable own goal s
  Inevitable-within zero s m k = absurd (omega arith)
  Inevitable-within (suc fuel) s m k = elim (progress s k) [
    | inl done ↦ reached done
    | inr (t, o) ↦
        follows t o
          (λ u n. let (k', less) = keeps s u k n in Inevitable-within fuel u (omega arith) k')
  ]

  pub inevitable : (s : S) → keep s → Inevitable own goal s
  inevitable s k = Inevitable-within (suc (measure s)) s (omega arith) k

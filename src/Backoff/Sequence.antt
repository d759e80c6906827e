-- ===== src/Backoff/Sequence.antt =====
-- The delays that a run of Next produces, and their bounds.
use go_portless.Common.{
  ℕ, zero, suc, ◌+◌, ◌-◌, ◌*◌, ◌/◌, ◌%◌, ◌^◌, ◌≤◌, ◌<◌, ◌≡◌, refl, sym, ap, ◌∙◌, subst, inl, inr,
  false, ◌&&◌, List, [], ◌∷◌, arith, ltb, if◌then◌else◌, ltb→lt, lt→ltb, Bool-cases, length,
}
use native.Mathlib.Nat.{pow-suc, add-zero, add-suc}
use native.Mathlib.Numerals.{towards_suc}
use native.Mathlib.Decide.{dec_lt}
use go_portless.Backoff.{
  out_of_range, Backoff, word, half_word, signed_lt, new, advance, jittered, next, millisecond,
}

-- The state after one call of Next for each draw of the generator.
unfoldable pub after : List ℕ → Backoff → Backoff
after [] b = b
after (r ∷ rs) b = after rs (next b r).1

-- min * 2 ^ k without overflow, cut at max.
abbrev pub ideal : ℕ → ℕ → ℕ → ℕ
ideal min max k = if ltb max (min * 2 ^ k) then max else min * 2 ^ k

-- What New establishes and Next keeps: a positive range inside int64, and a counter that has
-- moved past a delay only if that delay was within the range.
pub record IsValid (b : Backoff) : Type 0 where
  pub positive : 0 < b.min
  pub ordered : b.min ≤ b.max
  pub in_range : b.max < half_word
  pub shift_ok : b.min * 2 ^ b.attempt ≤ 2 * b.max

pow-suc_two : (k : ℕ) → 2 ^ (k + 1) ≡ 2 * 2 ^ k
pow-suc_two k = simp towards_suc (rw pow-suc (omega arith))

pow_two-pos : (k : ℕ) → 0 < 2 ^ k
pow_two-pos zero = omega arith
pow_two-pos (suc k) = rw pow-suc (omega (arith, pow_two-pos k))

signed_lt_small : (a b : ℕ) → a < half_word → b < half_word → signed_lt a b ≡ ltb a b
signed_lt_small a b h k = ground arith

signed_lt_large : (a b : ℕ) → a < half_word → half_word ≤ b → b < word → signed_lt a b ≡ false
signed_lt_large a b h k l = ground arith

-- The guard on overflow finds exactly the delays above max, while the shift loses no high bit.
out_of_range-ltb :
    (max x : ℕ) → max < half_word → 0 < x → x ≤ 2 * max → out_of_range max (x % word) ≡ ltb max x
unfolding out_of_range
out_of_range-ltb max x h p le =
    let small : x % word ≡ x = omega arith in
    rw small (elim (dec_lt x half_word) [
      | yes below ↦
          rw (signed_lt_small max x h below, signed_lt_small 0 x (omega arith) below) (ground arith)
      | no above ↦
          rw
            (
              signed_lt_large max x h (omega arith) (omega arith),
              signed_lt_large 0 x (omega arith) (omega arith) (omega arith),
            )
            (sym (lt→ltb max x (omega arith)))
    ])

signed_lt_zero : (b : ℕ) → b < word → signed_lt 0 b ≡ (ltb 0 b && ltb b half_word)
signed_lt_zero b h = ground arith

shift_positive : {b : Backoff} → IsValid b → 0 < b.min * 2 ^ b.attempt
shift_positive {b} v = grind (arith, pow_two-pos b.attempt)

advance_lem :
    {b : Backoff}
    → IsValid b
    → advance b ≡ (
        if ltb b.max (b.min * 2 ^ b.attempt)
        then (b.max, b)
        else (b.min * 2 ^ b.attempt, record b { attempt = b.attempt + 1 }))
unfolding advance
advance_lem {b} v =
    let x : ℕ = b.min * 2 ^ b.attempt in
    let small : x % word ≡ x = omega arith in
    rw (out_of_range-ltb b.max x v.in_range (shift_positive v) v.shift_ok, small)

double_shift : (b : Backoff) → b.min * 2 ^ (b.attempt + 1) ≡ 2 * (b.min * 2 ^ b.attempt)
double_shift b = rw (pow-suc_two b.attempt) (omega arith)

advance-IsValid : {b : Backoff} → IsValid b → IsValid (advance b).1
advance-IsValid {b} v = rw (advance_lem v) (elim (Bool-cases (ltb b.max (b.min * 2 ^ b.attempt))) [
  | inl big ↦ rw big v
  | inr fits ↦ rw fits (record {
    positive = v.positive;
    ordered = v.ordered;
    in_range = v.in_range;
    shift_ok = ground (arith, double_shift b);
  })
])

advance_base : {b : Backoff} → IsValid b → (advance b).0 ≡ ideal b.min b.max b.attempt
advance_base {b} v = rw (advance_lem v) (ground arith)

range-IsValid :
    (low max : ℕ)
    → 0 < low
    → low < half_word
    → max < word
    → IsValid (record { min = low; max = if signed_lt max low then low else max; attempt = 0 })
range-IsValid low max p q h = elim (Bool-cases (signed_lt max low)) [
  | inl less ↦
      rw less (record { positive = p; ordered = omega arith; in_range = q; shift_ok = omega arith })
  | inr more ↦ rw more (record {
    positive = p;
    ordered = ground arith;
    in_range = ground arith;
    shift_ok = ground arith;
  })
]

pub new-IsValid : (min max : ℕ) → min < word → max < word → IsValid (new min max)
unfolding new
new-IsValid min max h k = elim (Bool-cases (signed_lt 0 min)) [
  | inl pos ↦ rw pos (range-IsValid min max (ground arith) (ground arith) k)
  | inr neg ↦ rw neg (range-IsValid millisecond max (omega arith) (omega arith) k)
]

pow_two_mono : (a k : ℕ) → 2 ^ a ≤ 2 ^ (a + k)
pow_two_mono a zero = simp add-zero (omega arith)
pow_two_mono a (suc k) = simp (add-suc, pow-suc) (omega (arith, pow_two_mono a k))

ideal-beyond : (min max a k : ℕ) → max < min * 2 ^ a → ideal min max (a + k) ≡ max
ideal-beyond min max a k h = grind (arith, pow_two_mono a k)

next-state : (b : Backoff) (r : ℕ) → (next b r).1 ≡ (advance b).1
unfolding next
next-state b r = refl

after_base :
    (rs : List ℕ) (b : Backoff)
    → IsValid b
    → ((advance (after rs b)).0 ≡ ideal b.min b.max (b.attempt + length rs)) × IsValid (after rs b)
unfolding after
after_base [] b v = (rw (advance_base v, add-zero), v)
after_base (r ∷ rs) b v =
    rw (next-state b r, advance_lem v)
      (elim (Bool-cases (ltb b.max (b.min * 2 ^ b.attempt))) [
        | inl big ↦ rw big (stay (after_base rs b v) (ltb→lt _ _ big))
        | inr fits ↦
            rw fits (move (after_base rs (record b { attempt = b.attempt + 1 }) (kept fits)))
      ])
  where
    stay :
        ((advance (after rs b)).0 ≡ ideal b.min b.max (b.attempt + length rs))
          × IsValid (after rs b)
        → b.max < b.min * 2 ^ b.attempt
        → ((advance (after rs b)).0 ≡ ideal b.min b.max (b.attempt + suc (length rs)))
          × IsValid (after rs b)
    stay (e, w) big = (
      e
          ∙ ideal-beyond b.min b.max b.attempt (length rs) big
          ∙ sym (ideal-beyond b.min b.max b.attempt (suc (length rs)) big),
      w,
    )

    kept :
        ltb b.max (b.min * 2 ^ b.attempt) ≡ false → IsValid (record b { attempt = b.attempt + 1 })
    kept fits = subst IsValid (rw (advance_lem v, fits)) (advance-IsValid v)

    move :
        {w : Backoff}
        → ((advance w).0 ≡ ideal b.min b.max ((b.attempt + 1) + length rs)) × IsValid w
        → ((advance w).0 ≡ ideal b.min b.max (b.attempt + suc (length rs))) × IsValid w
    move (e, w) = (e ∙ ap (ideal b.min b.max) (omega arith), w)

-- With the draw r at most d / 2 the delay stays within a quarter of d, up to one nanosecond.
jittered_bounds :
    (d r : ℕ)
    → d < 4611686018427387904
    → r ≤ d / 2
    → (d - d / 4 ≤ jittered d r) × (jittered d r ≤ d + d / 4 + 1)
unfolding jittered
jittered_bounds d r h le = elim (dec_lt r (d / 4)) [
  | yes below ↦
      let e : (r + word - d / 4) % word ≡ r + word - d / 4 = omega arith in rw e (omega arith)
  | no above ↦ let e : (r + word - d / 4) % word ≡ r - d / 4 = omega arith in rw e (omega arith)
]

draw-le : (d r : ℕ) → r % (d / 2 + 1) ≤ d / 2
draw-le d r = omega arith

ideal-le : (min max k : ℕ) → ideal min max k ≤ max
ideal-le min max k = ground arith

new-attempt : (min max : ℕ) → (new min max).attempt ≡ 0
unfolding new
new-attempt min max = refl

-- New makes the range sane whatever it is given: a positive minimum below the maximum; and the
-- delay of the n-th Next after it (n draws before it, any draws) is min * 2 ^ n cut at max, never
-- the result of a shift that overflowed, give or take a quarter and one nanosecond, if max is
-- less than 2 ^ 62 ns.
pub nth_delay :
    (min max : ℕ) (rs : List ℕ) (r : ℕ)
    → min < word
    → max < word
    → (new min max).max < 4611686018427387904
    → let b = new min max in
      let d = ideal b.min b.max (length rs) in
      (0 < b.min)
      × (b.min ≤ b.max)
      × (d - d / 4 ≤ (next (after rs b) r).0)
      × ((next (after rs b) r).0 ≤ d + d / 4 + 1)
unfolding next
nth_delay min max rs r h k small =
    let b : Backoff = new min max in
    let v = new-IsValid min max h k in
    let n : ℕ = length rs in
    let at : ideal b.min b.max (b.attempt + n) ≡ ideal b.min b.max n =
      ap (ideal b.min b.max) (rw (new-attempt min max) (omega arith)) in
    let base = (after_base rs b v).0 ∙ at in
    let d : ℕ = ideal b.min b.max n in
    let bounds =
      jittered_bounds d (r % (d / 2 + 1)) (omega (arith, ideal-le b.min b.max n)) (draw-le d r) in
    (v.positive, v.ordered, rw base bounds.0, rw base bounds.1)

ideal-ge : (min max k : ℕ) → min ≤ max → min ≤ ideal min max k
ideal-ge min max k h = grind (arith, pow_two-pos k)

jittered-ge :
    (low d r : ℕ) → low ≤ d → d < 4611686018427387904 → low - low / 4 ≤ jittered d (r % (d / 2 + 1))
jittered-ge low d r h k = omega (arith, jittered_bounds d (r % (d / 2 + 1)) k (draw-le d r))

-- One call of Next: at least three quarters of the minimum, and the range is kept.
pub next-ge :
    (b : Backoff) (r : ℕ)
    → IsValid b
    → b.max < 4611686018427387904
    → (b.min - b.min / 4 ≤ (next b r).0)
      × IsValid (next b r).1
      × ((next b r).1.min ≡ b.min)
      × ((next b r).1.max ≡ b.max)
unfolding next
next-ge b r v h = (
  rw (advance_base v) (
      jittered-ge b.min (ideal b.min b.max b.attempt) r (ideal-ge b.min b.max b.attempt v.ordered)
        (omega (arith, ideal-le b.min b.max b.attempt))),
  advance-IsValid v,
  rw (advance_lem v) (ground arith),
  rw (advance_lem v) (ground arith),
)

-- ===== src/Backoff.antt =====
-- internal/backoff/backoff.go: the exponential backoff of the dial loop and the local bridges.
-- A time.Duration is an int64, kept as its bit pattern below 2 ^ 64; `attempt` is a plain number.
pub mod Sequence
mod Tests
use go_portless.Common.{ℕ, ◌+◌, ◌-◌, ◌*◌, ◌/◌, ◌%◌, ◌^◌, Bool, not, ◌||◌, ltb, if◌then◌else◌}

abbrev pub word : ℕ
word = 18446744073709551616

abbrev pub half_word : ℕ
half_word = 9223372036854775808

-- The order of int64 on bit patterns.
abbrev pub signed_lt : ℕ → ℕ → Bool
signed_lt a b = ltb ((a + half_word) % word) ((b + half_word) % word)

pub record Backoff : Type 0 where
  pub min : ℕ
  pub max : ℕ
  pub attempt : ℕ

abbrev pub millisecond : ℕ
millisecond = 1000000

unfoldable pub new : ℕ → ℕ → Backoff
new min max =
    let low = if not (signed_lt 0 min) then millisecond else min in
    record { min = low; max = if signed_lt max low then low else max; attempt = 0 }

-- `b.min << b.attempt`, the high bits lost.
abbrev pub shifted : Backoff → ℕ
shifted b = (b.min * 2 ^ b.attempt) % word

-- `d > b.max || d <= 0`
unfoldable pub out_of_range : ℕ → ℕ → Bool
out_of_range max d = signed_lt max d || not (signed_lt 0 d)

-- The delay before jitter, and the counter after.
unfoldable pub advance : Backoff → ℕ × Backoff
advance b =
    let d = shifted b in
    if out_of_range b.max d then (b.max, b) else (d, record b { attempt = b.attempt + 1 })

-- `d + (rand.Int64N(d/2+1) - d/4)` in int64; `r` is what the generator draws, at most d / 2.
unfoldable pub jittered : ℕ → ℕ → ℕ
jittered d r = (d + (r + word - d / 4) % word) % word

unfoldable pub next : Backoff → ℕ → ℕ × Backoff
unfolding advance jittered
next b r = let (d, b') = advance b in (jittered d (r % (d / 2 + 1)), b')

unfoldable pub reset : Backoff → Backoff
reset b = record b { attempt = 0 }

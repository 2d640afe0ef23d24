-- ===== src/Outbox/Backoff.antt =====
-- internal/application/outbox/backoff.go. Durations are numbers of nanoseconds. A float that does not
-- fit an int64 converts to a number that the cap replaces, so the power is taken exactly; a base
-- above 2^53 nanoseconds, which a float rounds, is not modelled. `draw n` stands for `rand.Int64N(n)`.
use payments_boilerplate.Base.{ℕ, ◌+◌, ◌*◌, ◌^◌, ◌≤◌, min, ltb, leb, if◌then◌else◌, arith}
use native.Mathlib.Nat.{one-le-pow}

pub record Backoff : Type 0 where
  pub base : ℕ
  pub max : ℕ

abbrev pub millisecond : ℕ
millisecond = 1000000

abbrev pub default_backoff_base : ℕ
default_backoff_base = 2000000000

abbrev pub default_backoff_max : ℕ
default_backoff_max = 300000000000

abbrev or_default : ℕ → ℕ → ℕ
or_default n d = if leb n 0 then d else n

-- `withDefaults`; a negative setting is replaced as 0 is.
unfoldable pub with_defaults : Backoff → Backoff
with_defaults b = record {
  base = or_default b.base default_backoff_base;
  max = or_default b.max default_backoff_max;
}

-- `maxExponent`.
abbrev pub max_exponent : ℕ
max_exponent = 20

-- The delay before its jitter.
unfoldable pub ceiling : Backoff → ℕ → ℕ
unfolding with_defaults
ceiling b attempts =
    let b' = with_defaults b in
    let delay = b'.base * 2 ^ min attempts max_exponent in
    if ltb b'.max delay then b'.max else delay

-- `Delay`.
unfoldable pub delay : (ℕ → ℕ) → Backoff → ℕ → ℕ
delay draw b attempts =
    let jittered = draw (ceiling b attempts) + millisecond in
    if ltb (ceiling b attempts) jittered then ceiling b attempts else jittered

product-positive : (a b : ℕ) → 1 ≤ a → 1 ≤ b → 1 ≤ a * b
product-positive a b h k = grind arith

or_default-positive : (n d : ℕ) → 1 ≤ d → 1 ≤ or_default n d
or_default-positive n d h = ground arith

ceiling-bounds :
    (b : Backoff) (attempts : ℕ)
    → (1 ≤ ceiling b attempts) × (ceiling b attempts ≤ (with_defaults b).max)
unfolding ceiling with_defaults
ceiling-bounds b attempts =
    let some_base = or_default-positive b.base default_backoff_base (omega arith) in
    let some_max = or_default-positive b.max default_backoff_max (omega arith) in
    let grows =
      product-positive (or_default b.base default_backoff_base) (2 ^ min attempts max_exponent)
        some_base (one-le-pow (min attempts max_exponent) 2 (omega arith)) in
    ground arith

-- Whatever is drawn, a retry waits some time, and no longer than the configured maximum (or the
-- default one, where none is configured).
pub delay-bounds :
    (draw : ℕ → ℕ) (b : Backoff) (attempts : ℕ)
    → (1 ≤ delay draw b attempts) × (delay draw b attempts ≤ (with_defaults b).max)
unfolding delay
delay-bounds draw b attempts = let (some_wait, capped) = ceiling-bounds b attempts in ground arith

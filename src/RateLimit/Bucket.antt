-- ===== src/RateLimit/Bucket.antt =====
-- internal/platform/ratelimit/bucket.go. Times and durations are numbers of nanoseconds. The bucket's
-- tokens, a float64 in the source, are held as credit: tokens times the interval of one token, which
-- makes every step exact. The rounding of floats is not modelled: what the code announces as a wait can be
-- too short by a rounding, so nothing here says that a request after it is allowed.
use payments_boilerplate.Base.{
  ℕ, ◌+◌, ◌-◌, ◌*◌, ◌/◌, ◌%◌, Bool, true, false, not, min, ltb, leb, if◌then◌else◌, Result, ◌>>◌,
  guard,
}
use payments_boilerplate.Base.Int.{max_int64}

pub record Policy : Type 0 where
  pub burst : ℕ
  pub interval : ℕ

pub data PolicyError : Type 0 where
  burst_too_small interval_not_positive interval_too_short : PolicyError

-- `Policy.Validate`; a negative setting is refused as 0 is.
unfoldable pub validate : Policy → Result PolicyError (Unit {0})
validate p = do
  guard (not (ltb p.burst 1)) burst_too_small
  guard (not (leb p.interval 0)) interval_not_positive
  guard (not (leb (p.interval / p.burst) 0)) interval_too_short

-- `tokenInterval`.
abbrev pub token_interval : Policy → ℕ
token_interval p = p.interval / p.burst

-- The credit of a full bucket.
abbrev pub full_credit : Policy → ℕ
full_credit p = p.burst * token_interval p

abbrev pub second : ℕ
second = 1000000000

pub record Decision : Type 0 where
  pub allowed : Bool
  pub retry_after : ℕ

pub record Bucket : Type 0 where
  pub credit : ℕ
  pub updated_at : ℕ

-- `now.Sub(then)` where it is positive; a Duration holds no more than the largest int64.
abbrev pub elapsed : ℕ → ℕ → ℕ
elapsed now before = min (now - before) max_int64

unfoldable pub round_up_to_second : ℕ → ℕ
round_up_to_second wait =
    if leb wait second
    then second
    else (let rounded = wait - wait % second in
        if ltb rounded wait then rounded + second else rounded)

-- The refill of `take`.
unfoldable pub refill : Policy → Bucket → ℕ → ℕ
refill p b now =
    if ltb 0 (elapsed now b.updated_at)
    then min (full_credit p) (b.credit + elapsed now b.updated_at)
    else b.credit

-- `take`.
unfoldable pub take : Policy → Bucket → ℕ → Bucket × Decision
unfolding refill
take p b now =
    if leb (token_interval p) (refill p b now)
    then (
      record { credit = refill p b now - token_interval p; updated_at = now },
      record { allowed = true; retry_after = 0 },
    )
    else (
      record { credit = refill p b now; updated_at = now },
      record {
        allowed = false;
        retry_after = round_up_to_second (token_interval p - refill p b now);
      },
    )

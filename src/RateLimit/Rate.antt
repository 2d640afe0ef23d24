-- ===== src/RateLimit/Rate.antt =====
-- The rate that one bucket enforces, and the wait that it announces.
use payments_boilerplate.Base.{
  ℕ, ◌+◌, ◌-◌, ◌*◌, ◌≤◌, ◌≡◌, Bool, true, false, List, [], ◌∷◌, arith, ap,
}
use payments_boilerplate.Base.Int.{max_int64}
use payments_boilerplate.RateLimit.Bucket.{
  Policy, token_interval, full_credit, Bucket, refill, take,
}

abbrev pub count_if : Bool → ℕ
count_if true = 1
count_if false = 0

-- The requests of a history that one bucket allows, and the bucket after it.
unfoldable pub run : Policy → Bucket → List ℕ → ℕ × Bucket
run p b [] = (0, b)
run p b (now ∷ times) =
    let (b', d) = take p b now in let (n, b'') = run p b' times in (count_if d.allowed + n, b'')

-- The clock does not run backwards.
abbrev pub Rises : ℕ → List ℕ → Type 0
Rises from [] = Unit {0}
Rises from (now ∷ times) = (from ≤ now) × Rises now times

abbrev pub last_of : ℕ → List ℕ → ℕ
last_of from [] = from
last_of from (now ∷ times) = last_of now times

refill-le : (p : Policy) (b : Bucket) (now : ℕ) → refill p b now ≤ b.credit + (now - b.updated_at)
unfolding refill
refill-le p b now = ground arith

-- One request spends what it is allowed out of what time has added.
take_spends :
    (p : Policy) (b : Bucket) (now : ℕ)
    → let (b', d) = take p b now in
      (count_if d.allowed * token_interval p + b'.credit ≤ b.credit + (now - b.updated_at))
      × (b'.updated_at ≡ now)
unfolding take
take_spends p b now = ground (arith, refill-le p b now)

Rises-le : (from : ℕ) (times : List ℕ) → Rises from times → from ≤ last_of from times
Rises-le from [] r = omega arith
Rises-le from (now ∷ times) (first, rest) = omega (arith, Rises-le now times rest)

-- However a caller times its requests, one bucket allows at most what it held plus what time has
-- added: the allowed requests, at one token interval each, and the credit left are covered by the
-- credit at the start and the time that passed.
pub run_bounded :
    (p : Policy) (b : Bucket) (times : List ℕ)
    → Rises b.updated_at times
    → let (n, b') = run p b times in
      n * token_interval p + b'.credit ≤ b.credit + (last_of b.updated_at times - b.updated_at)
unfolding run
run_bounded p b [] r = omega arith
run_bounded p b (now ∷ times) (first, rest) =
    let b' = (take p b now).0 in
    let (spent, same) = take_spends p b now in
    let later = run_bounded p b' times (rw same rest) in
    let grows = Rises-le now times rest in omega (arith, ap (λ (t : ℕ). last_of t times - t) same)

-- A policy that `validate` accepts, with an interval that a Duration can hold.
pub record IsEnforceable (p : Policy) : Type 0 where
  pub some_burst : 1 ≤ p.burst
  pub some_token : 1 ≤ token_interval p
  pub held : p.interval ≤ max_int64

pub token_interval-le-full_credit :
    (p : Policy) → IsEnforceable p → token_interval p ≤ full_credit p
token_interval-le-full_credit p e = grind (arith, e.some_burst)

pub accepts :
    (p : Policy) (b : Bucket) (now : ℕ)
    → token_interval p ≤ refill p b now
    → (take p b now).1.allowed ≡ true
unfolding take
accepts p b now enough = ground arith

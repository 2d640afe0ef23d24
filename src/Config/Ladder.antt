-- ===== src/Config/Ladder.antt =====
-- The ladder of delays of a worker that started: internal/runtime/worker/worker.go.
use payments_boilerplate.Base.{
  ℕ, ◌≤◌, ◌≡◌, Bool, true, not, String, List, [], ◌∷◌, Option, some, length, arith, Result, ok,
  bind-ok, guard-ok,
}
use payments_boilerplate.Base.Int.{ℤ, pos, negsuc, ltb_ℤ}
use payments_boilerplate.Http.Address.{Prefix}
use payments_boilerplate.Broker.Retry.{RetryTier, tier_for, Climbs, tier_for-Climbs}
use payments_boilerplate.Config.{Config, check_consumer, check_delays, some_delays, load}
use payments_boilerplate.Config.Rates.{to_ℕ}
use payments_boilerplate.Config.Startup.{load-IsLoaded}

-- `NewRetryTier` for each delay.
unfoldable pub retry_tiers : List ℤ → List RetryTier
retry_tiers [] = []
retry_tiers (d ∷ ds) = record { delay = to_ℕ d } ∷ retry_tiers ds

ascends : (a b : ℤ) → ltb_ℤ a b ≡ true → to_ℕ a ≤ to_ℕ b
ascends (pos a) (pos b) h = ground arith
ascends (pos a) (negsuc b) h = absurd (cc h)
ascends (negsuc a) (pos b) h = omega arith
ascends (negsuc a) (negsuc b) h = omega arith

-- Delays that passed their test climb, from the previous one on.
delays-Climbs :
    (previous : ℤ) (ds : List ℤ)
    → check_delays previous ds ≡ ok tt
    → Climbs (retry_tiers (previous ∷ ds))
unfolding check_delays retry_tiers
delays-Climbs previous [] h = tt
delays-Climbs previous (d ∷ ds) h =
    let (_, h1) = guard-ok (ltb_ℤ (pos 0) d) _ _ tt h in
    let (up, h2) = guard-ok (ltb_ℤ previous d) _ _ tt h1 in
    (ascends previous d up, delays-Climbs d ds h2)

tail-Climbs : (t : RetryTier) (ts : List RetryTier) → Climbs (t ∷ ts) → Climbs ts
tail-Climbs t [] c = tt
tail-Climbs t (u ∷ us) (up, c) = c

some-length : (ds : List ℤ) → some_delays ds ≡ true → 1 ≤ length (retry_tiers ds)
unfolding retry_tiers
some-length [] h = absurd (cc h)
some-length (d ∷ ds) h = omega arith

consumer_delays :
    (b : Bool) (c : Config)
    → check_consumer b c ≡ ok tt
    → (some_delays c.consumer_retry_delays ≡ true)
      × (check_delays (pos 0) c.consumer_retry_delays ≡ ok tt)
unfolding check_consumer
consumer_delays b c h =
    let (_, h1) = guard-ok (not (ltb_ℤ c.consumer_concurrency (pos 1))) _ _ tt h in
    let (_, h2) = guard-ok (not (ltb_ℤ c.consumer_prefetch c.consumer_concurrency)) _ _ tt h1 in
    let (_, h3) = guard-ok (not (ltb_ℤ c.consumer_max_attempts (pos 2))) _ _ tt h2 in
    let (filled, h4) = guard-ok (some_delays c.consumer_retry_delays) _ _ tt h3 in
    let (_, climbs, _) = bind-ok (check_delays (pos 0) c.consumer_retry_delays) _ tt h4 in
    (filled, climbs)

-- The retries of a worker that started always have a tier, and back off: with the delays of a
-- configuration that was loaded, every count of attempts has a tier, and a message that failed more
-- often never waits less.
pub load-tier_for :
    (parse_prefix : String → Option Prefix) (parsed : Result String Config) (address : String)
    (required : Bool) (c : Config) (a b : ℕ)
    → load parse_prefix parsed address required ≡ ok c
    → a ≤ b
    → let ts = retry_tiers c.consumer_retry_delays in
      (t : RetryTier) × (u : RetryTier) × (tier_for ts a ≡ some t)
      × (tier_for ts b ≡ some u)
      × (t.delay ≤ u.delay)
unfolding retry_tiers
load-tier_for parse_prefix parsed address required c a b h le =
    let (filled, passed) =
      consumer_delays required c
        (load-IsLoaded parse_prefix parsed address required c h).consumer in
    let ts = retry_tiers c.consumer_retry_delays in
    tier_for-Climbs ts a b (some-length c.consumer_retry_delays filled)
      (tail-Climbs (record { delay = 0 }) ts (delays-Climbs (pos 0) c.consumer_retry_delays passed))
      le

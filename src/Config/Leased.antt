-- ===== src/Config/Leased.antt =====
-- The lease of a batch, as it is configured.
use payments_boilerplate.Base.{
  ℕ, ◌+◌, ◌-◌, ◌*◌, ◌≤◌, ◌≡◌, refl, Bool, true, not, ◌&&◌, String, Option, arith, Result, ok,
  guard-ok, guard-true,
}
use payments_boilerplate.Base.Int.{ℤ, pos, negsuc, ltb_ℤ, max_int64, wrap64}
use payments_boilerplate.Http.Address.{Prefix}
use payments_boilerplate.Config.{
  Config, check_outbox, minimum_lease, publish_attempt_budget, settlement_reserve, load,
}
use payments_boilerplate.Config.Startup.{load-IsLoaded}

wrap64-small : (n : ℕ) → n ≤ max_int64 → wrap64 n ≡ pos n
wrap64-small n h = ground arith

lease_tested :
    (c : Config)
    → check_outbox c ≡ ok tt
    → not (ltb_ℤ c.outbox_lease_duration (minimum_lease c.outbox_batch_size)) ≡ true
unfolding check_outbox
lease_tested c h =
    let (_, h1) = guard-ok (not (ltb_ℤ c.outbox_batch_size (pos 1))) _ _ tt h in
    let (_, h2) = guard-ok (ltb_ℤ (pos 0) c.outbox_interval) _ _ tt h1 in
    let (_, h3) = guard-ok (not (ltb_ℤ c.outbox_alert_after_attempts (pos 1))) _ _ tt h2 in
    let (_, h4) =
      guard-ok (ltb_ℤ (pos 0) c.outbox_backoff_base && ltb_ℤ (pos 0) c.outbox_backoff_max) _ _ tt
        h3 in
    let (_, h5) = guard-ok (not (ltb_ℤ c.outbox_backoff_max c.outbox_backoff_base)) _ _ tt h4 in
    guard-true (not (ltb_ℤ c.outbox_lease_duration (minimum_lease c.outbox_batch_size))) _ h5

not_less : (m : ℤ) (n : ℕ) → not (ltb_ℤ m (pos n)) ≡ true → (k : ℕ) × (m ≡ pos k) × (n ≤ k)
not_less (pos k) n h = (k, refl, ground arith)
not_less (negsuc k) n h = absurd (cc h)

-- A whole batch can be published within its lease: in a configuration that was loaded, unless the product
-- of the batch and the budget of one attempt overflows, the lease less what is kept for the settlement
-- covers one attempt's budget for every message of a batch.
pub load-fits :
    (parse_prefix : String → Option Prefix) (parsed : Result String Config) (address : String)
    (required : Bool) (c : Config) (n : ℕ)
    → load parse_prefix parsed address required ≡ ok c
    → c.outbox_batch_size ≡ pos n
    → n * publish_attempt_budget + settlement_reserve ≤ max_int64
    → (lease : ℕ) × (c.outbox_lease_duration ≡ pos lease)
      × (n * publish_attempt_budget ≤ lease - settlement_reserve)
unfolding minimum_lease
load-fits parse_prefix parsed address required c n h batch fits =
    let tested = lease_tested c (load-IsLoaded parse_prefix parsed address required c h).outbox in
    let minimum : minimum_lease c.outbox_batch_size
        ≡ pos (n * publish_attempt_budget + settlement_reserve) =
      rw batch (wrap64-small (n * publish_attempt_budget + settlement_reserve) fits) in
    let (lease, is_lease, le) = not_less c.outbox_lease_duration _ (rw minimum at tested) in
    (lease, is_lease, omega (arith, le))

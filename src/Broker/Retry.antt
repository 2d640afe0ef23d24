-- ===== src/Broker/Retry.antt =====
-- internal/adapters/rabbitmq/retry.go: the delay tiers. A tier's exchange and queue are named after its
-- delay; the formatting of a duration (`Duration.String`) is not modelled, so a tier stands for both.
-- The declaration of the topology at the broker is not modelled.
use payments_boilerplate.Base.{
  ℕ, zero, suc, ◌-◌, ◌≤◌, ◌<◌, ◌≡◌, refl, List, [], ◌∷◌, Option, none, some, length, get_elem?, leb,
  if◌then◌else◌, arith,
}

pub record RetryTier : Type 0 where
  pub delay : ℕ

-- `index` of `TierFor`: one less than the attempts, and never past the last tier.
abbrev pub tier_index : ℕ → ℕ → ℕ
tier_index tiers attempts = if leb tiers (attempts - 1) then tiers - 1 else attempts - 1

-- `TierFor`. A count below 1 asks for the first tier, as 0 does here.
unfoldable pub tier_for : List RetryTier → ℕ → Option RetryTier
tier_for [] attempts = none
tier_for (t ∷ ts) attempts = get_elem? (t ∷ ts) (tier_index (length (t ∷ ts)) attempts)

-- A ladder that never comes down.
abbrev pub Climbs : List RetryTier → Type 0
Climbs [] = Unit {0}
Climbs (t ∷ []) = Unit {0}
Climbs (t ∷ u ∷ ts) = (t.delay ≤ u.delay) × Climbs (u ∷ ts)

get_elem-some :
    {A : Type 0} (xs : List A) (i : ℕ) → i < length xs → (x : A) × (get_elem? xs i ≡ some x)
get_elem-some [] i h = absurd (omega (arith, h))
get_elem-some (x ∷ xs) zero h = (x, refl)
get_elem-some (x ∷ xs) (suc i) h = get_elem-some xs i (omega (arith, h))

same_delay : (t u : RetryTier) → some t ≡ some u → t.delay ≡ u.delay
same_delay t u h = cc

first-le :
    (t : RetryTier) (ts : List RetryTier) (i : ℕ) (u : RetryTier)
    → Climbs (t ∷ ts)
    → get_elem? (t ∷ ts) i ≡ some u
    → t.delay ≤ u.delay
first-le t ts zero u c h = omega (arith, same_delay t u h)
first-le t [] (suc i) u c h = ground arith
first-le t (x ∷ xs) (suc i) u (up, c) h = omega (arith, up, first-le x xs i u c h)

Climbs-le :
    (ts : List RetryTier) (i j : ℕ) (t u : RetryTier)
    → Climbs ts
    → i ≤ j
    → get_elem? ts i ≡ some t
    → get_elem? ts j ≡ some u
    → t.delay ≤ u.delay
Climbs-le [] i j t u c h p q = ground arith
Climbs-le (x ∷ xs) zero j t u c h p q = omega (arith, same_delay x t p, first-le x xs j u c q)
Climbs-le (x ∷ xs) (suc i) zero t u c h p q = absurd (omega (arith, h))
Climbs-le (x ∷ []) (suc i) (suc j) t u c h p q = ground arith
Climbs-le (x ∷ y ∷ ys) (suc i) (suc j) t u (up, c) h p q =
    Climbs-le (y ∷ ys) i j t u c (omega (arith, h)) p q

tier_index-lt : (n attempts : ℕ) → 1 ≤ n → tier_index n attempts < n
tier_index-lt n attempts h = ground arith

tier_index-le : (n a b : ℕ) → a ≤ b → tier_index n a ≤ tier_index n b
tier_index-le n a b h = ground arith

-- With any tier configured, every count of attempts has one; and on a ladder that climbs, a message
-- that failed more often never waits less.
pub tier_for-Climbs :
    (ts : List RetryTier) (a b : ℕ)
    → 1 ≤ length ts
    → Climbs ts
    → a ≤ b
    → (t : RetryTier) × (u : RetryTier) × (tier_for ts a ≡ some t)
      × (tier_for ts b ≡ some u)
      × (t.delay ≤ u.delay)
unfolding tier_for
tier_for-Climbs [] a b h c le = absurd (omega (arith, h))
tier_for-Climbs (x ∷ xs) a b h c le =
    let n = length (x ∷ xs) in
    let (t, first) = get_elem-some (x ∷ xs) (tier_index n a) (tier_index-lt n a h) in
    let (u, second) = get_elem-some (x ∷ xs) (tier_index n b) (tier_index-lt n b h) in
    (
      t,
      u,
      first,
      second,
      Climbs-le (x ∷ xs) (tier_index n a) (tier_index n b) t u c (tier_index-le n a b le) first
          second,
    )

-- ===== src/RateLimit/Limiter.antt =====
-- internal/platform/ratelimit/limiter.go. The map of buckets and the list that orders them by use are
-- one list here, the most recently used first, with at most one entry for a key. A method runs under
-- the mutex, so it is one step; the clock's reading is an argument.
use payments_boilerplate.Base.{
  ℕ, Bool, true, false, String, List, [], ◌∷◌, Option, none, some, zero, suc, leb, ◌==◌,
  if◌then◌else◌, length, Result, ok, err, ◌>>=◌, ◌>>◌,
}
use payments_boilerplate.Base.Int.{ℤ, pos, negsuc}
use payments_boilerplate.RateLimit.Bucket as Bucket

-- `entry`.
pub record Entry : Type 0 where
  pub key : String
  pub bucket : Bucket.Bucket

pub record Limiter : Type 0 where
  pub policy : Bucket.Policy
  pub capacity : ℕ
  pub ttl : ℕ
  pub entries : List Entry

pub data Error : Type 0 where
  bad_policy : Bucket.PolicyError → Error
  capacity_too_small ttl_negative : Error

abbrev to_error : {A : Type 0} → Result Bucket.PolicyError A → Result Error A
to_error (ok a) = ok a
to_error (err e) = err (bad_policy e)

abbrev positive : ℤ → Result Error ℕ
positive (pos zero) = err capacity_too_small
positive (pos (suc n)) = ok (suc n)
positive (negsuc n) = err capacity_too_small

abbrev not_negative : ℤ → Result Error ℕ
not_negative (pos n) = ok n
not_negative (negsuc n) = err ttl_negative

-- `New`.
unfoldable pub new : Bucket.Policy → ℤ → ℤ → Result Error Limiter
new policy capacity ttl = do
  to_error (Bucket.validate policy)
  capacity' ← positive capacity
  ttl' ← not_negative ttl
  ok (record { policy = policy; capacity = capacity'; ttl = ttl'; entries = [] })

-- Whether `expire` reclaims a bucket.
abbrev pub is_stale : ℕ → ℕ → Entry → Bool
is_stale ttl now e = leb ttl (Bucket.elapsed now e.bucket.updated_at)

abbrev pub keep_front : Bool → Entry → List Entry → List Entry
keep_front true e [] = []
keep_front false e [] = e ∷ []
keep_front stale e (x ∷ xs) = e ∷ x ∷ xs

-- The loop of `expire`: entries go from the back, up to the first that is young enough.
unfoldable pub drop_stale : ℕ → ℕ → List Entry → List Entry
drop_stale ttl now [] = []
drop_stale ttl now (e ∷ es) = keep_front (is_stale ttl now e) e (drop_stale ttl now es)

-- `expire`.
unfoldable pub expire : ℕ → ℕ → List Entry → List Entry
expire ttl now es = if leb ttl 0 then es else drop_stale ttl now es

-- `order.Remove(order.Back())`.
unfoldable pub remove_back : List Entry → List Entry
remove_back [] = []
remove_back (e ∷ []) = []
remove_back (e ∷ x ∷ xs) = e ∷ remove_back (x ∷ xs)

-- The loop of `evictIfFull`; the fuel is the number of entries, one for each turn.
unfoldable pub evict : ℕ → ℕ → List Entry → List Entry
evict zero capacity es = es
evict (suc fuel) capacity es =
    let rest = evict fuel capacity (remove_back es) in if leb capacity (length es) then rest else es

unfoldable pub evict_if_full : ℕ → List Entry → List Entry
evict_if_full capacity es = evict (length es) capacity es

-- `buckets[key]`.
unfoldable pub lookup : String → List Entry → Option Bucket.Bucket
lookup key [] = none
lookup key (e ∷ es) = if e.key == key then some e.bucket else lookup key es

-- The other keys' entries, in their order.
unfoldable pub without : String → List Entry → List Entry
without key [] = []
without key (e ∷ es) = let rest = without key es in if e.key == key then rest else e ∷ rest

-- The bucket of a key that has not spent anything.
abbrev pub fresh : Bucket.Policy → ℕ → Bucket.Bucket
fresh policy now = record { credit = Bucket.full_credit policy; updated_at = now }

-- The key's bucket, and the entries behind it: made with room for it, or moved to the front.
unfoldable pub touch :
    Limiter → String → ℕ → List Entry → Option Bucket.Bucket → Bucket.Bucket × List Entry
touch l key now es none = (fresh l.policy now, evict_if_full l.capacity es)
touch l key now es (some b) = (b, without key es)

-- `Allow`.
unfoldable pub allow : Limiter → String → ℕ → Limiter × Bucket.Decision
allow l key now =
    let es = expire l.ttl now l.entries in
    let (b, others) = touch l key now es (lookup key es) in
    let (b', decision) = Bucket.take l.policy b now in
    (
      record {
        policy = l.policy;
        capacity = l.capacity;
        ttl = l.ttl;
        entries = record { key = key; bucket = b' } ∷ others;
      },
      decision,
    )

-- `Len`.
abbrev pub len : Limiter → ℕ
len l = length l.entries

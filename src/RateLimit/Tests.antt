-- ===== src/RateLimit/Tests.antt =====
-- A bucket of two tokens, one a second, and a limiter of two keys over it.
use payments_boilerplate.Base.{
  ◌+◌, ◌-◌, ◌*◌, ◌≤◌, ◌≡◌, ◌≢◌, refl, [], ◌∷◌, none, String, arith, ok, ◌==◌,
}
use payments_boilerplate.Base.Int.{pos}
use payments_boilerplate.RateLimit.Bucket.{Policy, Bucket, take, validate, token_interval, refill}
use payments_boilerplate.RateLimit.Rate.{run, run_bounded}
use payments_boilerplate.RateLimit.Limiter.{
  Limiter, new, allow, lookup, expire, drop_stale, evict, evict_if_full, remove_back, touch,
}
use payments_boilerplate.RateLimit.Bounds.{IsBounded, differs, allow-IsBounded}

abbrev two_a_second : Policy
two_a_second = record { burst = 2; interval = 2000000000 }

abbrev spent : Bucket
spent = record { credit = 400000000; updated_at = 7000000000 }

run_bounded_example :
    let (n, b') = run two_a_second spent (7100000000 ∷ 7600000000 ∷ 9600000000 ∷ []) in
    n * token_interval two_a_second + b'.credit ≤ 400000000 + (9600000000 - 7000000000)
run_bounded_example =
    run_bounded two_a_second spent (7100000000 ∷ 7600000000 ∷ 9600000000 ∷ [])
      (omega arith, (omega arith, (omega arith, tt)))

abbrev held : Limiter
held = record {
  policy = two_a_second;
  capacity = 2;
  ttl = 60000000000;
  entries =
      record { key = "a"; bucket = spent }
      ∷ record { key = "b"; bucket = record { credit = 0; updated_at = 6000000000 } }
      ∷ [];
}

distinct_keys : ◌≢◌ {A = String} "a" "b" × ◌≢◌ {A = String} "b" "a"
unfolding ◌==◌
distinct_keys = (differs "a" "b" refl, differs "b" "a" refl)

held-IsBounded : IsBounded held
held-IsBounded = record {
  some_room = omega arith;
  within = omega arith;
  distinct = ((distinct_keys.1, tt), (tt, tt));
  capped = (omega arith, (omega arith, tt));
}

-- A third key takes the place of the one that was used least recently.
evicts : lookup "b" (allow held "c" 8000000000).0.entries ≡ none
unfolding allow expire drop_stale touch lookup evict_if_full evict remove_back take refill ◌==◌
evicts = refl

-- A new limiter is empty.
made :
    new two_a_second (pos 3) (pos 0)
    ≡ ok (record { policy = two_a_second; capacity = 3; ttl = 0; entries = [] })
unfolding new validate
made = refl

allow-IsBounded_example : IsBounded (allow held "c" 8000000000).0
allow-IsBounded_example = allow-IsBounded held "c" 8000000000 held-IsBounded

c_absent : lookup "c" held.entries ≡ none
unfolding lookup ◌==◌
c_absent = refl

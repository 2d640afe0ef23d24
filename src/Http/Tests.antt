-- ===== src/Http/Tests.antt =====
-- A client behind two proxies, and callers with and without a key.
use payments_boilerplate.Base.{
  ℕ, ◌≡◌, refl, true, false, String, List, [], ◌∷◌, none, some, ◌==◌, if◌then◌else◌, trim_space, ok,
  err, Result,
}
use payments_boilerplate.RateLimit.Limiter.{Limiter}
use payments_boilerplate.Auth.{
  ApiKeyVerifier, Mac, fingerprint, valid, new_api_key_verifier, check_keys,
}
use payments_boilerplate.Http.Address.{
  v4, Network, Resolver, Request, canonical, contains, parse_hop, peer_address, split,
  forwarded_hops, trusted_proxy, resolve,
}
use payments_boilerplate.Http.Genuine.{IsProxy, resolve-genuine}
use payments_boilerplate.Http.Responses.{Failure, not_authenticated}
use payments_boilerplate.Http.Limits.{
  RateLimiters, class_business, class_webhook, public_operation, strict,
}
use payments_boilerplate.Http.Guarded.{strict-guarded}
use payments_boilerplate.Http.Keyed.{
  IsKeyed, arrives, calls, Request as Visit, serve_all, serve_all-IsKeyed,
}

-- 10.0.0.1, 10.0.0.2 and 203.0.113.7 as texts of one letter.
abbrev network : Network
network = record {
  split_host = λ s. none;
  parse_addr = λ s.
      if s == "p"
      then some (v4 167772161)
      else (if s == "q"
          then some (v4 167772162)
          else (if s == "c" then some (v4 3405803783) else none));
  parse_addr_port = λ s. none;
}

abbrev resolver : Resolver
resolver = record { trusted = record { address = v4 167772160; bits = 8 } ∷ [] }

-- The client claims to be a proxy; the proxies add the client's address and the first proxy's.
abbrev request : Request
request = record { remote_addr = "p"; forwarded_for = "p, c" ∷ "q" ∷ [] }

program : Unit {0}
unfolding parse_hop peer_address trusted_proxy contains canonical forwarded_hops split trim_space
    ◌==◌
program = tt

hops : forwarded_hops request.forwarded_for ≡ "p" ∷ "c" ∷ "q" ∷ []
unfolding program
hops = refl

from : peer_address network "p" ≡ some (v4 167772161)
unfolding program
from = refl

proxy : trusted_proxy resolver.trusted (v4 167772161) ≡ true
unfolding program
proxy = refl

parsed : parse_hop network "c" ≡ some (v4 3405803783)
unfolding program
parsed = refl

foreign : trusted_proxy resolver.trusted (v4 3405803783) ≡ false
unfolding program
foreign = refl

second_IsProxy : IsProxy network resolver.trusted "q"
unfolding program
second_IsProxy = record { address = v4 167772162; parsed = refl; ours = refl }

resolve-genuine_example : resolve network resolver request ≡ some (v4 3405803783)
resolve-genuine_example =
    resolve-genuine network resolver request (v4 167772161) (v4 3405803783) ("p" ∷ []) "c"
      ("q" ∷ []) from proxy hops parsed foreign (second_IsProxy, tt)

abbrev key : String
key = "sk_0123456789abcdef0123456789abcdef"

abbrev mac : Mac
mac secret s = if s == key then 1 ∷ secret else 2 ∷ secret

abbrev verifier : ApiKeyVerifier
verifier = record { secret = 7 ∷ []; tags = mac (7 ∷ []) key ∷ [] }

made : new_api_key_verifier mac (ok (7 ∷ [])) (key ∷ []) ≡ ok verifier
unfolding new_api_key_verifier check_keys trim_space ◌==◌
made = refl

abbrev limiter : Limiter
limiter = record {
  policy = record { burst = 2; interval = 1000000000 };
  capacity = 2;
  ttl = 0;
  entries = [];
}

abbrev limiters : RateLimiters
limiters = record { client = limiter; credential = limiter; webhook = limiter; health = limiter }

-- An operation that counts its calls.
abbrev next : ℕ → Result Failure ℕ × ℕ
next n = (ok n, n)

apart : mac (7 ∷ []) "guess" ≡ mac (7 ∷ []) key → key ≡ "guess"
unfolding ◌==◌
apart h = absurd (cc h)

strict-guarded_example :
    strict
      (some limiters)
      "CreateOrder"
      (fingerprint mac verifier "guess")
      (some (valid mac verifier "guess"))
      5
      next
      0
    ≡ (err not_authenticated, (some limiters, 0))
unfolding public_operation ◌==◌
strict-guarded_example =
    strict-guarded next mac (ok (7 ∷ [])) (key ∷ []) verifier (some limiters) "CreateOrder" "guess"
      5 0 made (apart, tt) refl refl

abbrev visits : List (Visit × ℕ)
visits =
    (arrives class_business (some (v4 1)), 5)
    ∷ (calls "CreateOrder" key, 6)
    ∷ (calls "CreateOrder" "guess", 7)
    ∷ (arrives class_webhook none, 8)
    ∷ []

serve_all-IsKeyed_example : IsKeyed verifier (serve_all mac verifier (λ p. "net") limiters visits)
serve_all-IsKeyed_example =
    serve_all-IsKeyed mac verifier (λ p. "net") limiters visits
      (record { credentials = tt; webhooks = tt })

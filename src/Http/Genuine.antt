-- ===== src/Http/Genuine.antt =====
-- A client behind trusted proxies cannot choose the address it is counted under.
use mathlib.Core.List.{append_assoc, reverse-append, reverse-cons}
use payments_boilerplate.Base.{
  ◌≡◌, refl, ap, true, false, String, List, [], ◌∷◌, ◌++◌, reverse, some, All,
}
use payments_boilerplate.Http.Address.{
  Address, Network, Prefix, Resolver, Request, parse_hop, peer_address, forwarded_hops,
  trusted_proxy, walk, resolve,
}

-- What a proxy wrote of a peer that is a proxy too.
pub record IsProxy (n : Network) (trusted : List Prefix) (hop : String) : Type 0 where
  pub address : Address
  pub parsed : parse_hop n hop ≡ some address
  pub ours : trusted_proxy trusted address ≡ true

All-append : (P : String → Type 0) (xs ys : List String) → All P xs → All P ys → All P (xs ++ ys)
All-append P [] ys hx hy = hy
All-append P (x ∷ xs) ys (h, hx) hy = (h, All-append P xs ys hx hy)

All-reverse : (P : String → Type 0) (xs : List String) → All P xs → All P (reverse xs)
All-reverse P [] h = tt
All-reverse P (x ∷ xs) (h, hs) =
    rw (reverse-cons x xs) (All-append P (reverse xs) (x ∷ []) (All-reverse P xs hs) (h, tt))

reverse-hops :
    (forged : List String) (hop : String) (proxies : List String)
    → reverse (forged ++ (hop ∷ proxies)) ≡ reverse proxies ++ (hop ∷ reverse forged)
reverse-hops forged hop proxies =
    rw
      (
        reverse-append forged (hop ∷ proxies),
        reverse-cons hop proxies,
        append_assoc (reverse proxies) (hop ∷ []) (reverse forged),
      )
      refl

walk-genuine :
    (n : Network) (trusted : List Prefix) (peer a : Address) (hop : String)
    (proxies rest : List String)
    → All (IsProxy n trusted) proxies
    → parse_hop n hop ≡ some a
    → trusted_proxy trusted a ≡ false
    → walk n trusted peer (proxies ++ (hop ∷ rest)) ≡ a
unfolding walk
walk-genuine n trusted peer a hop [] rest ours parsed foreign = rw (walk, parsed, foreign) refl
walk-genuine n trusted peer a hop (p ∷ []) rest (h, hs) parsed foreign =
    rw (walk, h.parsed, h.ours, parsed, foreign) refl
walk-genuine n trusted peer a hop (p ∷ q ∷ ps) rest (h, hs) parsed foreign =
    rw (walk, h.parsed, h.ours) (walk-genuine n trusted peer a hop (q ∷ ps) rest hs parsed foreign)

-- The address that a trusted proxy saw is the client's, whatever the client wrote in front of it: if the
-- peer is a trusted proxy, and the hops end with one of an address outside the trusted networks and any
-- number of trusted proxies, then the request is counted under that address.
pub resolve-genuine :
    (n : Network) (r : Resolver) (q : Request) (peer a : Address) (forged : List String)
    (hop : String) (proxies : List String)
    → peer_address n q.remote_addr ≡ some peer
    → trusted_proxy r.trusted peer ≡ true
    → forwarded_hops q.forwarded_for ≡ forged ++ (hop ∷ proxies)
    → parse_hop n hop ≡ some a
    → trusted_proxy r.trusted a ≡ false
    → All (IsProxy n r.trusted) proxies
    → resolve n r q ≡ some a
unfolding resolve
resolve-genuine n r q peer a forged hop proxies from proxy hops parsed foreign ours =
    rw (resolve, from, proxy, hops, reverse-hops forged hop proxies)
      (ap some (
        walk-genuine n r.trusted peer a hop (reverse proxies) (reverse forged)
          (All-reverse (IsProxy n r.trusted) proxies ours) parsed foreign))

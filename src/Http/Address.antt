-- ===== src/Http/Address.antt =====
-- internal/transport/http/clientip.go: which address a request is counted under. What net and net/netip
-- read of a text are parameters; an address is a number of 32 or 128 bits, the latter with a zone.
use Prim.Native.Char.{Char, code}
use payments_boilerplate.Base.{
  ℕ, ◌-◌, ◌/◌, ◌%◌, ◌^◌, Bool, true, false, ◌&&◌, not, String, List, [], ◌∷◌, ◌++◌, map, reverse,
  Option, none, some, leb, eqb, ◌==◌, if◌then◌else◌, trim_space,
}

-- `netip.Addr`.
pub data Address : Type 0 where
  v4 : ℕ → Address
  v6 : ℕ → String → Address

-- `netip.Prefix`: an address without zone and a number of bits.
pub record Prefix : Type 0 where
  pub address : Address
  pub bits : ℕ

-- `Addr.Unmap` and `Addr.WithZone("")`.
unfoldable pub canonical : Address → Address
canonical (v4 n) = v4 n
canonical (v6 n zone) = if eqb (n / 2 ^ 32) 0xffff then v4 (n % 2 ^ 32) else v6 n ""

-- `Prefix.Contains`.
unfoldable pub contains : Prefix → Address → Bool
contains p a = elim p.address [
  | v4 m ↦ elim a [
    | v4 n ↦ leb p.bits 32 && eqb (m / 2 ^ (32 - p.bits)) (n / 2 ^ (32 - p.bits))
    | v6 n zone ↦ false
  ]
  | v6 m zone ↦ elim a [
    | v4 n ↦ false
    | v6 n zone' ↦
        leb p.bits 128 && ((zone' == "") && eqb (m / 2 ^ (128 - p.bits)) (n / 2 ^ (128 - p.bits)))
  ]
]

-- `net.SplitHostPort`, `netip.ParseAddr` and `netip.ParseAddrPort`.
pub record Network : Type 0 where
  pub split_host : String → Option String
  pub parse_addr : String → Option Address
  pub parse_addr_port : String → Option Address

pub record Resolver : Type 0 where
  pub trusted : List Prefix

-- What the resolver reads of a request: the peer and the values of X-Forwarded-For.
pub record Request : Type 0 where
  pub remote_addr : String
  pub forwarded_for : List String

abbrev or_else : Option Address → Option Address → Option Address
or_else (some a) b = some a
or_else none b = b

abbrev map_canonical : Option Address → Option Address
map_canonical none = none
map_canonical (some a) = some (canonical a)

-- `parseHop`.
unfoldable pub parse_hop : Network → String → Option Address
parse_hop n value =
    if trim_space value == ""
    then none
    else map_canonical
        (or_else (n.parse_addr (trim_space value)) (n.parse_addr_port (trim_space value)))

abbrev host_of : Option String → String → String
host_of (some host) remote = host
host_of none remote = remote

-- `peerAddress`.
unfoldable pub peer_address : Network → String → Option Address
unfolding parse_hop
peer_address n remote = parse_hop n (host_of (n.split_host remote) remote)

-- A piece of a text in front of the rest.
abbrev extend : Char → List String → List String
extend c [] = String.◌∷◌ c String.[] ∷ []
extend c (s ∷ ss) = String.◌∷◌ c s ∷ ss

-- `strings.Split(value, ",")`.
unfoldable pub split : String → List String
split String.[] = "" ∷ []
split (String.◌∷◌ c s) =
    let rest = split s in if eqb (code c) b',' then "" ∷ rest else extend c rest

-- `forwardedHops`.
unfoldable pub forwarded_hops : List String → List String
unfolding split
forwarded_hops [] = []
forwarded_hops (value ∷ values) = map trim_space (split value) ++ forwarded_hops values

-- `trustedProxy`.
unfoldable pub trusted_proxy : List Prefix → Address → Bool
trusted_proxy [] a = false
trusted_proxy (p ∷ ps) a = if contains p a then true else trusted_proxy ps a

abbrev is_last : List String → Bool
is_last [] = true
is_last (h ∷ hs) = false

-- The loop of `Resolve`, over the hops from the newest on.
unfoldable pub walk : Network → List Prefix → Address → List String → Address
unfolding parse_hop trusted_proxy
walk n trusted peer [] = peer
walk n trusted peer (h ∷ hs) =
    let rest = walk n trusted peer hs in
    elim (parse_hop n h) [
      | none ↦ peer
      | some a ↦ if not (trusted_proxy trusted a) then a else (if is_last hs then a else rest)
    ]

-- `Resolve`.
unfoldable pub resolve : Network → Resolver → Request → Option Address
unfolding peer_address trusted_proxy walk forwarded_hops
resolve n r q = elim (peer_address n q.remote_addr) [
  | none ↦ none
  | some peer ↦
      if not (trusted_proxy r.trusted peer)
      then some peer
      else some (walk n r.trusted peer (reverse (forwarded_hops q.forwarded_for)))
]

-- `ClientBucket`.
unfoldable pub client_bucket : Address → Prefix
client_bucket (v4 n) = record { address = v4 n; bits = 32 }
client_bucket (v6 n zone) = record { address = v6 (n - n % 2 ^ 64) ""; bits = 64 }

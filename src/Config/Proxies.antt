-- ===== src/Config/Proxies.antt =====
-- internal/platform/config/config.go: the networks of trusted proxies. `netip.ParsePrefix` is a parameter.
use payments_boilerplate.Base.{
  ◌-◌, ◌%◌, ◌^◌, String, List, [], ◌∷◌, Option, none, some, ◌==◌, if◌then◌else◌, trim_space, Result,
  ok, err, ◌>>=◌,
}
use payments_boilerplate.Http.Address.{v4, v6, Prefix}

-- The entry that is no CIDR block.
pub data ProxyError : Type 0 where
  not_a_block : String → ProxyError

-- `Prefix.Masked`, of a prefix that is valid: its bits are no more than the address has.
unfoldable pub masked : Prefix → Prefix
masked p = elim p.address [
  | v4 n ↦ record p { address = v4 (n - n % 2 ^ (32 - p.bits)) }
  | v6 n zone ↦ record p { address = v6 (n - n % 2 ^ (128 - p.bits)) zone }
]

-- `ParseTrustedProxies`.
unfoldable pub parse_trusted_proxies :
    (String → Option Prefix) → List String → Result ProxyError (List Prefix)
unfolding masked
parse_trusted_proxies parse_prefix [] = ok []
parse_trusted_proxies parse_prefix (value ∷ values) =
    let rest = parse_trusted_proxies parse_prefix values in
    if trim_space value == "" then rest else elim (parse_prefix (trim_space value)) [
      | none ↦ err (not_a_block (trim_space value))
      | some p ↦ rest >>= (λ ps. ok (masked p ∷ ps))
    ]

-- ===== src/NetGuard.antt =====
-- The guard against requests to internal addresses: net_guard.rs. The URL parser and the name
-- lookup are parameters.
pub mod Address
pub mod Blocks
pub mod Validation
mod Tests
use wa_rs.Common.{
  ℕ, Bool, true, false, not, ◌&&◌, ◌||◌, String, Option, none, some, List, [], ◌∷◌, ◌==◌, Result,
  ok, err, if◌then◌else◌, all, concat,
}
use wa_rs.NetGuard.Address.{IpAddr, is_globally_routable}

-- The `url` crate, the lookup of the runtime, and the printing of an address.
pub record Net : Type 1 where
  pub Url : Type 0
  pub parse : String → Result String Url
  pub scheme : Url → String
  pub host_str : Url → Option String
  pub port_or_known_default : Url → Option ℕ
  pub lookup_host : String → ℕ → Result String (List IpAddr)
  pub show : IpAddr → String

abbrev port_or : Option ℕ → ℕ → ℕ
port_or none d = d
port_or (some p) d = p

-- The address that a loop over the resolved ones stops at.
unfoldable pub first_internal : List IpAddr → Option IpAddr
first_internal [] = none
first_internal (ip ∷ ips) = if is_globally_routable ip then first_internal ips else some ip

-- The checks on the addresses of a host, with the text for an internal one.
unfoldable pub check_addrs : (IpAddr → String) → String → List IpAddr → Result String (List IpAddr)
unfolding first_internal
check_addrs refusal host [] =
    err (concat ("host '" ∷ host ∷ "' did not resolve to any address" ∷ []))
check_addrs refusal host (ip ∷ ips) = elim (first_internal (ip ∷ ips)) [
  | none ↦ ok (ip ∷ ips)
  | some bad ↦ err (refusal bad)
]

module _ (n : Net) where
  -- The lookup of `validate_public_url`, and what it makes of the answer.
  unfoldable pub resolve_public : n.Url → String → Result String n.Url
  unfolding check_addrs
  resolve_public url host = elim (n.lookup_host host (port_or (n.port_or_known_default url) 80)) [
    | err e ↦ err (concat ("failed to resolve host '" ∷ host ∷ "': " ∷ e ∷ []))
    | ok addrs ↦ elim (check_addrs refusal host addrs) [ err e ↦ err e | ok _ ↦ ok url ]
  ]
    where
      refusal : IpAddr → String
      refusal ip =
          concat
            ("'" ∷ host ∷ "' resolves to a non-public address (" ∷ n.show ip ∷ "), refusing" ∷ [])

  unfoldable pub validate_public_url : String → Result String n.Url
  unfolding resolve_public
  validate_public_url raw_url = elim (n.parse raw_url) [
    | err e ↦ err (concat ("invalid URL: " ∷ e ∷ []))
    | ok url ↦
        if (n.scheme url == "http") || (n.scheme url == "https")
        then (elim (n.host_str url) [
          | none ↦ err "URL has no host"
          | some host ↦ resolve_public url host
        ])
        else err (
            concat
              ("unsupported URL scheme '" ∷ n.scheme url ∷ "', only http/https are allowed" ∷ []))
  ]

  -- `SsrfSafeResolver::resolve`, which the client calls for each host name that it connects to.
  unfoldable pub resolve : String → Result String (List IpAddr)
  unfolding check_addrs
  resolve host = elim (n.lookup_host host 0) [
    | err e ↦ err e
    | ok addrs ↦ check_addrs refusal host addrs
  ]
    where
      refusal : IpAddr → String
      refusal ip =
          concat
            ("refusing to connect: '" ∷ host ∷ "' resolves to non-public address " ∷ n.show ip ∷ [])

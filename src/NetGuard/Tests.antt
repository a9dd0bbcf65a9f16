-- ===== src/NetGuard/Tests.antt =====
-- The guard at concrete addresses, and its theorems at inputs that meet their hypotheses.
use wa_rs.Common.{
  ℕ, ◌||◌, ◌≡◌, ◌↔◌, refl, true, false, not, String, some, [], ◌∷◌, ◌==◌, Result, ok, err, any,
  arith, if◌then◌else◌, concat,
}
use wa_rs.NetGuard.Address.{
  v4, v6, Ipv4Addr, Ipv6Addr, is_globally_routable, is_globally_routable_v4,
  is_globally_routable_v6, is_loopback_v6, is_unspecified_v6,
}
use wa_rs.NetGuard.{Net, validate_public_url, resolve, resolve_public, check_addrs, first_internal}
use wa_rs.NetGuard.Blocks.{
  special_v4, special_v6, in_block, to_bits, is_globally_routable_v4-special,
  is_globally_routable_v6-special,
}
use wa_rs.NetGuard.Validation.{Public, Accepted, resolve-Public, validate_public_url-Accepted}

abbrev ip4 : ℕ → ℕ → ℕ → ℕ → Ipv4Addr
ip4 a b c d = record { a = a; b = b; c = c; d = d }

abbrev public_dns : Ipv4Addr
public_dns = ip4 8 8 8 8

abbrev metadata : Ipv4Addr
metadata = ip4 169 254 169 254

-- `fe80::1`.
abbrev link : Ipv6Addr
link = record { s0 = 65152; s1 = 0; s2 = 0; s3 = 0; s4 = 0; s5 = 0; s6 = 0; s7 = 1 }

-- `::ffff:127.0.0.1`.
abbrev mapped_loopback : Ipv6Addr
mapped_loopback = record { s0 = 0; s1 = 0; s2 = 0; s3 = 0; s4 = 0; s5 = 65535; s6 = 32512; s7 = 1 }

guarded :
    (is_globally_routable (v4 public_dns) ≡ true)
    × (is_globally_routable (v4 metadata) ≡ false)
    × (is_globally_routable (v4 (ip4 100 127 0 1)) ≡ false)
    × (is_globally_routable (v6 link) ≡ false)
    × (is_globally_routable (v6 mapped_loopback) ≡ false)
unfolding is_globally_routable
guarded = (refl, refl, refl, refl, refl)

-- Every text is a URL of the host of the same text; the host `internal` has an internal address, too.
abbrev net : Net
net = record {
  Url = String;
  parse = λ s. ok s;
  scheme = λ u. "https";
  host_str = λ u. some u;
  port_or_known_default = λ u. some 443;
  lookup_host = λ host port.
      if host == "internal" then ok (v4 public_dns ∷ v4 metadata ∷ []) else ok (v4 public_dns ∷ []);
  show = λ ip. "address";
}

run_validate : String → Result String String
unfolding validate_public_url resolve_public check_addrs first_internal is_globally_routable concat
run_validate raw = validate_public_url net raw

validated : run_validate "example.org" ≡ ok "example.org"
unfolding run_validate
validated = refl

refused :
    run_validate "internal" ≡ err "'internal' resolves to a non-public address (address), refusing"
unfolding run_validate
refused = refl

is_globally_routable_v4-special_example :
    is_globally_routable_v4 metadata ≡ not (any (in_block 32 (to_bits metadata)) special_v4)
is_globally_routable_v4-special_example =
    is_globally_routable_v4-special metadata
      (record { a = omega arith; b = omega arith; c = omega arith; d = omega arith })

is_globally_routable_v6-special_example :
    is_globally_routable_v6 link
    ≡ not (is_loopback_v6 link || is_unspecified_v6 link || any (in_block 16 65152) special_v6)
is_globally_routable_v6-special_example = is_globally_routable_v6-special link (omega arith)

validate_public_url-Accepted_example : Accepted net "example.org" "example.org"
unfolding run_validate
validate_public_url-Accepted_example =
    validate_public_url-Accepted net "example.org" "example.org" refl

resolve-Public_example :
    (resolve net "example.org" ≡ ok (v4 public_dns ∷ []))
    ↔ ((net.lookup_host "example.org" 0 ≡ ok (v4 public_dns ∷ [])) × Public (v4 public_dns ∷ []))
resolve-Public_example = resolve-Public net "example.org" (v4 public_dns ∷ [])

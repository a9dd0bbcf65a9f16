-- ===== src/NetGuard/Validation.antt =====
-- What a host that passes the guard resolves to.
use wa_rs.Common.{
  ◌≡◌, ◌≢◌, refl, sym, ap, ◌∙◌, Bool, true, false, ◌||◌, String, Option, none, some, List, [], ◌∷◌,
  ◌==◌, Result, ok, err, All, Bool-cases, inl, inr, ◌↔◌,
}
use wa_rs.NetGuard.Address.{IpAddr, is_globally_routable}
use wa_rs.NetGuard.{
  Net, first_internal, check_addrs, resolve_public, validate_public_url, resolve, port_or,
}

-- A list of addresses that may be connected to.
pub record Public (ips : List IpAddr) : Type 0 where
  pub nonempty : ips ≢ []
  pub routable : All (λ ip. is_globally_routable ip ≡ true) ips

err_ne_ok : {A : Type 0} {e : String} {a : A} → err e ≡ ok a → ⊥
err_ne_ok h = cc

first_internal-none :
    (ips : List IpAddr) → first_internal ips ≡ none → All (λ ip. is_globally_routable ip ≡ true) ips
unfolding first_internal
first_internal-none [] e = tt
first_internal-none (ip ∷ ips) e = elim (Bool-cases (is_globally_routable ip)) [
  | inl good ↦ (good, first_internal-none ips (rw good at e))
  | inr bad ↦ absurd (some_ne_none (rw bad at e))
]
  where
    some_ne_none : some ip ≡ none → ⊥
    some_ne_none e = cc

none_internal :
    (ips : List IpAddr) → All (λ ip. is_globally_routable ip ≡ true) ips → first_internal ips ≡ none
unfolding first_internal
none_internal [] a = refl
none_internal (ip ∷ ips) (good, a) = rw good (none_internal ips a)

check_addrs-Public :
    (refusal : IpAddr → String) (host : String) (ips out : List IpAddr)
    → check_addrs refusal host ips ≡ ok out
    → (out ≡ ips) × Public ips
unfolding check_addrs
check_addrs-Public refusal host [] out e = cc
check_addrs-Public refusal host (ip ∷ ips) out e = go (first_internal (ip ∷ ips)) refl e
  where
    go :
        (o : Option IpAddr)
        → first_internal (ip ∷ ips) ≡ o
        → (elim o [ none ↦ ok (ip ∷ ips) | some bad ↦ err (refusal bad) ]) ≡ ok out
        → (out ≡ ip ∷ ips) × Public (ip ∷ ips)
    go none f e = (cc, record { nonempty = λ h. cc; routable = first_internal-none (ip ∷ ips) f })
    go (some bad) f e = cc

Public-check_addrs :
    (refusal : IpAddr → String) (host : String) (ips : List IpAddr)
    → Public ips
    → check_addrs refusal host ips ≡ ok ips
unfolding check_addrs
Public-check_addrs refusal host [] p = absurd (p.nonempty refl)
Public-check_addrs refusal host (ip ∷ ips) p =
    rw (none_internal (ip ∷ ips) p.routable, check_addrs) refl

module _ (n : Net) where
  -- The resolver of the client gives addresses to connect to exactly if the lookup gives them, there
  -- is at least one, and each of them passes the guard.
  pub resolve-Public :
      (host : String) (ips : List IpAddr)
      → (resolve n host ≡ ok ips) ↔ ((n.lookup_host host 0 ≡ ok ips) × Public ips)
  unfolding resolve
  resolve-Public host ips = (
    forth (n.lookup_host host 0) refl,
    λ (e, p). rw (e, resolve) (Public-check_addrs _ host ips p),
  )
    where
      forth :
          (r : Result String (List IpAddr))
          → n.lookup_host host 0 ≡ r
          → resolve n host ≡ ok ips
          → (n.lookup_host host 0 ≡ ok ips) × Public ips
      forth (err e) l h = absurd (err_ne_ok (rw (l, resolve) at h))
      forth (ok found) l h =
          let (same, p) = check_addrs-Public _ host found ips (rw (l, resolve) at h) in
          (l ∙ ap ok (sym same), rw same p)

  -- A URL that is accepted.
  pub record Accepted (raw : String) (url : n.Url) : Type 0 where
    pub parsed : n.parse raw ≡ ok url
    pub scheme : ((n.scheme url == "http") || (n.scheme url == "https")) ≡ true
    pub host : String
    pub named : n.host_str url ≡ some host
    pub ips : List IpAddr
    pub found : n.lookup_host host (port_or (n.port_or_known_default url) 80) ≡ ok ips
    pub public : Public ips

  checked :
      (raw host : String) (url out : n.Url) (refusal : IpAddr → String) (ips : List IpAddr)
      (x : Result String (List IpAddr))
      → n.parse raw ≡ ok url
      → ((n.scheme url == "http") || (n.scheme url == "https")) ≡ true
      → n.host_str url ≡ some host
      → n.lookup_host host (port_or (n.port_or_known_default url) 80) ≡ ok ips
      → check_addrs refusal host ips ≡ x
      → (elim x [ err e ↦ err e | ok _ ↦ ok url ]) ≡ ok out
      → Accepted raw out
  checked raw host url out refusal ips (err e) parsed scheme named l c h = cc
  checked raw host url out refusal ips (ok seen) parsed scheme named l c h =
      let same : url ≡ out = cc in
      let accepted : Accepted raw url = record {
        parsed = parsed;
        scheme = scheme;
        host = host;
        named = named;
        ips = ips;
        found = l;
        public = (check_addrs-Public refusal host ips seen c).1;
      } in
      rw same at accepted

  resolved :
      (raw host : String) (url out : n.Url)
      → n.parse raw ≡ ok url
      → ((n.scheme url == "http") || (n.scheme url == "https")) ≡ true
      → n.host_str url ≡ some host
      → resolve_public n url host ≡ ok out
      → Accepted raw out
  unfolding resolve_public
  resolved raw host url out parsed scheme named e =
      go (n.lookup_host host (port_or (n.port_or_known_default url) 80)) refl
    where
      go :
          (r : Result String (List IpAddr))
          → n.lookup_host host (port_or (n.port_or_known_default url) 80) ≡ r
          → Accepted raw out
      go (err m) l = absurd (err_ne_ok (rw (l, resolve_public) at e))
      go (ok ips) l =
          checked raw host url out _ ips _ parsed scheme named l refl (rw (l, resolve_public) at e)

  -- A URL that the guard accepts is an http or https URL with a host, for which the lookup gave at
  -- least one address, and each of them passes the guard.
  pub validate_public_url-Accepted :
      (raw : String) (url : n.Url) → validate_public_url n raw ≡ ok url → Accepted raw url
  unfolding validate_public_url
  validate_public_url-Accepted raw url e = go (n.parse raw) refl
    where
      with_host :
          (u : n.Url) (h : Option String)
          → n.parse raw ≡ ok u
          → ((n.scheme u == "http") || (n.scheme u == "https")) ≡ true
          → n.host_str u ≡ h
          → Accepted raw url
      with_host u none p q r = absurd (err_ne_ok (rw (p, q, r, validate_public_url) at e))
      with_host u (some host) p q r =
          resolved raw host u url p q r (rw (p, q, r, validate_public_url) at e)

      with_scheme :
          (u : n.Url) (b : Bool)
          → n.parse raw ≡ ok u
          → ((n.scheme u == "http") || (n.scheme u == "https")) ≡ b
          → Accepted raw url
      with_scheme u false p q = absurd (err_ne_ok (rw (p, q, validate_public_url) at e))
      with_scheme u true p q = with_host u (n.host_str u) p q refl

      go : (r : Result String n.Url) → n.parse raw ≡ r → Accepted raw url
      go (err m) p = absurd (err_ne_ok (rw (p, validate_public_url) at e))
      go (ok u) p = with_scheme u ((n.scheme u == "http") || (n.scheme u == "https")) p refl

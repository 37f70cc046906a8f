-- ===== src/Routing/Target/Canonical.antt =====
-- What the targets are that `ParseTarget` of internal/routing/routing.go makes.
use wg.Prelude.{
  ◌-◌, ◌≡◌, refl, ◌⊎◌, inl, inr, Bool, true, false, ◌||◌, Option, none, some, ltb, Bool-cases,
  Result, ok, ◌>>◌, fail_if, >>=-eq-ok, arith,
}
use wg.Text.{Text, Unicode, is_empty, trim_space, contains_rune}
use wg.Routing.Address.{Addr, v4, v6, Prefix, Netip, is_4in6, unmap, masked}
use wg.Routing.Address.Mapped.{masked-mapped}
use wg.Routing.Address.Masks.{IsMasked, masked_twice}
use wg.Routing.Target.Domain.{IsDomain, normalize_domain-IsDomain}
use wg.Routing.Target.{
  Target, RoutingError, invalid_target, canonical_prefix, normalize_domain, parse_target,
  parse_plain_target, parse_cidr_target, domain_target, ip_target, cidr_target,
}

-- A masked prefix, of an address that is no IPv4 address in an IPv6 one.
abbrev pub IsPlainMasked : Prefix → Type 0
IsPlainMasked p = IsMasked p × (is_4in6 p.addr ≡ false)

-- A well-formed domain, an address that is no IPv4 address in an IPv6 one, or a masked prefix of such
-- an address.
abbrev pub IsTarget : Netip → Target → Type 0
IsTarget net t =
    ((d : Text) × (t ≡ domain_target d) × IsDomain d)
    ⊎ ((a : Addr) × (t ≡ ip_target net a) × (is_4in6 a ≡ false))
    ⊎ ((p : Prefix) × (t ≡ cidr_target net p) × IsPlainMasked p)

pub unmap-is_4in6 : (a : Addr) → is_4in6 (unmap a) ≡ false
unfolding unmap
unmap-is_4in6 (v4 n) = refl
unmap-is_4in6 (v6 n zone) = ground arith

of_masked :
    (p q : Prefix)
    → is_4in6 p.addr ≡ false
    → ◌≡◌ {A = Result RoutingError Prefix} (ok (masked p)) (ok q)
    → IsPlainMasked q
of_masked p q plain h =
    let e : masked p ≡ q = cc in
    let whole : IsPlainMasked (masked p) = (masked_twice p, masked-mapped p plain) in rw e at whole

of_checked :
    (b : Bool) (p q : Prefix)
    → is_4in6 p.addr ≡ false
    → (fail_if b invalid_target >> ok (masked p)) ≡ ok q
    → IsPlainMasked q
of_checked true p q plain h = cc
of_checked false p q plain h = of_masked p q plain h

pub canonical_prefix-IsPlainMasked : (p q : Prefix) → canonical_prefix p ≡ ok q → IsPlainMasked q
unfolding canonical_prefix
canonical_prefix-IsPlainMasked p q h = elim (Bool-cases (is_4in6 p.addr)) [
  | inl mapped ↦
      of_checked (ltb p.bits 96 || ltb 128 p.bits)
        (record { addr = unmap p.addr; bits = p.bits - 96 }) q (unmap-is_4in6 p.addr)
        (rw mapped at h)
  | inr plain ↦ of_masked p q plain (rw plain at h)
]

parse_plain_target-IsTarget :
    (u : Unicode) (net : Netip) (value : Text) (o : Option Addr) (t : Target)
    → parse_plain_target u net value o ≡ ok t
    → IsTarget net t
parse_plain_target-IsTarget u net value none t h =
    let (d, e, out) = >>=-eq-ok (normalize_domain u value) _ h in
    inl (d, cc, normalize_domain-IsDomain u value d e)
parse_plain_target-IsTarget u net value (some a) t h = inr (inl (unmap a, cc, unmap-is_4in6 a))

parse_cidr_target-IsTarget :
    (net : Netip) (o : Option Prefix) (t : Target) → parse_cidr_target net o ≡ ok t → IsTarget net t
parse_cidr_target-IsTarget net none t h = cc
parse_cidr_target-IsTarget net (some p) t h =
    let (q, e, out) = >>=-eq-ok (canonical_prefix p) _ h in
    inr (inr (q, cc, canonical_prefix-IsPlainMasked p q e))

pub parse_target-IsTarget :
    (u : Unicode) (net : Netip) (raw : Text) (t : Target)
    → parse_target u net raw ≡ ok t
    → IsTarget net t
unfolding parse_target
parse_target-IsTarget u net raw t h =
    let value = trim_space raw in
    let (done, fine, out) = >>=-eq-ok (fail_if (is_empty value) invalid_target) _ h in
    elim (Bool-cases (contains_rune b'/' value)) [
      | inl slash ↦ parse_cidr_target-IsTarget net (net.parse_prefix value) t (rw slash at out)
      | inr plain ↦
          parse_plain_target-IsTarget u net value (net.parse_addr value) t (rw plain at out)
    ]

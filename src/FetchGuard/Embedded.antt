-- ===== src/FetchGuard/Embedded.antt =====
-- IPv6 forms that carry an IPv4 address: the guard of src/fetch_guard.rs judges the address inside.
use stophammer.Common.{ℕ, ◌+◌, ◌*◌, ◌≡◌, ap, false, ◌||◌, arith, if◌then◌else◌}
use stophammer.FetchGuard.Address.{
  Ipv4Addr, Ipv6Addr, v4, v6, IsOctets, embedded_ipv4, is_public_ipv4, is_public_ipv6, is_public_ip,
  is_unspecified_v6, is_loopback_v6, is_v4_mapped, is_v4_compatible, is_nat64,
}

-- `::ffff:a.b.c.d`, `::a.b.c.d` and `64:ff9b::a.b.c.d`.
abbrev pub with_ipv4 : ℕ → ℕ → ℕ → Ipv4Addr → Ipv6Addr
with_ipv4 s0 s1 s5 a = record {
  s0 = s0;
  s1 = s1;
  s2 = 0;
  s3 = 0;
  s4 = 0;
  s5 = s5;
  s6 = a.o0 * 256 + a.o1;
  s7 = a.o2 * 256 + a.o3;
}

abbrev pub mapped : Ipv4Addr → Ipv6Addr
mapped = with_ipv4 0 0 0xffff

abbrev pub nat64 : Ipv4Addr → Ipv6Addr
nat64 = with_ipv4 0x0064 0xff9b 0

abbrev pub compatible : Ipv4Addr → Ipv6Addr
compatible = with_ipv4 0 0 0

module _ (a : Ipv4Addr) (h : IsOctets a) where
  -- The embedded address is read back from any of the three forms.
  embedded_ipv4-with : (s0 s1 s5 : ℕ) → embedded_ipv4 (with_ipv4 s0 s1 s5 a) ≡ a
  unfolding embedded_ipv4
  embedded_ipv4-with s0 s1 s5 = ground arith

  -- An IPv4-mapped or a NAT64 address is public exactly when the IPv4 address inside is, and so is an
  -- IPv4-compatible one, except for `::` and `::1`, which are never public. The octets are bytes.
  pub is_public_ip-embedded :
      (is_public_ip (v6 (mapped a)) ≡ is_public_ip (v4 a))
      × (is_public_ip (v6 (nat64 a)) ≡ is_public_ip (v4 a))
      × (is_public_ip (v6 (compatible a)) ≡ (
          if is_unspecified_v6 (compatible a) || is_loopback_v6 (compatible a)
          then false
          else is_public_ip (v4 a)))
  unfolding is_public_ip is_public_ipv6 is_unspecified_v6 is_loopback_v6 is_v4_mapped
      is_v4_compatible is_nat64
  is_public_ip-embedded = (
    ap is_public_ipv4 (embedded_ipv4-with 0 0 0xffff),
    ap is_public_ipv4 (embedded_ipv4-with 0x0064 0xff9b 0),
    ap (λ b. if is_unspecified_v6 (compatible a) || is_loopback_v6 (compatible a) then false else b)
        (ap is_public_ipv4 (embedded_ipv4-with 0 0 0)),
  )

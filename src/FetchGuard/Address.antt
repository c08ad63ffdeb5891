-- ===== src/FetchGuard/Address.antt =====
-- The address test `is_public_ip` of src/fetch_guard.rs, over the octets of an `Ipv4Addr` and the
-- segments of an `Ipv6Addr`, with the tests of `std::net` that it calls.
use Prim.Native.Nat.{bit_and}
use stophammer.Common.{ℕ, ◌/◌, ◌%◌, ◌<◌, Bool, false, not, ◌&&◌, ◌||◌, leb, ◌==◌, if◌then◌else◌}

pub record Ipv4Addr : Type 0 where
  pub o0 : ℕ
  pub o1 : ℕ
  pub o2 : ℕ
  pub o3 : ℕ

pub record Ipv6Addr : Type 0 where
  pub s0 : ℕ
  pub s1 : ℕ
  pub s2 : ℕ
  pub s3 : ℕ
  pub s4 : ℕ
  pub s5 : ℕ
  pub s6 : ℕ
  pub s7 : ℕ

pub data IpAddr : Type 0 where
  v4 : Ipv4Addr → IpAddr
  v6 : Ipv6Addr → IpAddr

-- The octets are bytes, the segments 16-bit words.
pub record IsOctets (a : Ipv4Addr) : Type 0 where
  pub b0 : a.o0 < 256
  pub b1 : a.o1 < 256
  pub b2 : a.o2 < 256
  pub b3 : a.o3 < 256

-- `Ipv4Addr::is_loopback` and the other tests of `std::net::Ipv4Addr`.
unfoldable pub is_loopback : Ipv4Addr → Bool
is_loopback a = a.o0 == 127

unfoldable pub is_private : Ipv4Addr → Bool
is_private a =
    a.o0 == 10 || ((a.o0 == 172 && (leb 16 a.o1 && leb a.o1 31)) || (a.o0 == 192 && a.o1 == 168))

unfoldable pub is_link_local : Ipv4Addr → Bool
is_link_local a = a.o0 == 169 && a.o1 == 254

unfoldable pub is_broadcast : Ipv4Addr → Bool
is_broadcast a = a.o0 == 255 && (a.o1 == 255 && (a.o2 == 255 && a.o3 == 255))

unfoldable pub is_unspecified : Ipv4Addr → Bool
is_unspecified a = a.o0 == 0 && (a.o1 == 0 && (a.o2 == 0 && a.o3 == 0))

unfoldable pub is_multicast : Ipv4Addr → Bool
is_multicast a = leb 224 a.o0 && leb a.o0 239

unfoldable pub documentation : Ipv4Addr → Bool
documentation a =
    (a.o0 == 192 && (a.o1 == 0 && a.o2 == 2))
    || ((a.o0 == 198 && (a.o1 == 51 && a.o2 == 100)) || (a.o0 == 203 && (a.o1 == 0 && a.o2 == 113)))

unfoldable pub benchmark : Ipv4Addr → Bool
benchmark a = a.o0 == 198 && bit_and a.o1 0xFE == 18

unfoldable pub cgnat : Ipv4Addr → Bool
cgnat a = a.o0 == 100 && bit_and a.o1 0xC0 == 64

unfoldable pub is_public_ipv4 : Ipv4Addr → Bool
is_public_ipv4 a = not (
    is_loopback a
    || (is_private a
        || (is_link_local a
            || (is_broadcast a
                || (is_unspecified a
                    || (is_multicast a || (documentation a || (benchmark a || cgnat a))))))))

-- `u16::to_be_bytes` of the last two segments.
unfoldable pub embedded_ipv4 : Ipv6Addr → Ipv4Addr
embedded_ipv4 s = record { o0 = s.s6 / 256; o1 = s.s6 % 256; o2 = s.s7 / 256; o3 = s.s7 % 256 }

abbrev pub zeros_to_4 : Ipv6Addr → Bool
zeros_to_4 s = s.s0 == 0 && (s.s1 == 0 && (s.s2 == 0 && (s.s3 == 0 && s.s4 == 0)))

unfoldable pub is_unspecified_v6 : Ipv6Addr → Bool
is_unspecified_v6 s = zeros_to_4 s && (s.s5 == 0 && (s.s6 == 0 && s.s7 == 0))

unfoldable pub is_loopback_v6 : Ipv6Addr → Bool
is_loopback_v6 s = zeros_to_4 s && (s.s5 == 0 && (s.s6 == 0 && s.s7 == 1))

unfoldable pub is_v4_mapped : Ipv6Addr → Bool
is_v4_mapped s = zeros_to_4 s && s.s5 == 0xffff

unfoldable pub is_v4_compatible : Ipv6Addr → Bool
is_v4_compatible s = zeros_to_4 s && s.s5 == 0

unfoldable pub is_nat64 : Ipv6Addr → Bool
is_nat64 s =
    s.s0 == 0x0064 && (s.s1 == 0xff9b && (s.s2 == 0 && (s.s3 == 0 && (s.s4 == 0 && s.s5 == 0))))

unfoldable pub ula : Ipv6Addr → Bool
ula s = bit_and s.s0 0xFE00 == 0xFC00

unfoldable pub link_local_v6 : Ipv6Addr → Bool
link_local_v6 s = bit_and s.s0 0xFFC0 == 0xFE80

unfoldable pub multicast_v6 : Ipv6Addr → Bool
multicast_v6 s = bit_and s.s0 0xFF00 == 0xFF00

unfoldable pub documentation_v6 : Ipv6Addr → Bool
documentation_v6 s = s.s0 == 0x2001 && s.s1 == 0x0db8

unfoldable pub is_public_ipv6 : Ipv6Addr → Bool
is_public_ipv6 s =
    if is_unspecified_v6 s || is_loopback_v6 s
    then false
    else if is_v4_mapped s || (is_v4_compatible s || is_nat64 s)
    then is_public_ipv4 (embedded_ipv4 s)
    else not (ula s || (link_local_v6 s || (multicast_v6 s || documentation_v6 s)))

unfoldable pub is_public_ip : IpAddr → Bool
is_public_ip (v4 a) = is_public_ipv4 a
is_public_ip (v6 s) = is_public_ipv6 s

unfoldable pub is_private_ip : IpAddr → Bool
is_private_ip ip = not (is_public_ip ip)

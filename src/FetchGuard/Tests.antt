-- ===== src/FetchGuard/Tests.antt =====
-- Runs of the guard of src/fetch_guard.rs on concrete addresses and URLs.
use stophammer.Common.{
  ◌≡◌, ◌≢◌, refl, true, false, not, ◌&&◌, none, some, [], ◌∷◌, str_eq, any, is_some, All, arith,
  if◌then◌else◌,
}
use stophammer.FetchGuard.Address.{
  Ipv4Addr, Ipv6Addr, v4, v6, is_public_ip, is_public_ipv4, is_public_ipv6, is_unspecified_v6,
  is_loopback_v6, is_v4_mapped, is_v4_compatible, is_nat64, is_loopback, is_private, is_link_local,
  is_broadcast, is_unspecified, is_multicast, documentation, benchmark, cgnat, embedded_ipv4,
  is_private_ip,
}
use stophammer.FetchGuard.Ranges.{
  value, within, reserved_v4, reserved_v6, leading, is_public_ipv4-reserved,
  is_public_ipv6-reserved,
}
use stophammer.FetchGuard.Embedded.{mapped}
use stophammer.FetchGuard.Guard.{
  SocketAddr, Url, Net, ok, validate_feed_url, is_url_ssrf_safe, resolve_and_validate_url, is_http,
}
use stophammer.FetchGuard.Safety.{
  IsPublic, is_ok, validate_feed_url-IsPublic, is_url_ssrf_safe-resolve,
}
use stophammer.FetchGuard.Redirects.{World, fetch_with_pinned_redirects, body}
use stophammer.FetchGuard.Hops.{IsBounded, fetch_with_pinned_redirects-IsBounded}

abbrev metadata_ip : Ipv4Addr
metadata_ip = record { o0 = 169; o1 = 254; o2 = 169; o3 = 254 }

abbrev public_ip : Ipv4Addr
public_ip = record { o0 = 93; o1 = 184; o2 = 216; o3 = 34 }

abbrev public_v6 : Ipv6Addr
public_v6 = record { s0 = 0x2606; s1 = 0x2800; s2 = 0x220; s3 = 1; s4 = 0; s5 = 0; s6 = 0; s7 = 5 }

abbrev page : Url
page = record {
  scheme = "https";
  username = "";
  password = none;
  host_str = some "example.com";
  port_or_known_default = some 443;
  text = "https://example.com/feed.xml";
}

abbrev addr : SocketAddr
addr = record { ip = v4 public_ip; port = 443 }

abbrev net : Net
net = record {
  parse = λ s. if str_eq s "https://example.com/feed.xml" then some page else none;
  join = λ base s. some page;
  parse_ip = λ s. none;
  to_socket_addrs = λ host port. if str_eq host "example.com" then some (addr ∷ []) else none;
}

-- A server that redirects to the page and then answers with two bytes.
abbrev world : World
world = record {
  net = net;
  elapsed = λ hop. hop;
  send = λ req. some (record {
    status = if str_eq req.url "https://example.com/old" then 301 else 200;
    content_length = some 2;
    chunks = some (104 ∷ []) ∷ some (105 ∷ []) ∷ [];
    location = some (some "/feed.xml");
  });
  from_utf8 = λ bytes. some "hi";
}

-- What a run computes with.
runs : Unit {0}
unfolding fetch_with_pinned_redirects validate_feed_url is_url_ssrf_safe is_public_ip is_public_ipv4
    any is_loopback is_private is_link_local is_broadcast is_unspecified is_multicast documentation
    benchmark cgnat is_public_ipv6 is_unspecified_v6 is_loopback_v6 is_v4_mapped embedded_ipv4
    is_private_ip
runs = tt

-- An address, a URL and a fetch with one redirect, each as the code gives it.
guard_tests :
    (is_public_ip (v4 metadata_ip) ≡ false)
    × (is_public_ip (v4 public_ip) ≡ true)
    × (is_public_ip (v6 (mapped metadata_ip)) ≡ false)
    × (validate_feed_url net "https://example.com/feed.xml" ≡ ok (addr ∷ []))
    × (is_url_ssrf_safe net page ≡ true)
    × ((fetch_with_pinned_redirects world "https://example.com/feed.xml" "example.com"
          (addr ∷ [])
          5
          10).1
        ≡ body "hi")
unfolding runs
guard_tests = (refl, refl, refl, refl, refl, refl)

is_public_ipv4-reserved_example :
    is_public_ipv4 metadata_ip ≡ not (any (within (value metadata_ip)) reserved_v4)
is_public_ipv4-reserved_example =
    is_public_ipv4-reserved metadata_ip
      (record { b0 = omega arith; b1 = omega arith; b2 = omega arith; b3 = omega arith })

is_public_ipv6-reserved_example :
    is_public_ipv6 public_v6
    ≡ not (any (within (leading public_v6 (omega arith) (omega arith))) reserved_v6)
unfolding runs is_v4_compatible is_nat64
is_public_ipv6-reserved_example =
    is_public_ipv6-reserved public_v6 (omega arith) (omega arith) refl refl refl refl refl

validate_feed_url-IsPublic_example :
    ((addr ∷ []) ≢ [])
    × All IsPublic (addr ∷ [])
    × ((url : Url) × (net.parse "https://example.com/feed.xml" ≡ some url)
        × (is_http url.scheme ≡ true))
unfolding runs
validate_feed_url-IsPublic_example =
    validate_feed_url-IsPublic net "https://example.com/feed.xml" (addr ∷ []) refl

is_url_ssrf_safe-resolve_example : is_url_ssrf_safe net page ≡ (
    str_eq page.username ""
    && (not (is_some page.password) && is_ok (resolve_and_validate_url net page)))
is_url_ssrf_safe-resolve_example = is_url_ssrf_safe-resolve net page

fetch_with_pinned_redirects-IsBounded_example : IsBounded world 10 6 (
    fetch_with_pinned_redirects world "https://example.com/feed.xml" "example.com" (addr ∷ []) 5 10)
unfolding runs
fetch_with_pinned_redirects-IsBounded_example =
    fetch_with_pinned_redirects-IsBounded world 10 "https://example.com/feed.xml" "example.com"
      (addr ∷ []) 5 ((λ p. cc), (refl, tt))

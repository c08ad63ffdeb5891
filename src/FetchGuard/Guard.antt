-- ===== src/FetchGuard/Guard.antt =====
-- The URL checks of src/fetch_guard.rs. URL parsing (the `url` crate), IP literals and DNS are
-- functions of `Net`; an error text is the constructor of `GuardError` that names its case.
use stophammer.Common.{
  ℕ, Bool, true, false, not, ◌||◌, Option, none, some, List, [], ◌∷◌, String, str_eq, is_some,
  if◌then◌else◌,
}
use stophammer.FetchGuard.Address.{IpAddr, is_private_ip}

pub record SocketAddr : Type 0 where
  pub ip : IpAddr
  pub port : ℕ

-- What the code reads of a `url::Url`.
pub record Url : Type 0 where
  pub scheme : String
  pub username : String
  pub password : Option String
  pub host_str : Option String
  pub port_or_known_default : Option ℕ
  pub text : String

pub record Net : Type 0 where
  pub parse : String → Option Url
  pub join : Url → String → Option Url
  pub parse_ip : String → Option IpAddr
  pub to_socket_addrs : String → ℕ → Option (List SocketAddr)

pub data GuardError : Type 0 where
  invalid_url : GuardError
  disallowed_scheme : String → GuardError
  no_host : GuardError
  private_ip : IpAddr → GuardError
  dns_failed : String → GuardError
  no_addresses : String → GuardError
  node_url_rejected : String → GuardError

pub data Checked {ℓ} (A : Type ℓ) : Type ℓ where
  ok : A → Checked A
  err : GuardError → Checked A

infixl 5 ◌>>=◌
abbrev pub ◌>>=◌ {ℓ κ} : {A : Type ℓ} {B : Type κ} → Checked A → (A → Checked B) → Checked B
ok a >>= f = f a
err e >>= f = err e

abbrev pub or_err {ℓ} : {A : Type ℓ} → Option A → GuardError → Checked A
or_err none e = err e
or_err (some a) e = ok a

unfoldable pub port_or_443 : Option ℕ → ℕ
port_or_443 none = 443
port_or_443 (some p) = p

unfoldable pub is_http : String → Bool
is_http scheme = str_eq scheme "http" || str_eq scheme "https"

-- The loop over the resolved addresses: the first private one is the error.
unfoldable pub first_private : List SocketAddr → Option IpAddr
first_private [] = none
first_private (a ∷ rest) = if is_private_ip a.ip then some a.ip else first_private rest

abbrev pub unless_private : List SocketAddr → Option IpAddr → Checked (List SocketAddr)
unless_private l none = ok l
unless_private l (some ip) = err (private_ip ip)

unfoldable pub check_resolved : String → List SocketAddr → Checked (List SocketAddr)
unfolding first_private
check_resolved host [] = err (no_addresses host)
check_resolved host (a ∷ rest) = unless_private (a ∷ rest) (first_private (a ∷ rest))

-- The tests of `is_url_ssrf_safe` on what DNS gave: no address is unsafe, and so is a private one.
unfoldable pub all_public : List SocketAddr → Bool
all_public [] = true
all_public (a ∷ rest) = if is_private_ip a.ip then false else all_public rest

unfoldable pub resolved_safe : List SocketAddr → Bool
unfolding all_public
resolved_safe [] = false
resolved_safe (a ∷ rest) = all_public (a ∷ rest)

module _ (net : Net) where
  abbrev pub literal_or_lookup : String → ℕ → Option IpAddr → Checked (List SocketAddr)
  literal_or_lookup host port (some ip) =
      if is_private_ip ip then err (private_ip ip) else ok (record { ip = ip; port = port } ∷ [])
  literal_or_lookup host port none =
      or_err (net.to_socket_addrs host port) (dns_failed host) >>= check_resolved host

  -- The host of a URL: a literal address that is not private, or all the addresses that DNS gives.
  unfoldable pub resolve_host : String → ℕ → Checked (List SocketAddr)
  unfolding check_resolved
  resolve_host host port = literal_or_lookup host port (net.parse_ip host)

  unfoldable pub validate_feed_url : String → Checked (List SocketAddr)
  unfolding resolve_host is_http port_or_443
  validate_feed_url feed_url = do
    url ← or_err (net.parse feed_url) invalid_url
    if not (is_http url.scheme) then err (disallowed_scheme url.scheme) else do
      host ← or_err url.host_str no_host
      resolve_host host (port_or_443 url.port_or_known_default)

  unfoldable pub resolve_and_validate_url : Url → Checked (String × List SocketAddr)
  unfolding resolve_host is_http port_or_443
  resolve_and_validate_url url =
      if not (is_http url.scheme) then err (disallowed_scheme url.scheme) else do
        host ← or_err url.host_str no_host
        addrs ← resolve_host host (port_or_443 url.port_or_known_default)
        ok (host, addrs)

  abbrev pub lookup_safe : Option (List SocketAddr) → Bool
  lookup_safe none = false
  lookup_safe (some addrs) = resolved_safe addrs

  abbrev pub literal_or_lookup_safe : String → ℕ → Option IpAddr → Bool
  literal_or_lookup_safe host port (some ip) = not (is_private_ip ip)
  literal_or_lookup_safe host port none = lookup_safe (net.to_socket_addrs host port)

  unfoldable pub is_host_ssrf_safe : String → ℕ → Bool
  unfolding resolved_safe
  is_host_ssrf_safe host port = literal_or_lookup_safe host port (net.parse_ip host)

  unfoldable pub is_url_ssrf_safe : Url → Bool
  unfolding is_host_ssrf_safe is_http port_or_443
  is_url_ssrf_safe url =
      if not (is_http url.scheme)
      then false
      else if not (str_eq url.username "") || is_some url.password
      then false
      else elim url.host_str [
        | none ↦ false
        | some host ↦ is_host_ssrf_safe host (port_or_443 url.port_or_known_default)
      ]

  unfoldable pub validate_node_url : String → Checked (Unit {0})
  unfolding is_url_ssrf_safe
  validate_node_url node_url = do
    url ← or_err (net.parse node_url) invalid_url
    if not (is_url_ssrf_safe url) then err (node_url_rejected node_url) else ok tt

-- ===== src/FetchGuard/Safety.antt =====
-- What the URL checks of src/fetch_guard.rs let through.
use stophammer.Common.{
  ℕ, ◌≡◌, refl, sym, ◌≢◌, Bool, true, false, not, ◌&&◌, Option, none, some, List, [], ◌∷◌, String,
  str_eq, is_some, All, Bool-cases, Option-cases, inl, inr, arith, if◌then◌else◌,
}
use stophammer.FetchGuard.Address.{IpAddr, is_public_ip, is_private_ip}
use stophammer.FetchGuard.Guard.{
  SocketAddr, Url, Net, Checked, ok, err, or_err, ◌>>=◌, invalid_url, private_ip, dns_failed,
  first_private, check_resolved, literal_or_lookup, literal_or_lookup_safe, resolve_host, is_http,
  port_or_443, validate_feed_url, resolve_and_validate_url, all_public, resolved_safe,
  is_host_ssrf_safe, is_url_ssrf_safe,
}

abbrev pub IsPublic : SocketAddr → Type 0
IsPublic a = is_public_ip a.ip ≡ true

pub public_of_not_private : (ip : IpAddr) → is_private_ip ip ≡ false → is_public_ip ip ≡ true
unfolding is_private_ip
public_of_not_private ip h = ground arith

first_private-none : (l : List SocketAddr) → first_private l ≡ none → All IsPublic l
unfolding first_private
first_private-none [] h = tt
first_private-none (a ∷ rest) h = elim (Bool-cases (is_private_ip a.ip)) [
  | inl e ↦ absurd (ground arith)
  | inr e ↦ (public_of_not_private a.ip e, first_private-none rest (ground arith))
]

check_resolved-IsPublic :
    (host : String) (l m : List SocketAddr)
    → check_resolved host l ≡ ok m
    → (m ≡ l) × (m ≢ []) × All IsPublic m
unfolding check_resolved
check_resolved-IsPublic host [] m h = cc
check_resolved-IsPublic host (a ∷ rest) m h = elim (Option-cases (first_private (a ∷ rest))) [
  | inl e ↦
      let same : (a ∷ rest) ≡ m = ground arith in
      rw (← same) (refl, (λ p. cc), first_private-none (a ∷ rest) e)
  | inr (ip, e) ↦ absurd (ground arith)
]

bind-eq-ok {ℓ κ} :
    {A : Type ℓ} {B : Type κ} (m : Checked A) (f : A → Checked B) {b : B}
    → (m >>= f) ≡ ok b
    → (a : A) × (m ≡ ok a) × (f a ≡ ok b)
bind-eq-ok (ok a) f h = (a, refl, h)
bind-eq-ok (err e) f h = cc

literal-IsPublic :
    (ip : IpAddr) (port : ℕ) {l : List SocketAddr}
    → (if is_private_ip ip then err (private_ip ip) else ok (record { ip = ip; port = port } ∷ []))
      ≡ ok l
    → (l ≢ []) × All IsPublic l
literal-IsPublic ip port {l} h = elim (Bool-cases (is_private_ip ip)) [
  | inl e ↦ absurd (ground arith)
  | inr e ↦
      let same : (record { ip = ip; port = port } ∷ []) ≡ l = ground arith in
      rw (← same) ((λ p. cc), (public_of_not_private ip e, tt))
]

abbrev pub is_ok {ℓ} : {A : Type ℓ} → Checked A → Bool
is_ok (ok a) = true
is_ok (err e) = false

all_public-first_private : (l : List SocketAddr) → all_public l ≡ not (is_some (first_private l))
unfolding all_public first_private
all_public-first_private [] = refl
all_public-first_private (a ∷ rest) = ground (arith, all_public-first_private rest)

check_resolved-is_ok :
    (host : String) (l : List SocketAddr) → is_ok (check_resolved host l) ≡ resolved_safe l
unfolding check_resolved resolved_safe
check_resolved-is_ok host [] = refl
check_resolved-is_ok host (a ∷ rest) = elim (Option-cases (first_private (a ∷ rest))) [
  | inl e ↦ rw e (ground (arith, all_public-first_private (a ∷ rest)))
  | inr (ip, e) ↦ rw e (ground (arith, all_public-first_private (a ∷ rest)))
]

module _ (net : Net) where
  resolve_host-IsPublic :
      (host : String) (port : ℕ) (l : List SocketAddr)
      → resolve_host net host port ≡ ok l
      → (l ≢ []) × All IsPublic l
  unfolding resolve_host
  resolve_host-IsPublic host port l h = elim (Option-cases (net.parse_ip host)) [
    | inl e ↦
        let (addrs, _, checked) =
          bind-eq-ok (or_err (net.to_socket_addrs host port) (dns_failed host))
            (check_resolved host) (ground (arith, e)) in
        let (_, filled, public) = check_resolved-IsPublic host addrs l checked in (filled, public)
    | inr (ip, e) ↦ literal-IsPublic ip port (ground (arith, e))
  ]

  -- A feed URL that passes the check gives at least one address, each of them public. The scheme of
  -- the parsed URL is then http or https.
  pub validate_feed_url-IsPublic :
      (feed_url : String) (l : List SocketAddr)
      → validate_feed_url net feed_url ≡ ok l
      → (l ≢ [])
        × All IsPublic l
        × ((url : Url) × (net.parse feed_url ≡ some url) × (is_http url.scheme ≡ true))
  unfolding validate_feed_url
  validate_feed_url-IsPublic feed_url l h =
      let (url, parsed, checked) = bind-eq-ok (or_err (net.parse feed_url) invalid_url) _ h in
      elim (Option-cases url.host_str) [
        | inl e ↦ absurd (ground arith)
        | inr (host, e) ↦
            let (filled, public) =
              resolve_host-IsPublic host (port_or_443 url.port_or_known_default) l (ground arith) in
            (filled, public, (url, ground arith, ground arith))
      ]

  is_host_ssrf_safe-resolve_host :
      (host : String) (port : ℕ)
      → is_host_ssrf_safe net host port ≡ is_ok (resolve_host net host port)
  unfolding is_host_ssrf_safe resolve_host
  is_host_ssrf_safe-resolve_host host port =
      by_cases (net.parse_ip host) (net.to_socket_addrs host port) refl
    where
      by_cases :
          (o : Option IpAddr) (d : Option (List SocketAddr))
          → net.to_socket_addrs host port ≡ d
          → literal_or_lookup_safe net host port o ≡ is_ok (literal_or_lookup net host port o)
      by_cases (some ip) d e = ground arith
      by_cases none none e = rw e refl
      by_cases none (some addrs) e = rw e (sym (check_resolved-is_ok host addrs))

  -- The yes-or-no check of a redirect target and of a peer URL agrees with the check that resolves:
  -- a URL is safe exactly when it has no user name and no password and
  -- `resolve_and_validate_url` accepts it.
  pub is_url_ssrf_safe-resolve :
      (url : Url)
      → is_url_ssrf_safe net url ≡ (
          str_eq url.username ""
          && (not (is_some url.password) && is_ok (resolve_and_validate_url net url)))
  unfolding is_url_ssrf_safe resolve_and_validate_url
  is_url_ssrf_safe-resolve url = elim (Option-cases url.host_str) [
    | inl e ↦ rw e (ground arith)
    | inr (host, e) ↦ rw e (
        ground (arith, is_host_ssrf_safe-resolve_host host (port_or_443 url.port_or_known_default)))
  ]

  pub resolve_and_validate_url-IsPublic :
      (url : Url) (host : String) (l : List SocketAddr)
      → resolve_and_validate_url net url ≡ ok (host, l)
      → (l ≢ []) × All IsPublic l
  unfolding resolve_and_validate_url
  resolve_and_validate_url-IsPublic url host l h = elim (Option-cases url.host_str) [
    | inl e ↦ absurd (ground arith)
    | inr (host', e) ↦
        let (addrs, resolved, same) =
          bind-eq-ok {B = String × List SocketAddr}
            (resolve_host net host' (port_or_443 url.port_or_known_default))
            (λ addrs. ok (host', addrs)) {b = (host, l)} (ground (arith, e)) in
        let found : addrs ≡ l = ground arith in
        resolve_host-IsPublic host' (port_or_443 url.port_or_known_default) l
          (rw (← found) resolved)
  ]

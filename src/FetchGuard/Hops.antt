-- ===== src/FetchGuard/Hops.antt =====
-- The bounds of `fetch_with_pinned_redirects` in src/fetch_guard.rs, over every answer of a server.
use stophammer.Common.{
  ℕ, zero, suc, ◌+◌, ◌-◌, ◌≤◌, ◌<◌, ◌≡◌, ◌≢◌, refl, Option, none, some, List, [], ◌∷◌, ◌++◌, String,
  arith, All, length, ◌==◌, Bool-cases, inl, inr,
}
use stophammer.FetchGuard.Guard.{SocketAddr, Url, Checked, ok, err, resolve_and_validate_url}
use stophammer.FetchGuard.Safety.{IsPublic, resolve_and_validate_url-IsPublic}
use stophammer.FetchGuard.Redirects.{
  Response, Request, World, Outcome, body, failed, Hop, done, follow, FetchError, chain_timeout,
  hop_timeout, is_redirection, is_success, declared_too_large, decoded, finish_body, finish, Run,
  continue_with, read_body, pin, go_to, resolve_location, redirect_to, answer, fetch_from,
  fetch_with_pinned_redirects,
}

read_body-le :
    (limit : ℕ) (so_far : List ℕ) (chunks : List (Option (List ℕ))) (bytes : List ℕ)
    → length so_far ≤ limit
    → read_body limit so_far chunks ≡ some bytes
    → length bytes ≤ limit
unfolding read_body
read_body-le limit so_far [] bytes h e = ground arith
read_body-le limit so_far (none ∷ rest) bytes h e = cc
read_body-le limit so_far (some chunk ∷ rest) bytes h e =
    ground (arith, read_body-le limit (so_far ++ chunk) rest bytes)

-- A request to addresses of a host that the guard checked: at least one, each public.
abbrev pub IsPinned : List SocketAddr → Type 0
IsPinned l = (l ≢ []) × All IsPublic l

module _ (w : World) (limit : ℕ) where
  -- A body that is returned decodes at most `limit` bytes.
  abbrev pub FitsIn : Outcome → Type 0
  FitsIn (body text) = (bytes : List ℕ) × (w.from_utf8 bytes ≡ some text) × (length bytes ≤ limit)
  FitsIn (failed e) = Unit

  abbrev Follows : Hop → Type 0
  Follows (done o) = FitsIn o
  Follows (follow url host addrs) = IsPinned addrs

  finish_body-FitsIn :
      (e : FetchError) (b : Option (List ℕ))
      → ((bytes : List ℕ) → b ≡ some bytes → length bytes ≤ limit)
      → FitsIn (finish_body w e b)
  finish_body-FitsIn e none h = tt
  finish_body-FitsIn e (some bytes) h = by_cases (w.from_utf8 bytes) refl
    where
      by_cases : (d : Option String) → w.from_utf8 bytes ≡ d → FitsIn (decoded d)
      by_cases none _ = tt
      by_cases (some text) p = (bytes, p, h bytes refl)

  finish-FitsIn : (resp : Response) → FitsIn (finish w limit resp)
  unfolding finish
  finish-FitsIn resp = elim (Bool-cases (is_success resp.status)) [
    | inr e ↦ rw e tt
    | inl e ↦ rw e (elim (Bool-cases (declared_too_large limit resp.content_length)) [
      | inl big ↦ rw big tt
      | inr fits ↦ rw fits (
          finish_body-FitsIn _ _ λ bytes p. read_body-le limit [] resp.chunks bytes (omega arith) p)
    ])
  ]

  go_to-Follows : (o : Option Url) → Follows (go_to w o)
  go_to-Follows none = tt
  go_to-Follows (some next) = by_cases (resolve_and_validate_url w.net next) refl
    where
      by_cases :
          (r : Checked (String × List SocketAddr))
          → resolve_and_validate_url w.net next ≡ r
          → Follows (pin w next r)
      by_cases (ok (host, addrs)) e = resolve_and_validate_url-IsPublic w.net next host addrs e
      by_cases (err e) _ = tt

  resolve_location-Follows :
      (base : Option Url) (loc : String) → Follows (resolve_location w base loc)
  resolve_location-Follows none loc = tt
  resolve_location-Follows (some base) loc = go_to-Follows (w.net.join base loc)

  redirect_to-Follows :
      (current : String) (loc : Option (Option String)) → Follows (redirect_to w current loc)
  redirect_to-Follows current none = tt
  redirect_to-Follows current (some none) = tt
  redirect_to-Follows current (some (some loc)) = resolve_location-Follows (w.net.parse current) loc

  answer-Follows :
      (max_redirects hop : ℕ) (current : String) (r : Option Response)
      → Follows (answer w max_redirects limit hop current r)
  answer-Follows max_redirects hop current none = tt
  answer-Follows max_redirects hop current (some resp) =
      elim (Bool-cases (is_redirection resp.status)) [
        | inr e ↦ rw e (finish-FitsIn resp)
        | inl e ↦ rw e (elim (Bool-cases (hop == max_redirects)) [
          | inl last ↦ rw last tt
          | inr more ↦ rw more (redirect_to-Follows current resp.location)
        ])
      ]

  abbrev IsGuarded : Request → Type 0
  IsGuarded r = IsPinned r.addrs × (r.timeout ≤ hop_timeout) × (0 < r.timeout)

  -- What a run may do within a number of rounds.
  abbrev pub IsBounded : ℕ → Run w → Type 0
  IsBounded rounds run = (length run.0 ≤ rounds) × All IsGuarded run.0 × FitsIn run.1

  continue_with-IsBounded :
      (rounds : ℕ) (req : Request) (next : String → String → List SocketAddr → Run w) (hop : Hop)
      → ((u h : String) (a : List SocketAddr) → IsPinned a → IsBounded rounds (next u h a))
      → IsGuarded req
      → Follows hop
      → IsBounded (suc rounds) (continue_with w req next hop)
  continue_with-IsBounded rounds req next (done o) rest g f = (omega arith, (g, tt), f)
  continue_with-IsBounded rounds req next (follow u h a) rest g f =
      let (count, guarded, fits) = rest u h a f in (omega arith, (g, guarded), fits)

  fetch_from-IsBounded :
      (max_redirects rounds hop : ℕ) (url host : String) (addrs : List SocketAddr)
      → IsPinned addrs
      → IsBounded rounds (fetch_from w max_redirects limit rounds hop url host addrs)
  unfolding fetch_from
  fetch_from-IsBounded max_redirects zero hop url host addrs p = (omega arith, tt, tt)
  fetch_from-IsBounded max_redirects (suc rounds) hop url host addrs p =
      elim (Bool-cases (chain_timeout - w.elapsed hop == 0)) [
        | inl over ↦ rw over (omega arith, tt, tt)
        | inr left ↦ rw left (
            continue_with-IsBounded rounds _ _ _
              (λ u h a q. fetch_from-IsBounded max_redirects rounds (hop + 1) u h a q)
              (p, omega arith, ground arith) (answer-Follows max_redirects hop url _))
      ]

  -- A fetch from addresses that are public sends at most `max_redirects + 1` requests, each of them to
  -- at least one address and to public ones alone, and with a timeout of at most ten seconds. A body
  -- that it returns decodes at most `limit` bytes.
  pub fetch_with_pinned_redirects-IsBounded :
      (url host : String) (addrs : List SocketAddr) (max_redirects : ℕ)
      → IsPinned addrs
      → IsBounded
          (max_redirects + 1)
          (fetch_with_pinned_redirects w url host addrs max_redirects limit)
  unfolding fetch_with_pinned_redirects
  fetch_with_pinned_redirects-IsBounded url host addrs max_redirects p =
      fetch_from-IsBounded max_redirects (max_redirects + 1) 0 url host addrs p

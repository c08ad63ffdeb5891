-- ===== src/FetchGuard/Redirects.antt =====
-- `fetch_with_pinned_redirects` of src/fetch_guard.rs: one request per hop, to addresses that the
-- guard resolved. The HTTP client, the clock and UTF-8 decoding are functions of `World`; the result
-- carries the requests that were sent, in order.
use stophammer.Common.{
  ℕ, zero, suc, ◌+◌, ◌-◌, ◌*◌, ◌^◌, Bool, false, not, ◌&&◌, Option, none, some, List, [], ◌∷◌, ◌++◌,
  String, leb, ltb, ◌==◌, length, min, if◌then◌else◌,
}
use stophammer.FetchGuard.Guard.{
  SocketAddr, Url, Net, GuardError, Checked, ok, err, resolve_and_validate_url,
}

-- `location` is `none` without the header, and `some none` where its bytes are no text. A chunk is
-- `none` where the stream fails.
pub record Response : Type 0 where
  pub status : ℕ
  pub content_length : Option ℕ
  pub chunks : List (Option (List ℕ))
  pub location : Option (Option String)

pub record Request : Type 0 where
  pub url : String
  pub hostname : String
  pub addrs : List SocketAddr
  pub timeout : ℕ

-- `elapsed hop` is the time since the start, in nanoseconds, when the loop begins that hop.
pub record World : Type 0 where
  pub net : Net
  pub elapsed : ℕ → ℕ
  pub send : Request → Option Response
  pub from_utf8 : List ℕ → Option String

pub data FetchError : Type 0 where
  timed_out fetch_failed too_large body_exceeds chunk_failed not_utf8 too_many_redirects :
      FetchError
  missing_location invalid_location invalid_current_url invalid_redirect : FetchError
  http_status : ℕ → FetchError
  redirect_blocked : GuardError → FetchError

pub data Outcome : Type 0 where
  body : String → Outcome
  failed : FetchError → Outcome

pub data Hop : Type 0 where
  done : Outcome → Hop
  follow : String → String → List SocketAddr → Hop

abbrev pub chain_timeout : ℕ
chain_timeout = 30 * 10 ^ 9

abbrev pub hop_timeout : ℕ
hop_timeout = 10 * 10 ^ 9

unfoldable pub is_redirection : ℕ → Bool
is_redirection status = leb 300 status && ltb status 400

unfoldable pub is_success : ℕ → Bool
is_success status = leb 200 status && ltb status 300

-- The loop over the chunks: the limit is tested after each one.
unfoldable pub read_body : ℕ → List ℕ → List (Option (List ℕ)) → Option (List ℕ)
read_body limit so_far [] = some so_far
read_body limit so_far (none ∷ rest) = none
read_body limit so_far (some chunk ∷ rest) =
    let grown = read_body limit (so_far ++ chunk) rest in
    if ltb limit (length (so_far ++ chunk)) then none else grown

abbrev pub declared_too_large : ℕ → Option ℕ → Bool
declared_too_large limit none = false
declared_too_large limit (some cl) = ltb limit cl

-- Which of the two errors of the body loop comes first.
unfoldable pub body_error : ℕ → List ℕ → List (Option (List ℕ)) → FetchError
body_error limit so_far [] = body_exceeds
body_error limit so_far (none ∷ rest) = chunk_failed
body_error limit so_far (some chunk ∷ rest) =
    let later = body_error limit (so_far ++ chunk) rest in
    if ltb limit (length (so_far ++ chunk)) then body_exceeds else later

abbrev pub decoded : Option String → Outcome
decoded none = failed not_utf8
decoded (some text) = body text

module _ (w : World) where
  abbrev pub finish_body : FetchError → Option (List ℕ) → Outcome
  finish_body e none = failed e
  finish_body e (some bytes) = decoded (w.from_utf8 bytes)

  -- A response that is no redirect.
  unfoldable pub finish : ℕ → Response → Outcome
  unfolding read_body body_error is_success
  finish limit resp =
      if not (is_success resp.status)
      then failed (http_status resp.status)
      else if declared_too_large limit resp.content_length
      then failed too_large
      else finish_body (body_error limit [] resp.chunks) (read_body limit [] resp.chunks)

  abbrev pub pin : Url → Checked (String × List SocketAddr) → Hop
  pin next (ok (host, addrs)) = follow next.text host addrs
  pin next (err e) = done (failed (redirect_blocked e))

  abbrev pub go_to : Option Url → Hop
  go_to none = done (failed invalid_redirect)
  go_to (some next) = pin next (resolve_and_validate_url w.net next)

  abbrev pub resolve_location : Option Url → String → Hop
  resolve_location none location = done (failed invalid_current_url)
  resolve_location (some base) location = go_to (w.net.join base location)

  abbrev pub redirect_to : String → Option (Option String) → Hop
  redirect_to current none = done (failed missing_location)
  redirect_to current (some none) = done (failed invalid_location)
  redirect_to current (some (some location)) = resolve_location (w.net.parse current) location

  -- What one response leads to.
  abbrev pub answer : ℕ → ℕ → ℕ → String → Option Response → Hop
  answer max_redirects limit hop current none = done (failed fetch_failed)
  answer max_redirects limit hop current (some resp) =
      if not (is_redirection resp.status)
      then done (finish limit resp)
      else if hop == max_redirects
      then done (failed too_many_redirects)
      else redirect_to current resp.location

  abbrev pub Run : Type 0
  Run = List Request × Outcome

  -- One request was sent; `next` is the rest of the loop.
  abbrev pub continue_with : Request → (String → String → List SocketAddr → Run) → Hop → Run
  continue_with req next (done o) = (req ∷ [], o)
  continue_with req next (follow url host addrs) =
      (req ∷ (next url host addrs).0, (next url host addrs).1)

  -- `for hop in 0..=max_redirects`, with the rounds that are left.
  unfoldable pub fetch_from : ℕ → ℕ → ℕ → ℕ → String → String → List SocketAddr → Run
  fetch_from max_redirects limit zero hop url host addrs = ([], failed too_many_redirects)
  fetch_from max_redirects limit (suc rounds) hop url host addrs =
      let remaining = chain_timeout - w.elapsed hop in
      let req : Request = record {
        url = url;
        hostname = host;
        addrs = addrs;
        timeout = min remaining hop_timeout;
      } in
      if remaining == 0
      then ([], failed timed_out)
      else continue_with req (λ u h a. fetch_from max_redirects limit rounds (hop + 1) u h a)
          (answer max_redirects limit hop url (w.send req))

  unfoldable pub fetch_with_pinned_redirects : String → String → List SocketAddr → ℕ → ℕ → Run
  unfolding fetch_from is_redirection finish
  fetch_with_pinned_redirects url host addrs max_redirects limit =
      fetch_from max_redirects limit (max_redirects + 1) 0 url host addrs

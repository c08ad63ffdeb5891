-- ===== src/Peers/Failures.antt =====
-- The failures that one push adds, and what a registration rests on (src/api.rs).
use stophammer.Common.{
  ℕ, suc, ◌^◌, ◌≤◌, ◌<◌, ◌≡◌, ◌⊎◌, inl, inr, Bool-cases, ltb, refl, ap, subst, ◌∙◌, Bool, true,
  false, not, Option, none, some, String, eq_iff, arith, if◌then◌else◌,
}
use stophammer.Common.Int.{
  ℤ, pos, negsuc, pos_part, neg_part, ◌+ℤ◌, ◌-ℤ◌, ltb_ℤ, sub_i64, wrap_i64, wrap_i64-eq,
}
use stophammer.Common.Keyed.{find, map_row, find-put, find-update}
use stophammer.FetchGuard.Guard.{Net, Checked, ok, err, validate_node_url}
use stophammer.Peers.State.{PeerNode, PushState, with_failures, increment_peer_failures}
use stophammer.Peers.Push.{
  Answer, success_status, failures_of, handle_push_failure, reported_rejections, attempts,
  push_to_peer,
}
use stophammer.Peers.Register.{
  RegisterRequest, Registered, registered, bad_request, forbidden, unprocessable, bad_target,
  stored, after_url, with_signature, handle_sync_register, sync_register_max_skew_secs, abs_i64,
}

find-increment :
    (s : PushState) (k : String) (p : PeerNode)
    → find k s.peers ≡ some p
    → find k (handle_push_failure s k).peers
      ≡ some (with_failures (p.consecutive_failures +ℤ pos 1) p)
unfolding handle_push_failure increment_peer_failures
find-increment s k p row =
    find-update _ k k s.peers
    ∙ ap (λ b. if b then map_row more (find k s.peers) else find k s.peers) ((eq_iff k k).1 refl)
    ∙ ap (map_row more) row
  where
    more : PeerNode → PeerNode
    more q = with_failures (q.consecutive_failures +ℤ pos 1) q

-- A push that a peer answers with a 2xx status and rejected events adds two failures to the peer, not
-- one. The peer has a row.
pub push_to_peer-counts_twice :
    (now : ℤ) (answers : ℕ → Answer) (s : PushState) (k : String) (p : PeerNode) (rejected : ℕ)
    → find k s.peers ≡ some p
    → answers 0 ≡ success_status (some (suc rejected))
    → failures_of (find k (push_to_peer now true answers s k).peers)
      ≡ ((p.consecutive_failures +ℤ pos 1) +ℤ pos 1)
unfolding push_to_peer attempts
push_to_peer-counts_twice now answers s k p rejected row first =
    let some_rejected : reported_rejections (some (suc rejected)) ≡ true = ground arith in
    let once = find-increment s k p row in
    let twice =
      find-increment (handle_push_failure s k) k (with_failures (p.consecutive_failures +ℤ pos 1) p)
        once in
    rw (first, some_rejected) (ap failures_of twice)

abs_of_negsuc : (n : ℕ) → suc n < 2 ^ 63 → abs_i64 (negsuc n) ≡ pos (suc n)
unfolding sub_i64 ◌-ℤ◌ wrap_i64
abs_of_negsuc n h = ground (arith, h)

-- What the test on the wrapped difference says of the difference itself.
age_lem :
    (d : ℤ)
    → ltb_ℤ (pos 600) (abs_i64 (wrap_i64 d)) ≡ false
    → ((pos_part d ≤ 600) × (neg_part d ≤ 600)) ⊎ ((2 ^ 63 ≤ pos_part d) ⊎ (2 ^ 63 ≤ neg_part d))
age_lem (pos n) e = elim (Bool-cases (ltb n (2 ^ 63))) [
  | inl fits ↦
      let same : wrap_i64 (pos n) ≡ pos n =
        wrap_i64-eq (pos n) (omega arith, ground (arith, fits)) in
      let small : ltb_ℤ (pos 600) (abs_i64 (pos n)) ≡ false =
        subst (λ x. ltb_ℤ (pos 600) (abs_i64 x) ≡ false) same e in
      inl (ground (arith, small), omega arith)
  | inr wide ↦ inr (inl (ground (arith, wide)))
]
age_lem (negsuc n) e = elim (Bool-cases (ltb (suc n) (2 ^ 63))) [
  | inl fits ↦
      let same : wrap_i64 (negsuc n) ≡ negsuc n =
        wrap_i64-eq (negsuc n) (ground (arith, fits), omega arith) in
      let small : ltb_ℤ (pos 600) (pos (suc n)) ≡ false =
        subst (λ x. ltb_ℤ (pos 600) x ≡ false) (abs_of_negsuc n (ground (arith, fits)))
          (subst (λ x. ltb_ℤ (pos 600) (abs_i64 x) ≡ false) same e) in
      inl (omega arith, ground (arith, small))
  | inr wide ↦ inr (inr (ground (arith, wide)))
]

module _ (net : Net) (verify : String → String → ℤ → String → Bool)
    (answers : String → String → Bool) (now : ℤ) (s : PushState) (req : RegisterRequest) where
  -- A time within ten minutes of now, or one whose difference from now does not fit the abs of an i64.
  abbrev pub IsRecent : ℤ → Type 0
  IsRecent signed_at =
      ((pos_part (now -ℤ signed_at) ≤ 600) × (neg_part (now -ℤ signed_at) ≤ 600))
      ⊎ ((2 ^ 63 ≤ pos_part (now -ℤ signed_at)) ⊎ (2 ^ 63 ≤ neg_part (now -ℤ signed_at)))

  abbrev IsSigned : Type 0
  IsSigned =
      (signed_at : ℤ) × (signature : String) × (req.signed_at ≡ some signed_at)
      × (req.signature ≡ some signature)
      × IsRecent signed_at
      × (verify req.node_pubkey req.node_url signed_at signature ≡ true)

  abbrev pub IsChecked : PushState × Registered → Type 0
  IsChecked (t, registered) =
      IsSigned
      × (validate_node_url net req.node_url ≡ ok tt)
      × (answers req.node_url req.node_pubkey ≡ true)
      × (find req.node_pubkey t.push_subscribers ≡ some req.node_url)
  IsChecked (t, bad_request) = t ≡ s
  IsChecked (t, forbidden) = t ≡ s
  IsChecked (t, unprocessable) = t ≡ s
  IsChecked (t, bad_target) = t ≡ s

  by_answer :
      (b : Bool)
      → answers req.node_url req.node_pubkey ≡ b
      → IsSigned
      → validate_node_url net req.node_url ≡ ok tt
      → IsChecked (if b then (stored net verify answers now s req, registered) else (s, bad_target))
  by_answer true e signed url = (
    signed,
    url,
    e,
    find-put req.node_pubkey req.node_pubkey req.node_url s.push_subscribers
        ∙ ap (λ b. if b then some req.node_url else find req.node_pubkey s.push_subscribers)
            ((eq_iff req.node_pubkey req.node_pubkey).1 refl),
  )
  by_answer false e signed url = refl

  by_url :
      (c : Checked (Unit {0}))
      → validate_node_url net req.node_url ≡ c
      → IsSigned
      → IsChecked (after_url net verify answers now s req c)
  by_url (err x) e signed = refl
  by_url (ok u) e signed = by_answer (answers req.node_url req.node_pubkey) refl signed e

  age_of :
      (at : ℤ) → ltb_ℤ sync_register_max_skew_secs (abs_i64 (sub_i64 now at)) ≡ false → IsRecent at
  unfolding wrap_i64 sub_i64
  age_of at e = age_lem (now -ℤ at) e

  by_tests :
      (at : ℤ) (sig : String) (skewed signed : Bool)
      → req.signed_at ≡ some at
      → req.signature ≡ some sig
      → ltb_ℤ sync_register_max_skew_secs (abs_i64 (sub_i64 now at)) ≡ skewed
      → verify req.node_pubkey req.node_url at sig ≡ signed
      → IsChecked (
          if skewed
          then (s, bad_request)
          else if not signed
          then (s, forbidden)
          else after_url net verify answers now s req (validate_node_url net req.node_url))
  by_tests at sig true signed ea es ek ev = refl
  by_tests at sig false false ea es ek ev = refl
  by_tests at sig false true ea es ek ev =
      by_url (validate_node_url net req.node_url) refl (at, sig, ea, es, age_of at ek, ev)

  by_fields :
      (at : Option ℤ) (sig : Option String)
      → req.signed_at ≡ at
      → req.signature ≡ sig
      → IsChecked (with_signature net verify answers now s req at sig)
  by_fields none sig ea es = refl
  by_fields (some at) none ea es = refl
  by_fields (some at) (some sig) ea es =
      by_tests at sig (ltb_ℤ sync_register_max_skew_secs (abs_i64 (sub_i64 now at)))
        (verify req.node_pubkey req.node_url at sig) ea es refl refl

  -- A registration is stored only where the request carries a signature that holds and a time that lies
  -- within ten minutes of now or 2^63 seconds and more away from it, the URL passes the guard and the
  -- target answers with the key; the peer is then in the cache. Every refusal leaves the peers and the
  -- cache as they were.
  pub handle_sync_register-IsChecked : IsChecked (handle_sync_register net verify answers now s req)
  unfolding handle_sync_register
  handle_sync_register-IsChecked = by_fields req.signed_at req.signature refl refl

-- ===== src/Peers/Cache.antt =====
-- The push cache of the primary against the table of peers (src/api.rs, src/db.rs).
use stophammer.Common.{
  ℕ, ◌≡◌, refl, sym, ap, subst, ◌∙◌, Bool, true, false, not, Option, none, some, String, str_eq,
  eq_iff, Bool-cases, ◌⊎◌, inl, inr, arith, if◌then◌else◌,
}
use stophammer.Common.Int.{ℤ, pos, ◌+ℤ◌, ◌<ℤ◌, ltb_ℤ, leb_ℤ, sub_i64}
use stophammer.Common.Keyed.{find, put, remove, update, map_row, find-put, find-remove, find-update}
use stophammer.FetchGuard.Guard.{Net, Checked, ok, err, validate_node_url}
use stophammer.Peers.State.{
  PeerNode, PushState, upserted, upsert_peer_node, with_failures, record_push_success,
  increment_peer_failures, reset_peer_failures,
}
use stophammer.Peers.Push.{
  Answer, Delivery, delivered, with_rejections, gave_up, push_eviction_threshold, failures_of,
  handle_push_failure, attempts, push_max_attempts, settle, push_to_peer,
}
use stophammer.Peers.Register.{
  RegisterRequest, Registered, stored, after_url, with_signature, handle_sync_register,
  sync_register_max_skew_secs, abs_i64, registered, bad_request, forbidden, unprocessable,
  bad_target,
}

-- A cached URL is the one of a peer that has fewer than ten failures in a row.
abbrev pub Agrees : Option String → Option PeerNode → Type 0
Agrees none p = Unit
Agrees (some url) none = ⊥
Agrees (some url) (some p) = (p.node_url ≡ url) × (p.consecutive_failures <ℤ pos 10)

abbrev pub IsCached : PushState → Type 0
IsCached s = (k : String) → Agrees (find k s.push_subscribers) (find k s.peers)

-- A row that changed in a way that keeps the URL and leaves few failures.
Agrees-map :
    (f : PeerNode → PeerNode) (a : Option String) (b : Option PeerNode)
    → ((p : PeerNode) → (f p).node_url ≡ p.node_url)
    → ((p : PeerNode) → b ≡ some p → (f p).consecutive_failures <ℤ pos 10)
    → Agrees a b
    → Agrees a (map_row f b)
Agrees-map f none b url few h = tt
Agrees-map f (some u) none url few h = h
Agrees-map f (some u) (some p) url few h = (url p ∙ h.0, few p refl)

differ : {b : Bool} → b ≡ true → b ≡ false → ⊥
differ {b} p q = cc

below : (a b : ℤ) → a ≡ b → leb_ℤ push_eviction_threshold a ≡ false → b <ℤ pos 10
below a b e h = ground arith

module _ (s : PushState) (h : IsCached s) (k : String) where
  update-IsCached :
      (f : PeerNode → PeerNode)
      → ((p : PeerNode) → (f p).node_url ≡ p.node_url)
      → ((p : PeerNode) → (f p).consecutive_failures <ℤ pos 10)
      → IsCached (record { peers = update f k s.peers; push_subscribers = s.push_subscribers })
  update-IsCached f url few j =
      subst (Agrees (find j s.push_subscribers)) (sym (find-update f k j s.peers))
        (by_key (Bool-cases (str_eq k j)))
    where
      by_key :
          (str_eq k j ≡ true) ⊎ (str_eq k j ≡ false)
          → Agrees
              (find j s.push_subscribers)
              (if str_eq k j then map_row f (find j s.peers) else find j s.peers)
      by_key (inl e) =
          rw e (Agrees-map f (find j s.push_subscribers) (find j s.peers) url (λ p q. few p) (h j))
      by_key (inr e) = rw e (h j)

  abbrev more : PeerNode → PeerNode
  more p = with_failures (p.consecutive_failures +ℤ pos 1) p

  handle_push_failure-IsCached : IsCached (handle_push_failure s k)
  unfolding handle_push_failure increment_peer_failures
  handle_push_failure-IsCached j =
      by_row (leb_ℤ push_eviction_threshold (failures_of (find k (update more k s.peers)))) refl
    where
      by_key :
          (a : Option String) (c : Bool)
          → str_eq k j ≡ c
          → ((q : str_eq k j ≡ true) → Agrees a (map_row more (find j s.peers)))
          → (str_eq k j ≡ false → Agrees a (find j s.peers))
          → Agrees a (find j (update more k s.peers))
      by_key a c e same other = subst (Agrees a) (sym (find-update more k j s.peers)) (choose c e)
        where
          choose :
              (c : Bool)
              → str_eq k j ≡ c
              → Agrees a (if str_eq k j then map_row more (find j s.peers) else find j s.peers)
          choose true e = rw e (same e)
          choose false e = rw e (other e)

      kept :
          leb_ℤ push_eviction_threshold (failures_of (find k (update more k s.peers))) ≡ false
          → str_eq k j ≡ true
          → (p : PeerNode) → find j s.peers ≡ some p
          → (more p).consecutive_failures <ℤ pos 10
      kept e q p there =
          let same : k ≡ j = (eq_iff k j).0 q in
          let row : find k (update more k s.peers) ≡ some (more p) =
            find-update more k k s.peers
            ∙ ap (λ b. if b then map_row more (find k s.peers) else find k s.peers)
                ((eq_iff k k).1 refl)
            ∙ ap (λ x. map_row more (find x s.peers)) same
            ∙ ap (map_row more) there in
          below (failures_of (find k (update more k s.peers))) (more p).consecutive_failures
            (ap failures_of row) e

      gone :
          (c : Bool)
          → str_eq k j ≡ c
          → Agrees (find j (remove k s.push_subscribers)) (find j (update more k s.peers))
      gone c e =
          subst (λ a. Agrees a (find j (update more k s.peers)))
            (sym (find-remove k j s.push_subscribers)) (choose c e)
        where
          choose :
              (c : Bool)
              → str_eq k j ≡ c
              → Agrees
                  (if str_eq k j then none else find j s.push_subscribers)
                  (find j (update more k s.peers))
          choose true e = rw e tt
          choose false e =
              rw e
                (by_key (find j s.push_subscribers) false e (λ q. absurd (differ q e)) (λ q. h j))

      by_row :
          (b : Bool)
          → leb_ℤ push_eviction_threshold (failures_of (find k (update more k s.peers))) ≡ b
          → Agrees
              (find j (if b then remove k s.push_subscribers else s.push_subscribers))
              (find j (update more k s.peers))
      by_row true e = gone (str_eq k j) refl
      by_row false e =
          by_key (find j s.push_subscribers) (str_eq k j) refl
            (λ q.
              Agrees-map more (find j s.push_subscribers) (find j s.peers) (λ p. refl)
                (λ p there. kept e q p there) (h j))
            (λ q. h j)

settle-IsCached :
    (now : ℤ) (k : String) (s : PushState) (d : Delivery) → IsCached s → IsCached (settle now k s d)
unfolding record_push_success
settle-IsCached now k s delivered h = update-IsCached s h k _ (λ p. refl) (λ p. omega arith)
settle-IsCached now k s with_rejections h =
    handle_push_failure-IsCached (handle_push_failure s k) (handle_push_failure-IsCached s h k) k
settle-IsCached now k s gave_up h = handle_push_failure-IsCached s h k

-- A push leaves in the cache no peer but those with fewer than ten failures in a row, at the URL of
-- their row, if it was so before: a peer that reaches ten failures leaves the cache.
pub push_to_peer-IsCached :
    (now : ℤ) (url_ok : Bool) (answers : ℕ → Answer) (s : PushState) (k : String)
    → IsCached s
    → IsCached (push_to_peer now url_ok answers s k)
unfolding push_to_peer
push_to_peer-IsCached now true answers s k h =
    settle-IsCached now k s (attempts push_max_attempts 0 answers) h
push_to_peer-IsCached now false answers s k h = h

module _ (s : PushState) (h : IsCached s) (k url : String) (now : ℤ) where
  abbrev fresh : PeerNode
  fresh = upserted url now (find k s.peers)

  abbrev reset : PeerNode → PeerNode
  reset p = with_failures (pos 0) p

  fresh-url : (o : Option PeerNode) → (upserted url now o).node_url ≡ url
  fresh-url none = refl
  fresh-url (some p) = refl

  registered-IsCached : IsCached (record {
    peers = reset_peer_failures (upsert_peer_node s.peers k url now) k;
    push_subscribers = put k url s.push_subscribers;
  })
  unfolding reset_peer_failures upsert_peer_node
  registered-IsCached j =
      subst (λ a. Agrees a (find j (update reset k (put k fresh s.peers))))
        (sym (find-put k j url s.push_subscribers))
        (subst (Agrees (if str_eq k j then some url else find j s.push_subscribers))
          (sym (find-update reset k j (put k fresh s.peers))) (by_key (str_eq k j) refl))
    where
      by_key :
          (b : Bool)
          → str_eq k j ≡ b
          → Agrees (if b then some url else find j s.push_subscribers) (
              if b
              then map_row reset (find j (put k fresh s.peers))
              else find j (put k fresh s.peers))
      by_key true e =
          subst (λ o. Agrees (some url) (map_row reset o))
            (sym
              (find-put k j fresh s.peers ∙ ap (λ b. if b then some fresh else find j s.peers) e))
            (fresh-url (find k s.peers), omega arith)
      by_key false e =
          subst (Agrees (find j s.push_subscribers))
            (sym
              (find-put k j fresh s.peers ∙ ap (λ b. if b then some fresh else find j s.peers) e))
            (h j)

  find-registered :
      find k (reset_peer_failures (upsert_peer_node s.peers k url now) k) ≡ some (reset fresh)
  unfolding reset_peer_failures upsert_peer_node
  find-registered =
      find-update reset k k (put k fresh s.peers)
      ∙ ap
          (λ b.
            if b
            then map_row reset (find k (put k fresh s.peers))
            else find k (put k fresh s.peers))
          ((eq_iff k k).1 refl)
      ∙ ap (map_row reset) (
          find-put k k fresh s.peers
          ∙ ap (λ b. if b then some fresh else find k s.peers) ((eq_iff k k).1 refl))

-- A peer that is registered has a row with its URL and no failures.
abbrev pub IsCleared : RegisterRequest → PushState × Registered → Type 0
IsCleared req (t, registered) =
    (p : PeerNode) × (find req.node_pubkey t.peers ≡ some p)
    × (p.node_url ≡ req.node_url)
    × (p.consecutive_failures ≡ pos 0)
IsCleared req (t, bad_request) = Unit
IsCleared req (t, forbidden) = Unit
IsCleared req (t, unprocessable) = Unit
IsCleared req (t, bad_target) = Unit

abbrev pub IsInOrder : RegisterRequest → PushState × Registered → Type 0
IsInOrder req r = IsCached r.0 × IsCleared req r

-- A registration keeps the cache in agreement with the table. Where it is accepted, the peer has a row with
-- the URL of the request and no failures.
pub handle_sync_register-IsCached :
    (net : Net) (verify : String → String → ℤ → String → Bool) (answers : String → String → Bool)
    (now : ℤ) (s : PushState) (req : RegisterRequest)
    → IsCached s
    → IsInOrder req (handle_sync_register net verify answers now s req)
unfolding handle_sync_register
handle_sync_register-IsCached net verify answers now s req h = by_fields req.signed_at req.signature
  where
    by_answer :
        (b : Bool)
        → IsInOrder req
            (if b then (stored net verify answers now s req, registered) else (s, bad_target))
    by_answer true =
        let k = req.node_pubkey in
        (
          registered-IsCached s h k req.node_url now,
          (
            with_failures (pos 0) (upserted req.node_url now (find k s.peers)),
            find-registered s h k req.node_url now,
            fresh-url s h k req.node_url now (find k s.peers),
            refl,
          ),
        )
    by_answer false = (h, tt)

    by_url : (c : Checked (Unit {0})) → IsInOrder req (after_url net verify answers now s req c)
    by_url (err e) = (h, tt)
    by_url (ok u) = by_answer (answers req.node_url req.node_pubkey)

    by_tests :
        (skewed signed : Bool)
        → IsInOrder req (
            if skewed
            then (s, bad_request)
            else if not signed
            then (s, forbidden)
            else after_url net verify answers now s req (validate_node_url net req.node_url))
    by_tests true signed = (h, tt)
    by_tests false false = (h, tt)
    by_tests false true = by_url (validate_node_url net req.node_url)

    by_fields :
        (at : Option ℤ) (sig : Option String)
        → IsInOrder req (with_signature net verify answers now s req at sig)
    by_fields none sig = (h, tt)
    by_fields (some at) none = (h, tt)
    by_fields (some at) (some sig) =
        by_tests (ltb_ℤ sync_register_max_skew_secs (abs_i64 (sub_i64 now at)))
          (verify req.node_pubkey req.node_url at sig)

-- ===== src/Peers/State.antt =====
-- The table `peer_nodes` (src/db.rs) and the push cache of the primary.
-- SQL statements are taken to succeed, and no lock is poisoned.
use stophammer.Common.{Option, none, some, List, [], ◌∷◌, String, if◌then◌else◌}
use stophammer.Common.Int.{ℤ, pos, ◌+ℤ◌, ltb_ℤ}
use stophammer.Common.Keyed.{find, put, update}

pub record PeerNode : Type 0 where
  pub node_url : String
  pub discovered_at : ℤ
  pub last_push_at : Option ℤ
  pub consecutive_failures : ℤ

abbrev pub Peers : Type 0
Peers = List (String × PeerNode)

-- The peers by their key, and the push URLs by the same key.
pub record PushState : Type 0 where
  pub peers : Peers
  pub push_subscribers : List (String × String)

abbrev pub max_peer_failures : ℤ
max_peer_failures = pos 10

unfoldable pub get_push_peers : Peers → Peers
get_push_peers [] = []
get_push_peers ((k, p) ∷ rest) =
    let later = get_push_peers rest in
    if ltb_ℤ p.consecutive_failures max_peer_failures then (k, p) ∷ later else later

-- Collected into a `HashMap`.
unfoldable pub urls_of : Peers → List (String × String)
urls_of [] = []
urls_of ((k, p) ∷ rest) = (k, p.node_url) ∷ urls_of rest

unfoldable pub push_subscribers_at_start : Peers → List (String × String)
unfolding get_push_peers urls_of
push_subscribers_at_start peers = urls_of (get_push_peers peers)

abbrev pub upserted : String → ℤ → Option PeerNode → PeerNode
upserted url now none = record {
  node_url = url;
  discovered_at = now;
  last_push_at = none;
  consecutive_failures = pos 0;
}
upserted url now (some p) = record {
  node_url = url;
  discovered_at = p.discovered_at;
  last_push_at = p.last_push_at;
  consecutive_failures = p.consecutive_failures;
}

unfoldable pub upsert_peer_node : Peers → String → String → ℤ → Peers
upsert_peer_node peers pubkey url now = put pubkey (upserted url now (find pubkey peers)) peers

abbrev pub with_failures : ℤ → PeerNode → PeerNode
with_failures n p = record {
  node_url = p.node_url;
  discovered_at = p.discovered_at;
  last_push_at = p.last_push_at;
  consecutive_failures = n;
}

unfoldable pub record_push_success : Peers → String → ℤ → Peers
record_push_success peers pubkey now =
    update
      (λ p. record {
        node_url = p.node_url;
        discovered_at = p.discovered_at;
        last_push_at = some now;
        consecutive_failures = pos 0;
      })
      pubkey peers

unfoldable pub increment_peer_failures : Peers → String → Peers
unfolding ◌+ℤ◌
increment_peer_failures peers pubkey =
    update (λ p. with_failures (p.consecutive_failures +ℤ pos 1) p) pubkey peers

unfoldable pub reset_peer_failures : Peers → String → Peers
reset_peer_failures peers pubkey = update (λ p. with_failures (pos 0) p) pubkey peers
